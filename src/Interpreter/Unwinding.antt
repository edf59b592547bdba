-- ===== src/Interpreter/Unwinding.antt =====
-- Lemmas on the unwinding of src/runtime/Interpreter.cpp, `advanceAfterNode` and what it calls: the
-- state that it leaves behind, and its fuel.
use sapo_engine.Prelude.{
  ℕ, zero, suc, ◌+◌, ◌≤◌, ◌<◌, String, ◌≡◌, refl, ap, sym, subst, ◌-◌, Bool, true, false, Option,
  none, some, List, [], ◌∷◌, str_eq, arith, Bool-cases, inl, inr, leb, ltb, not, ◌&&◌, ◌||◌,
  get_elem?,
}
use sapo_engine.Workflow.{ParsedWorkflow}
use sapo_engine.Interpreter.State.{
  Frame, FrameKind, loop, try, branch, body, Phase, in_body, in_catch, in_finally, RunState, Tasks,
}
use sapo_engine.Interpreter.Frames.{
  index_of_id, bind_iteration, save_frames, erase_iteration_locals,
}
use sapo_engine.Interpreter.Advance.{
  Unwind, leave_top, end_of_run, close_frame, repeat_body, more_passes, warn_capped, next_iteration,
  pass_or_close, enter_finally, raise_again, advance_try_phase, go_on, pop_frame, complete_frame,
  step_sibling, leave_or_step, advance_in, advance, advance_after_node, leaving, next_of, rounds_of,
  weigh,
}
use sapo_engine.Interpreter.Same.{
  Same, Keeps, KeepsOn, Keeps-weaken, resolve_jump-Same, raise_again-Same, Keeps-bind-test,
  Keeps-bind, warn_capped-Same, more_passes-Ends,
}

module _ {C : Type 0} (t : Tasks C) (w : ParsedWorkflow) (k : Unwind C) (f : Frame)
    (rest : List Frame) (m : ℕ) (on : KeepsOn m k) (fits : weigh (f ∷ rest) ≡ suc m) where
  rest_fits : weigh rest ≤ m
  rest_fits = ground (arith, fits)

  pub close_frame-Keeps : (st : RunState C) → Keeps m st (close_frame k f rest st)
  unfolding close_frame erase_iteration_locals
  close_frame-Keeps st =
      Keeps-weaken (weigh rest) m st _ _ rest_fits refl refl refl (on f.node_id rest _ rest_fits)

  pop_frame-Keeps : (st : RunState C) → Keeps (suc m) st (pop_frame k f rest st)
  unfolding pop_frame
  pop_frame-Keeps st = elim (Bool-cases (str_eq f.resume_target "")) [
    | inl none_left ↦ rw none_left (
        Keeps-weaken (weigh rest) (suc m) st _ _ (omega (arith, rest_fits)) refl refl refl
          (on f.node_id rest (save_frames (record st { frames = rest })) rest_fits))
    | inr resumes ↦ rw resumes (ground (arith, rest_fits))
  ]

  go_on-Keeps :
      (owner : String) (st st' : RunState C) → Same m st st' → Keeps (suc m) st (go_on k owner st')
  unfolding go_on
  go_on-Keeps owner st st' same = elim (Bool-cases (not (str_eq st'.cursor "") || st'.finished)) [
    | inl settled ↦ rw settled (ground (arith, same))
    | inr further ↦ rw further (
        Keeps-weaken (weigh st'.frames) (suc m) st st' _ (omega (arith, same.frames_within))
          same.visits_kept same.budget_kept same.visited_kept
          (on owner st'.frames st' same.frames_within))
  ]

  repeat_body-Same : (index : ℕ) (st : RunState C) → Same (suc m) st (repeat_body f rest index st)
  unfolding repeat_body bind_iteration
  repeat_body-Same index st = ground (arith, fits)

  pass_or_close-Keeps :
      (index : ℕ) (st : RunState C) (more : Bool)
      → Keeps (suc m) st (pass_or_close t w k f rest index st more)
  unfolding pass_or_close
  pass_or_close-Keeps index st true = repeat_body-Same index st
  pass_or_close-Keeps index st false =
      Keeps-weaken m (suc m) st st _ (omega arith) refl refl refl (close_frame-Keeps st)

  pub next_iteration-Keeps : (st : RunState C) → Keeps (suc m) st (next_iteration t w k f rest st)
  unfolding next_iteration
  next_iteration-Keeps st =
      let index = f.loop_state.index + 1 in
      let capped = leb f.loop_state.max_iterations index in
      let st' = warn_capped f capped (record st { frames = f ∷ rest }) in
      let warned = warn_capped-Same f capped (record st { frames = f ∷ rest }) in
      Keeps-bind-test (more_passes t w f (not capped && ltb index f.loop_state.total) st')
        (pass_or_close t w k f rest index st') (suc m) st
        (more_passes-Ends t w f (not capped && ltb index f.loop_state.total) st')
        (λ more.
          Keeps-weaken (suc m) (suc m) st st' _ (omega arith) warned.visits_kept warned.budget_kept
            warned.visited_kept (pass_or_close-Keeps index st' more))

  enter_finally-Same :
      (x : String) (xs : List String) (st : RunState C)
      → rounds_of f.try_state.phase ≡ 2
      → Same m st (enter_finally f rest (x ∷ xs) st)
  unfolding enter_finally
  enter_finally-Same x xs st two = ground (arith, fits, two)

  close_after-Keeps :
      (st : RunState C)
      → Keeps m st (
          close_frame k f rest
            (raise_again f.try_state.propagate (record st { frames = f ∷ rest })))
  close_after-Keeps st =
      let same = raise_again-Same f.try_state.propagate (record st { frames = f ∷ rest }) in
      Keeps-weaken m m st (raise_again f.try_state.propagate (record st { frames = f ∷ rest })) _
        (omega arith) same.visits_kept same.budget_kept same.visited_kept
        (close_frame-Keeps (raise_again f.try_state.propagate (record st { frames = f ∷ rest })))

  advance_try_phase-Keeps :
      (phase : Phase) (ids : List String) (st : RunState C)
      → f.try_state.phase ≡ phase
      → Keeps m st (advance_try_phase k f rest phase ids st)
  unfolding advance_try_phase
  advance_try_phase-Keeps in_body [] st e = close_after-Keeps st
  advance_try_phase-Keeps in_body (x ∷ xs) st e = enter_finally-Same x xs st (ap rounds_of e)
  advance_try_phase-Keeps in_catch [] st e = close_after-Keeps st
  advance_try_phase-Keeps in_catch (x ∷ xs) st e = enter_finally-Same x xs st (ap rounds_of e)
  advance_try_phase-Keeps in_finally ids st e = close_after-Keeps st

  complete_frame-Keeps :
      (kind : FrameKind) (last : Bool) (st : RunState C)
      → Keeps (suc m) st (complete_frame t w k kind last f rest st)
  unfolding complete_frame
  complete_frame-Keeps loop last st = next_iteration-Keeps st
  complete_frame-Keeps try last st =
      Keeps-bind (advance_try_phase k f rest f.try_state.phase f.try_state.finally_ids st)
        (go_on k f.node_id) m (suc m) st
        (advance_try_phase-Keeps f.try_state.phase f.try_state.finally_ids st refl)
        (go_on-Keeps f.node_id st)
  complete_frame-Keeps branch last st = ground (arith, fits)
  complete_frame-Keeps body last st = pop_frame-Keeps st

  step_sibling-Keeps :
      (i : ℕ) (o : Option String) (st : RunState C)
      → Keeps (suc m) st (step_sibling t w k i o f rest st)
  unfolding step_sibling
  step_sibling-Keeps i none st = complete_frame-Keeps f.kind true st
  step_sibling-Keeps i (some id) st = ground (arith, fits)

  leave_or_step-Keeps :
      (i : ℕ) (o : Option String) (st : RunState C)
      → Keeps (suc m) st (leave_or_step t w k i o f rest st)
  unfolding leave_or_step
  leave_or_step-Keeps i none st = step_sibling-Keeps i (get_elem? f.ids (i + 1)) st
  leave_or_step-Keeps i (some target) st =
      ground (arith, fits, resolve_jump-Same (record st { frames = f ∷ rest }) target)

  advance_in-Keeps :
      (current : String) (o : Option ℕ) (st : RunState C)
      → Keeps (suc m) st (advance_in t w k current o f rest st)
  unfolding advance_in
  advance_in-Keeps current none st = complete_frame-Keeps f.kind false st
  advance_in-Keeps current (some i) st =
      leave_or_step-Keeps i (leaving f.ids (next_of w current)) st

module _ {C : Type 0} (t : Tasks C) (w : ParsedWorkflow) where
  leave_top-Same :
      (o : Option String) (st : RunState C) → Same 0 st (leave_top o (record st { frames = [] }))
  unfolding leave_top end_of_run
  leave_top-Same none st = ground arith
  leave_top-Same (some target) st = ground arith

  -- The unwinding from a node always ends, in a state or by the exception of a loop's guard, and
  -- without a new frame; the counters of the run are what they were.
  pub advance-Keeps : (n m : ℕ) → m < n → KeepsOn m (advance t w n)
  unfolding advance
  advance-Keeps zero m h current frames st le = absurd (omega arith)
  advance-Keeps (suc n) m h current [] st le = leave_top-Same (next_of w current) st
  advance-Keeps (suc n) m h current (f ∷ rest) st le =
      let fits : weigh (f ∷ rest) ≡ suc (weigh (f ∷ rest) - 1) = ground arith in
      subst
        (λ x.
          Keeps x st (advance_in t w (advance t w n) current (index_of_id f.ids current) f rest st))
        (sym fits)
        (advance_in-Keeps t w (advance t w n) f rest (weigh (f ∷ rest) - 1)
          (advance-Keeps n (weigh (f ∷ rest) - 1) (omega arith)) fits current
          (index_of_id f.ids current) st)

  -- Leaving a node always ends, in a state or by the exception of a loop's guard, however deep the
  -- frames are; the frames weigh no more than before, where a frame weighs two, but one in its
  -- `finally` body, and the visits, the budget and the trail are as before.
  pub advance_after_node-Keeps :
      (st : RunState C) → Keeps (weigh st.frames) st (advance_after_node t w st)
  unfolding advance_after_node
  advance_after_node-Keeps st =
      advance-Keeps (suc (weigh st.frames)) (weigh st.frames) (omega arith) st.current_node_id
        st.frames st (omega arith)
