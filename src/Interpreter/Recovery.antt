-- ===== src/Interpreter/Recovery.antt =====
-- Lemmas on error routing and loop control of src/runtime/Interpreter.cpp: the states that they
-- leave behind.
use sapo_engine.Prelude.{
  ℕ, suc, ◌≤◌, String, ◌≡◌, ◌-◌, refl, sym, subst, Bool, true, Option, none, some, List, [], ◌∷◌,
  str_eq, arith, Bool-cases, inl, inr, not, ◌&&◌, ◌++◌,
}
use sapo_engine.Prelude.Map.{insert}
use sapo_engine.Workflow.{ParsedWorkflow}
use sapo_engine.Interpreter.State.{
  Frame, FrameKind, loop, try, branch, body, Phase, in_body, in_catch, in_finally, RunState, Tasks,
  Step, done, escaped, crash, stuck, ◌>>=◌, CapturedError, iteration_skipped, error_object,
}
use sapo_engine.Interpreter.Advance.{Unwind, close_frame, next_iteration, weigh}
use sapo_engine.Interpreter.Errors.{
  find_loop, name_error, enter_catch, enter_cleanup, unwind_of, iterate_found, next_iteration_for,
  finish_found, finish_loop, recover, try_frame, loop_frame, handle_frame, handle_frames, handle_or,
  handle_error, handler_of, handlers_or, routed_to, is_empty, as_handled,
}
use sapo_engine.Interpreter.Same.{Same, Keeps, KeepsOn, Keeps-weaken, resolve_jump-Same}
use sapo_engine.Interpreter.Unwinding.{advance-Keeps, close_frame-Keeps, next_iteration-Keeps}

weigh-find_loop :
    (loop_id : String) (frames : List Frame) (f : Frame) (rest : List Frame)
    → find_loop loop_id frames ≡ some (f, rest)
    → weigh (f ∷ rest) ≤ weigh frames
unfolding find_loop
weigh-find_loop loop_id [] f rest h = cc
weigh-find_loop loop_id (g ∷ frames) f rest h =
    ground (arith, weigh-find_loop loop_id frames f rest)

module _ {C : Type 0} where
  abbrev pub KeepsBoth : ℕ → RunState C → Step (Bool × RunState C) → Type 0
  KeepsBoth k from (done (b, to)) = Same k from to
  KeepsBoth k from stuck = ⊥
  KeepsBoth k from _ = Unit

  -- A step with a verdict put beside its state.
  Keeps-verdict :
      (r : Step (RunState C)) (b : Bool) (k : ℕ) (st : RunState C)
      → Keeps k st r
      → KeepsBoth k st (r >>= λ st'. done (b, st'))
  Keeps-verdict (done st') b k st h = h
  Keeps-verdict stuck b k st h = h
  Keeps-verdict (escaped e) b k st h = h
  Keeps-verdict (crash x) b k st h = h

  pub KeepsBoth-weaken :
      (a b : ℕ) (s s' : RunState C) (r : Step (Bool × RunState C))
      → a ≤ b
      → s'.visits ≡ s.visits
      → s'.budget ≡ s.budget
      → s'.visited ≡ s.visited
      → KeepsBoth a s' r
      → KeepsBoth b s r
  KeepsBoth-weaken a b s s' (done (v, to)) le x u y h = ground arith
  KeepsBoth-weaken a b s s' stuck le x u y h = h
  KeepsBoth-weaken a b s s' (escaped e) le x u y h = h
  KeepsBoth-weaken a b s s' (crash z) le x u y h = h

  Keeps-as_handled :
      (r : Step (Bool × RunState C)) (st : RunState C)
      → KeepsBoth (weigh st.frames) st r
      → KeepsBoth (weigh st.frames) st (r >>= as_handled)
  unfolding as_handled
  Keeps-as_handled (done (b, st')) st h = h
  Keeps-as_handled stuck st h = h
  Keeps-as_handled (escaped e) st h = h
  Keeps-as_handled (crash x) st h = h

module _ {C : Type 0} (t : Tasks C) (w : ParsedWorkflow) where
  unwind_of-Keeps : (st : RunState C) → KeepsOn (weigh st.frames) (unwind_of t w st)
  unwind_of-Keeps st = advance-Keeps t w (suc (weigh st.frames)) (weigh st.frames) (omega arith)

  narrow : (a b : ℕ) (k : Unwind C) → a ≤ b → KeepsOn b k → KeepsOn a k
  narrow a b k le on current frames st h = on current frames st (omega arith)

  -- A frame of the stack and those around it, as the unwinding meets them.
  module _ (f : Frame) (rest : List Frame) (st : RunState C) (k : Unwind C)
      (on : KeepsOn (weigh (f ∷ rest)) k) where
    fits : weigh (f ∷ rest) ≡ suc (weigh (f ∷ rest) - 1)
    fits = ground arith

    next_iteration-Within : Keeps (weigh (f ∷ rest)) st (next_iteration t w k f rest st)
    next_iteration-Within =
        subst (λ x. Keeps x st (next_iteration t w k f rest st)) (sym fits)
          (next_iteration-Keeps t w k f rest (weigh (f ∷ rest) - 1)
            (narrow (weigh (f ∷ rest) - 1) (weigh (f ∷ rest)) k (omega arith) on) fits st)

    close_frame-Within : Keeps (weigh (f ∷ rest)) st (close_frame k f rest st)
    close_frame-Within =
        Keeps-weaken (weigh (f ∷ rest) - 1) (weigh (f ∷ rest)) st st _ (omega arith) refl refl refl
          (close_frame-Keeps t w k f rest (weigh (f ∷ rest) - 1)
            (narrow (weigh (f ∷ rest) - 1) (weigh (f ∷ rest)) k (omega arith) on) fits st)

  module _ (f : Frame) (rest : List Frame) (st st' : RunState C)
      (le : weigh (f ∷ rest) ≤ weigh st.frames) (same : Same (weigh st.frames) st st')
      (frames_same : weigh st'.frames ≡ weigh st.frames) where
    on_frames : KeepsOn (weigh (f ∷ rest)) (unwind_of t w st')
    on_frames =
        narrow (weigh (f ∷ rest)) (weigh st'.frames) (unwind_of t w st')
          (omega (arith, le, frames_same)) (unwind_of-Keeps st')

    iterate-Keeps :
        KeepsBoth
          (weigh st.frames)
          st
          (next_iteration t w (unwind_of t w st') f rest st' >>= λ st''. done (true, st''))
    iterate-Keeps =
        Keeps-verdict (next_iteration t w (unwind_of t w st') f rest st') true (weigh st.frames) st
          (Keeps-weaken (weigh (f ∷ rest)) (weigh st.frames) st st' _ le same.visits_kept
            same.budget_kept same.visited_kept
            (next_iteration-Within f rest st' (unwind_of t w st') on_frames))

    close-Keeps :
        KeepsBoth
          (weigh st.frames)
          st
          (close_frame (unwind_of t w st') f rest st' >>= λ st''. done (true, st''))
    close-Keeps =
        Keeps-verdict (close_frame (unwind_of t w st') f rest st') true (weigh st.frames) st (
          Keeps-weaken (weigh (f ∷ rest)) (weigh st.frames) st st' _ le same.visits_kept
            same.budget_kept same.visited_kept
            (close_frame-Within f rest st' (unwind_of t w st') on_frames))

  itself : (st : RunState C) → Same (weigh st.frames) st st
  itself st = ground arith

  iterate_found-Keeps :
      (loop_id : String) (st : RunState C) (o : Option (Frame × List Frame))
      → find_loop loop_id st.frames ≡ o
      → KeepsBoth (weigh st.frames) st (iterate_found t w st o)
  unfolding iterate_found
  iterate_found-Keeps loop_id st none e = itself st
  iterate_found-Keeps loop_id st (some (f, rest)) e =
      iterate-Keeps f rest st st (weigh-find_loop loop_id st.frames f rest e) (itself st) refl

  pub next_iteration_for-Keeps :
      (st : RunState C) (loop_id : String)
      → KeepsBoth (weigh st.frames) st (next_iteration_for t w st loop_id)
  unfolding next_iteration_for
  next_iteration_for-Keeps st loop_id =
      iterate_found-Keeps loop_id st (find_loop loop_id st.frames) refl

  finish_found-Keeps :
      (loop_id : String) (st : RunState C) (o : Option (Frame × List Frame))
      → find_loop loop_id st.frames ≡ o
      → KeepsBoth (weigh st.frames) st (finish_found t w st o)
  unfolding finish_found
  finish_found-Keeps loop_id st none e = itself st
  finish_found-Keeps loop_id st (some (f, rest)) e =
      close-Keeps f rest st st (weigh-find_loop loop_id st.frames f rest e) (itself st) refl

  pub finish_loop-Keeps :
      (st : RunState C) (loop_id : String)
      → KeepsBoth (weigh st.frames) st (finish_loop t w st loop_id)
  unfolding finish_loop
  finish_loop-Keeps st loop_id = finish_found-Keeps loop_id st (find_loop loop_id st.frames) refl

  module _ (f : Frame) (outer : List Frame) (e : CapturedError) (st : RunState C)
      (le : weigh (f ∷ outer) ≤ weigh st.frames) where
    enter_catch-Same :
        (ids : List String)
        → f.try_state.phase ≡ in_body
        → Same (weigh st.frames) st (enter_catch t f outer ids e st)
    unfolding enter_catch name_error
    enter_catch-Same ids p = ground (arith, le, p)

    enter_cleanup-Same :
        (ids : List String)
        → f.try_state.phase ≡ in_body
        → Same (weigh st.frames) st (enter_cleanup f outer ids e st)
    unfolding enter_cleanup
    enter_cleanup-Same ids p = ground (arith, le, p)

    recover-Keeps :
        (handlers cleanup : List String)
        → f.try_state.phase ≡ in_body
        → KeepsBoth (weigh st.frames) st (recover t w f outer handlers cleanup e st)
    unfolding recover
    recover-Keeps (x ∷ xs) cleanup p = enter_catch-Same (x ∷ xs) p
    recover-Keeps [] (x ∷ xs) p = enter_cleanup-Same (x ∷ xs) p
    recover-Keeps [] [] p =
        close-Keeps f outer st (record st { pending_error = some e }) le (ground arith) refl

    module _ (further : Step (Bool × RunState C))
        (on : KeepsBoth (weigh st.frames) st further) where
      try_frame-Keeps :
          (phase : Phase)
          → f.try_state.phase ≡ phase
          → KeepsBoth (weigh st.frames) st (try_frame t w phase f outer e st further)
      unfolding try_frame
      try_frame-Keeps in_body p =
          let ts = f.try_state in
          let routed = routed_to w f e in
          elim (Bool-cases
            (str_eq routed "" && is_empty ts.catch_ids && not (is_empty ts.catch_when))) [
              | inl listed_only ↦ rw listed_only on
              | inr handles ↦
                  rw handles (recover-Keeps (handlers_or routed ts.catch_ids) ts.finally_ids p)
            ]
      try_frame-Keeps in_catch p = on
      try_frame-Keeps in_finally p = on

      loop_frame-Keeps : KeepsBoth (weigh st.frames) st (loop_frame t w f e st further)
      unfolding loop_frame
      loop_frame-Keeps = elim (Bool-cases (str_eq f.loop_state.on_item_error "fail")) [
        | inl fails ↦ rw fails on
        | inr skips ↦ rw skips (
            Keeps-as_handled
              (next_iteration_for t w
                (record st {
                  warnings =
                      st.warnings
                      ++ iteration_skipped f.node_id f.loop_state.index e.code e.message ∷ [];
                })
                "")
              st
              (KeepsBoth-weaken (weigh st.frames) (weigh st.frames) st _ _ (omega arith) refl refl
                refl (next_iteration_for-Keeps _ "")))
      ]

      handle_frame-Keeps :
          (kind : FrameKind)
          → KeepsBoth (weigh st.frames) st (handle_frame t w kind f outer e st further)
      unfolding handle_frame
      handle_frame-Keeps try = try_frame-Keeps f.try_state.phase refl
      handle_frame-Keeps loop = loop_frame-Keeps
      handle_frame-Keeps branch = on
      handle_frame-Keeps body = on

  handle_frames-Keeps :
      (frames : List Frame) (e : CapturedError) (st : RunState C)
      → weigh frames ≤ weigh st.frames
      → KeepsBoth (weigh st.frames) st (handle_frames t w frames e st)
  unfolding handle_frames
  handle_frames-Keeps [] e st le = itself st
  handle_frames-Keeps (f ∷ outer) e st le =
      handle_frame-Keeps f outer e st le (handle_frames t w outer e st)
        (handle_frames-Keeps outer e st (omega (arith, le))) f.kind

  handle_or-Keeps :
      (o : Option String) (e : CapturedError) (st : RunState C)
      → KeepsBoth (weigh st.frames) st (handle_or t w o e st)
  unfolding handle_or
  handle_or-Keeps none e st = handle_frames-Keeps st.frames e st (omega arith)
  handle_or-Keeps (some id) e st =
      let there =
        resolve_jump-Same (record st { locals = insert "error" (error_object e) st.locals }) id in
      ground (arith, there)

  -- The routing of an error ends, handled or not, in a state or by the exception of a loop's
  -- guard; the frames weigh no more than before, where a frame weighs two, but one in its `finally`
  -- body, and the visits, the budget and the trail are as before.
  pub handle_error-Keeps :
      (e : CapturedError) (st : RunState C) → KeepsBoth (weigh st.frames) st (handle_error t w e st)
  unfolding handle_error
  handle_error-Keeps e st = handle_or-Keeps (handler_of w st.current_node_id) e st
