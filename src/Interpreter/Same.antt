-- ===== src/Interpreter/Same.antt =====
-- Lemmas on the state of src/runtime/Interpreter.cpp after a step: the frames, the counters and the
-- trail of a run beside those before it.
use sapo_engine.Prelude.{
  ℕ, ◌≤◌, String, ◌≡◌, Bool, true, false, Option, none, some, List, [], ◌∷◌, arith, Bool-cases,
  Option-cases, inl, inr,
}
use sapo_engine.Workflow.{ParsedWorkflow, NodeKind, Node, loop_kind, find}
use sapo_engine.Interpreter.State.{
  Frame, FrameKind, loop, RunState, Tasks, Outcome, returned, raised, crashed, Step, done, escaped,
  crash, stuck, ◌>>=◌, CapturedError, unguarded,
}
use sapo_engine.Interpreter.Frames.{
  index_of_id, bind_if_loop, bind_iteration, enter_frame, jump_into, resolve_jump,
}
use sapo_engine.Interpreter.Advance.{
  Unwind, ask_guard, more_passes, warn_capped, raise_again, kind_of, weigh, is_while,
}

module _ {C : Type 0} where
  -- What a state has in common with the one that it was reached from, within a number of frames.
  pub record Same (k : ℕ) (from to : RunState C) : Type 0 where
    pub frames_within : weigh to.frames ≤ k
    pub visits_kept : to.visits ≡ from.visits
    pub budget_kept : to.budget ≡ from.budget
    pub visited_kept : to.visited ≡ from.visited

  -- A step that ends in such a state, or by an exception; never for want of fuel.
  abbrev pub Keeps : ℕ → RunState C → Step (RunState C) → Type 0
  Keeps k from (done to) = Same k from to
  Keeps k from stuck = ⊥
  Keeps k from _ = Unit

  -- The rest of an unwinding, within a number of frames.
  abbrev pub KeepsOn : ℕ → Unwind C → Type 0
  KeepsOn m k =
      (current : String) (frames : List Frame) (st : RunState C)
      → weigh frames ≤ m
      → Keeps (weigh frames) st (k current frames st)

  pub Keeps-weaken :
      (a b : ℕ) (s s' : RunState C) (r : Step (RunState C))
      → a ≤ b
      → s'.visits ≡ s.visits
      → s'.budget ≡ s.budget
      → s'.visited ≡ s.visited
      → Keeps a s' r
      → Keeps b s r
  Keeps-weaken a b s s' (done to) le v u w h = ground arith
  Keeps-weaken a b s s' stuck le v u w h = h
  Keeps-weaken a b s s' (escaped e) le v u w h = h
  Keeps-weaken a b s s' (crash x) le v u w h = h

  pub bind_if_loop-Same :
      (k : FrameKind) (f : Frame) (st : RunState C)
      → Same (weigh st.frames) st (bind_if_loop k f.loop_state st)
  unfolding bind_if_loop bind_iteration
  bind_if_loop-Same loop f st = ground arith
  bind_if_loop-Same _ f st = ground arith

  pub jump_into-Same :
      (target : String) (st : RunState C) (frames : List Frame)
      → Same (weigh frames) st (jump_into target st frames)
  unfolding jump_into enter_frame
  jump_into-Same target st [] = ground arith
  jump_into-Same target st (f ∷ outer) = elim (Option-cases (index_of_id f.ids target)) [
    | inl no_index ↦ rw (no_index) (ground (arith, jump_into-Same target st outer))
    | inr (i, found) ↦ rw (found) (
        ground (
          arith,
          bind_if_loop-Same f.kind f (record st { frames = record f { position = i } ∷ outer }),
        ))
  ]

  pub resolve_jump-Same :
      (st : RunState C) (target : String) → Same (weigh st.frames) st (resolve_jump st target)
  unfolding resolve_jump
  resolve_jump-Same st target = ground (arith, jump_into-Same target st st.frames)

-- A step that does not run out of fuel.
abbrev pub Ends : {A : Type 0} → Step A → Type 0
Ends stuck = ⊥
Ends _ = Unit

pub unguarded-Ends : {A : Type 0} (o : Outcome A) → Ends (unguarded o)
unguarded-Ends (returned a) = tt
unguarded-Ends (raised a) = tt
unguarded-Ends (crashed a) = tt

module _ {C : Type 0} where
  pub raise_again-Same :
      (o : Option CapturedError) (st : RunState C) → Same (weigh st.frames) st (raise_again o st)
  unfolding raise_again
  raise_again-Same none st = ground arith
  raise_again-Same (some e) st = ground arith

  pub Keeps-bind-test :
      (r : Step Bool) (g : Bool → Step (RunState C)) (m : ℕ) (st : RunState C)
      → Ends r
      → ((b : Bool) → Keeps m st (g b))
      → Keeps m st (r >>= g)
  Keeps-bind-test (done b) g m st e h = h b
  Keeps-bind-test stuck g m st e h = e
  Keeps-bind-test (escaped x) g m st e h = tt
  Keeps-bind-test (crash x) g m st e h = tt

  pub Keeps-bind :
      (r : Step (RunState C)) (g : RunState C → Step (RunState C)) (m n : ℕ) (st : RunState C)
      → Keeps m st r
      → ((st' : RunState C) → Same m st st' → Keeps n st (g st'))
      → Keeps n st (r >>= g)
  Keeps-bind (done st') g m n st e h = h st' e
  Keeps-bind stuck g m n st e h = e
  Keeps-bind (escaped x) g m n st e h = tt
  Keeps-bind (crash x) g m n st e h = tt

  pub warn_capped-Same :
      (f : Frame) (capped : Bool) (st : RunState C)
      → Same (weigh st.frames) st (warn_capped f capped st)
  unfolding warn_capped
  warn_capped-Same f capped st = ground arith

module _ {C : Type 0} (t : Tasks C) (w : ParsedWorkflow) where
  pub ask_guard-Ends :
      (o : Option Node) (kind : NodeKind) (st : RunState C) → Ends (ask_guard t w o kind st)
  unfolding ask_guard
  ask_guard-Ends none kind st = tt
  ask_guard-Ends (some n) (loop_kind l) st = unguarded-Ends (t.loop_guard n st)
  ask_guard-Ends (some n) _ st = tt

  pub more_passes-Ends : (f : Frame) (b : Bool) (st : RunState C) → Ends (more_passes t w f b st)
  unfolding more_passes
  more_passes-Ends f true st = elim (Bool-cases (is_while f.loop_state.mode)) [
    | inl guarded ↦ rw guarded (ask_guard-Ends (find w f.node_id) (kind_of (find w f.node_id)) st)
    | inr counted ↦ rw counted tt
  ]
  more_passes-Ends f false st = tt
