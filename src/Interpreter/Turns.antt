-- ===== src/Interpreter/Turns.antt =====
-- The turns of `drive` in src/runtime/Interpreter.cpp: what one turn adds to the counters.
use sapo_engine.Prelude.{
  ℕ, zero, suc, ◌+◌, ◌≤◌, ◌≡◌, ◌≢◌, refl, Bool, true, false, Option, none, some, [], ◌∷◌, ◌++◌,
  str_eq, arith, if_both, ltb, length, length-append,
}
use sapo_engine.Workflow.{ParsedWorkflow, Node, parallel_kind, find}
use sapo_engine.Interpreter.State.{
  CapturedError, ControlSignal, continue, jump_to, suspend, terminate, loop_break, loop_continue,
  RunState, Outcome, returned, raised, crashed, Tasks, Step, done, escaped, crash, stuck, ◌>>=◌,
  SuspendRequest, Terminate,
}
use sapo_engine.Interpreter.Advance.{weigh}
use sapo_engine.Interpreter.Errors.{finish_loop, next_iteration_for, handle_error}
use sapo_engine.Interpreter.Activate.{next_or_empty, run_node}
use sapo_engine.Interpreter.Drive.{
  fail_run, unless_handled, suspend_run, takes_message, terminate_run, handled_or, looped_or,
  follow, settle, run_or_skip, visit, visit_or_route, at_cursor, raise_pending, round,
}
use sapo_engine.Interpreter.Same.{Same, Keeps, resolve_jump-Same}
use sapo_engine.Interpreter.Unwinding.{advance_after_node-Keeps}
use sapo_engine.Interpreter.Recovery.{
  KeepsBoth, finish_loop-Keeps, next_iteration_for-Keeps, handle_error-Keeps,
}
use sapo_engine.Interpreter.Budget.{IsSequential, run_node-Same}

module _ {C : Type 0} where
  suspend_run-Same :
      (s : SuspendRequest) (node : Node) (st : RunState C)
      → Same (weigh st.frames) st (suspend_run s node st)
  unfolding suspend_run
  suspend_run-Same s node st = ground arith

  terminate_run-Same :
      (s : Terminate) (node : Node) (st : RunState C)
      → Same (weigh st.frames) st (terminate_run s node st)
  unfolding terminate_run
  terminate_run-Same s node st = ground arith

  -- A state that may replace the one reached when an error is not handled.
  unless_handled-Keeps :
      (r : Step (Bool × RunState C)) (f : RunState C → RunState C) (k : ℕ) (st : RunState C)
      → ((to : RunState C) → Same k st to → Same k st (f to))
      → KeepsBoth k st r
      → Keeps k st (r >>= λ x. done (unless_handled f x))
  unfolding unless_handled
  unless_handled-Keeps (done (true, to)) f k st keep h = h
  unless_handled-Keeps (done (false, to)) f k st keep h = keep to h
  unless_handled-Keeps stuck f k st keep h = h
  unless_handled-Keeps (escaped e) f k st keep h = h
  unless_handled-Keeps (crash x) f k st keep h = h

  -- The nodes activated since the counters stood at `v` visits and a trail of `l` nodes are no
  -- more than the visits made since, nor than the budget `b` leaves.
  pub record IsCharged (b v l : ℕ) (st : RunState C) : Type 0 where
    pub budget_is : st.budget ≡ b
    pub trail_counted : length st.visited + v ≤ l + st.visits
    pub trail_bounded : length st.visited + v ≤ l + b

  abbrev pub Charges : ℕ → ℕ → ℕ → Step (RunState C) → Type 0
  Charges b v l (done st) = IsCharged b v l st
  Charges b v l stuck = ⊥
  Charges b v l _ = Unit

  Same-IsCharged :
      (b v l k : ℕ) (from to : RunState C)
      → Same k from to
      → IsCharged b v l from
      → IsCharged b v l to
  Same-IsCharged b v l k from to same h =
      rw_all b v l from to same.visits_kept same.budget_kept same.visited_kept h
    where
      rw_all :
          (b v l : ℕ) (from to : RunState C)
          → to.visits ≡ from.visits
          → to.budget ≡ from.budget
          → to.visited ≡ from.visited
          → IsCharged b v l from
          → IsCharged b v l to
      rw_all b v l from to x y z h = ground arith

  Keeps-Charges :
      (b v l k : ℕ) (from : RunState C) (r : Step (RunState C))
      → IsCharged b v l from
      → Keeps k from r
      → Charges b v l r
  Keeps-Charges b v l k from (done to) h same = Same-IsCharged b v l k from to same h
  Keeps-Charges b v l k from stuck h same = same
  Keeps-Charges b v l k from (escaped e) h same = same
  Keeps-Charges b v l k from (crash x) h same = same

module _ {C : Type 0} (t : Tasks C) (w : ParsedWorkflow) where
  handled_or-Keeps :
      (e : CapturedError) (f : RunState C → RunState C) (st : RunState C)
      → ((to : RunState C) → Same (weigh st.frames) st to → Same (weigh st.frames) st (f to))
      → Keeps (weigh st.frames) st (handled_or t w e f st)
  unfolding handled_or
  handled_or-Keeps e f st keep =
      unless_handled-Keeps (handle_error t w e st) f (weigh st.frames) st keep
        (handle_error-Keeps t w e st)

  looped_or-Keeps :
      (node : Node) (r : Step (Bool × RunState C)) (st : RunState C)
      → KeepsBoth (weigh st.frames) st r
      → Keeps (weigh st.frames) st (looped_or t w node r)
  unfolding looped_or
  looped_or-Keeps node r st h =
      unless_handled-Keeps r _ (weigh st.frames) st (λ to same. ground (arith, same)) h

  follow-Keeps :
      (s : ControlSignal) (node : Node) (st : RunState C)
      → Keeps (weigh st.frames) st (follow t w s node st)
  unfolding follow
  follow-Keeps continue node st = advance_after_node-Keeps t w st
  follow-Keeps (jump_to target) node st = resolve_jump-Same st target
  follow-Keeps (suspend s) node st = suspend_run-Same s node st
  follow-Keeps (terminate s) node st =
      if_both (Keeps (weigh st.frames) st) (takes_message s.message s.payload) _ _
        (λ _. terminate_run-Same s node st) (λ _. tt)
  follow-Keeps (loop_break name) node st =
      looped_or-Keeps node (finish_loop t w st (next_or_empty name)) st
        (finish_loop-Keeps t w st (next_or_empty name))
  follow-Keeps (loop_continue name) node st =
      looped_or-Keeps node (next_iteration_for t w st (next_or_empty name)) st
        (next_iteration_for-Keeps t w st (next_or_empty name))

  settle-Keeps :
      (node : Node) (st : RunState C) (out : Outcome ControlSignal)
      → Keeps (weigh st.frames) st (settle t w node st out)
  unfolding settle fail_run
  settle-Keeps node st (returned s) =
      if_both (Keeps (weigh st.frames) st) st.finished _ _ (λ _. ground arith)
        (λ _. follow-Keeps s node st)
  settle-Keeps node st (raised e) = handled_or-Keeps e _ st (λ to same. ground (arith, same))
  settle-Keeps node st (crashed x) = tt

  module _ (b v l : ℕ) (room : v ≤ b) where
    run_or_skip-Charges :
        (node : Node) (st : RunState C)
        → node.kind ≢ parallel_kind
        → IsCharged b v l st
        → Charges b v l (run_or_skip t w node st)
    unfolding run_or_skip
    run_or_skip-Charges node st seq h =
        let (ran, out) = run_node t node.kind node st in
        if_both (Charges b v l) node.enabled _ _
          (λ _.
            Keeps-Charges b v l _ ran _
              (Same-IsCharged b v l _ st ran (run_node-Same t node.kind node st seq) h)
              (settle-Keeps node ran out))
          (λ _. Keeps-Charges b v l _ st _ h (advance_after_node-Keeps t w st))

    visited-IsCharged :
        (node : Node) (st : RunState C)
        → IsCharged b v l st
        → ltb st.budget (st.visits + 1) ≡ false
        → IsCharged b v l (record st {
          current_node_id = node.id;
          visits = st.visits + 1;
          visited = st.visited ++ node.id ∷ [];
        })
    visited-IsCharged node st h left = ground (arith, h, length-append st.visited (node.id ∷ []))

    visit-Charges :
        (node : Node) (st : RunState C)
        → node.kind ≢ parallel_kind
        → IsCharged b v l st
        → Charges b v l (visit t w node st)
    unfolding visit
    visit-Charges node st seq h =
        if_both (Charges b v l) (ltb st.budget (st.visits + 1)) _ _
          (λ spent. ground (arith, h, spent))
          (λ left. run_or_skip-Charges node _ seq (visited-IsCharged node st h left))

    handled_or-Charges :
        (e : CapturedError) (f : RunState C → RunState C) (st : RunState C)
        → ((to : RunState C) → Same (weigh st.frames) st to → Same (weigh st.frames) st (f to))
        → IsCharged b v l st
        → Charges b v l (handled_or t w e f st)
    handled_or-Charges e f st keep h =
        Keeps-Charges b v l (weigh st.frames) st (handled_or t w e f st) h
          (handled_or-Keeps e f st keep)

    visit_or_route-Charges :
        (st : RunState C) (o : Option Node)
        → IsSequential w
        → find w st.cursor ≡ o
        → IsCharged b v l st
        → Charges b v l (visit_or_route t w o st)
    unfolding visit_or_route
    visit_or_route-Charges st none seq e h =
        handled_or-Charges _ _ (record st { cursor = "" }) (λ to same. ground (arith, same))
          (ground (arith, h))
    visit_or_route-Charges st (some node) seq e h = visit-Charges node st (seq st.cursor node e) h

    at_cursor-Charges :
        (st : RunState C) → IsSequential w → IsCharged b v l st → Charges b v l (at_cursor t w st)
    unfolding at_cursor
    at_cursor-Charges st seq h =
        if_both (Charges b v l) (str_eq st.cursor "") _ _ (λ _. ground (arith, h))
          (λ _. visit_or_route-Charges st (find w st.cursor) seq refl h)

    raise_pending-Charges :
        (st : RunState C) (o : Option CapturedError)
        → IsSequential w
        → IsCharged b v l st
        → Charges b v l (raise_pending t w o st)
    unfolding raise_pending fail_run
    raise_pending-Charges st none seq h = at_cursor-Charges st seq h
    raise_pending-Charges st (some e) seq h =
        handled_or-Charges e _ (record st { pending_error = none })
          (λ to same. ground (arith, same)) (ground (arith, h))

    -- One turn ends, in a state that is still within the budget or by an exception.
    pub round-Charges :
        (st : RunState C) → IsSequential w → IsCharged b v l st → Charges b v l (round t w st)
    unfolding round
    round-Charges st seq h = raise_pending-Charges st st.pending_error seq h

  -- The state after a number of turns of the loop, or at its end.
  unfoldable pub after_turns : ℕ → RunState C → Step (RunState C)
  after_turns zero st = done st
  after_turns (suc n) st = elim st.finished [
    | true ↦ done st
    | false ↦ round t w st >>= after_turns n
  ]

  module _ (b v l : ℕ) (room : v ≤ b) (seq : IsSequential w) where
    Charges-bind :
        (r : Step (RunState C)) (g : RunState C → Step (RunState C))
        → Charges b v l r
        → ((st : RunState C) → IsCharged b v l st → Charges b v l (g st))
        → Charges b v l (r >>= g)
    Charges-bind (done st) g h k = k st h
    Charges-bind stuck g h k = h
    Charges-bind (escaped e) g h k = h
    Charges-bind (crash x) g h k = h

    after_turns-IsCharged :
        (n : ℕ) (st : RunState C) → IsCharged b v l st → Charges b v l (after_turns n st)
    unfolding after_turns
    after_turns-IsCharged zero st h = h
    after_turns-IsCharged (suc n) st h =
        elim st.finished
          as (λ x.
            Charges b v l (elim x [ true ↦ done st | false ↦ round t w st >>= after_turns n ])) [
              | true ↦ h
              | false ↦
                  Charges-bind (round t w st) (after_turns n) (round-Charges b v l room st seq h)
                    (after_turns-IsCharged n)
            ]

  -- However many turns a run of a workflow without parallel sections has made, from a state within
  -- its budget and whatever its tasks answer, the nodes activated are at most those that the budget
  -- left at the start, and at most the visits counted. No turn fails to end for want of fuel.
  pub after_turns-Charges :
      (n : ℕ) (st : RunState C)
      → IsSequential w
      → st.visits ≤ st.budget
      → Charges st.budget st.visits (length st.visited) (after_turns n st)
  after_turns-Charges n st seq room =
      after_turns-IsCharged st.budget st.visits (length st.visited) room seq n st (ground arith)
