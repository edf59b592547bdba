-- ===== src/Interpreter/Budget.antt =====
-- The execution budget of src/runtime/Interpreter.cpp: what running one node adds to the
-- counters.
use sapo_engine.Prelude.{
  ℕ, zero, suc, ◌+◌, ◌-◌, String, ◌≡◌, ◌≢◌, refl, Bool, true, false, Option, none, some, List, [],
  ◌∷◌, arith, Bool-cases, if_both, inl, inr, max,
}
use sapo_engine.Json.{Json}
use sapo_engine.Workflow.{
  ParsedWorkflow, Node, NodeKind, loop_kind, try_kind, condition_kind, parallel_kind, task_kind,
  TaskType, LoopNode, find, RetryPolicy,
}
use sapo_engine.Interpreter.State.{
  ControlSignal, LoopState, RunState, Outcome, returned, raised, crashed, Tasks,
}
use sapo_engine.Interpreter.Frames.{push_frame, bind_iteration}
use sapo_engine.Interpreter.Advance.{weigh}
use sapo_engine.Interpreter.Activate.{
  Activation, consume_reply, after_attempt, attempt, activate_node, policy_of, next_or_empty,
  open_loop, start_loop, evaluated, step_loop, step_try, enter_branch, step_condition, run_node,
}
use sapo_engine.Interpreter.Same.{Same}

-- No node of the workflow is a parallel section.
abbrev pub IsSequential : ParsedWorkflow → Type 0
IsSequential w = (id : String) (node : Node) → find w id ≡ some node → node.kind ≢ parallel_kind

module _ {C : Type 0} (t : Tasks C) where
  consume_reply-Same :
      (node : Node) (st : RunState C) → Same (weigh st.frames) st (consume_reply t node st)
  unfolding consume_reply
  consume_reply-Same node st = ground arith

  after_attempt-Same :
      (again : RunState C → Activation C) (left : Bool) (p : RetryPolicy) (node : Node)
      (st : RunState C) (out : Outcome ControlSignal)
      → Same (weigh st.frames) st (again st).0
      → Same (weigh st.frames) st (after_attempt t again left p node st out).0
  unfolding after_attempt
  after_attempt-Same again left p node st (returned s) same = consume_reply-Same node st
  after_attempt-Same again left p node st (raised e) same = ground (arith, same)
  after_attempt-Same again left p node st (crashed x) same = ground (arith, same)

  attempt-Same :
      (left : ℕ) (run : RunState C → C × Outcome ControlSignal) (p : RetryPolicy) (node : Node)
      (st : RunState C)
      → Same (weigh st.frames) st (attempt t left run p node st).0
  unfolding attempt
  attempt-Same zero run p node st = ground (
    arith,
    after_attempt-Same (λ st'. (st', (run st).1)) false p node (record st { context = (run st).0 })
        (run st).1 (ground arith),
  )
  attempt-Same (suc left) run p node st = ground (
    arith,
    after_attempt-Same (attempt t left run p node) true p node (record st { context = (run st).0 })
        (run st).1 (attempt-Same left run p node (record st { context = (run st).0 })),
  )

  activate_node-Same :
      (type : TaskType) (node : Node) (st : RunState C)
      → Same (weigh st.frames) st (activate_node t type node st).0
  unfolding activate_node
  activate_node-Same type node st = elim (Bool-cases (t.registered type)) [
    | inl known ↦ rw known (
        attempt-Same (max 1 (policy_of node.retry).max_attempts - 1) (t.execute node)
          (policy_of node.retry) node st)
    | inr unknown ↦ rw unknown (ground arith)
  ]

  -- A node that opens a frame opens one.
  open_loop-Same :
      (l : LoopNode) (node : Node) (ls : LoopState) (st : RunState C)
      → Same (2 + weigh st.frames) st (open_loop t l node ls st).0
  unfolding open_loop push_frame bind_iteration
  open_loop-Same l node ls st = ground arith

  start_loop-Same :
      (l : LoopNode) (node : Node) (st : RunState C) (o : Option (List Json))
      → Same (2 + weigh st.frames) st (start_loop t l node st o).0
  unfolding start_loop
  start_loop-Same l node st none = open_loop-Same l node _ st
  start_loop-Same l node st (some []) = ground arith
  start_loop-Same l node st (some (x ∷ xs)) = open_loop-Same l node _ st

  evaluated-Same :
      {A : Type 0} (st : RunState C) (out : Outcome A) (k : A → Activation C)
      → ((a : A) → Same (2 + weigh st.frames) st (k a).0)
      → Same (2 + weigh st.frames) st (evaluated t st out k).0
  unfolding evaluated
  evaluated-Same st (returned a) k h = h a
  evaluated-Same st (raised e) k h = ground arith
  evaluated-Same st (crashed x) k h = ground arith

  enter_branch-Same :
      (node : Node) (st : RunState C) (ids : List String) (target : String)
      → Same (2 + weigh st.frames) st (enter_branch t node st ids target).0
  unfolding enter_branch push_frame
  enter_branch-Same node st [] target = ground arith
  enter_branch-Same node st (x ∷ xs) target = ground arith

  -- The counters of a run before and after a node has run, and the one frame that it may open.
  pub run_node-Same :
      (kind : NodeKind) (node : Node) (st : RunState C)
      → kind ≢ parallel_kind
      → Same (2 + weigh st.frames) st (run_node t kind node st).0
  unfolding run_node step_loop step_try step_condition push_frame
  run_node-Same (loop_kind l) node st h =
      evaluated-Same st (t.loop_items node st) (start_loop t l node st) (start_loop-Same l node st)
  run_node-Same (try_kind n) node st h = ground arith
  run_node-Same (condition_kind n) node st h = evaluated-Same st (t.take_branch node st) _ λ taken.
      if_both (λ (a : Activation C). Same (2 + weigh st.frames) st a.0) taken _ _
        (λ _. enter_branch-Same node st n.then_body n.on_true)
        (λ _. enter_branch-Same node st n.else_body (next_or_empty n.on_false))
  run_node-Same parallel_kind node st h = absurd (h refl)
  run_node-Same (task_kind type) node st h = ground (arith, activate_node-Same type node st)
