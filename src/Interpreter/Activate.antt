-- ===== src/Interpreter/Activate.antt =====
-- One activation of a node, src/runtime/Interpreter.cpp: `activateNode` with its retries, and the
-- nodes that open a frame (`stepLoop`, `stepTry`, `stepCondition`). The waits between attempts,
-- traces, metrics and log lines are not modelled.
use sapo_engine.Prelude.{
  ℕ, zero, suc, String, Bool, true, false, not, ◌&&◌, ◌||◌, Option, none, some, List, [], ◌∷◌,
  if◌then◌else◌, str_eq, leb, ◌==◌, length, max, ◌-◌,
}
use sapo_engine.Prelude.Map.{erase}
use sapo_engine.Json.{Json, object, end}
use sapo_engine.Workflow.{
  TaskType, LoopNode, TryNode, ConditionNode, NodeKind, loop_kind, try_kind, condition_kind,
  parallel_kind, task_kind, RetryPolicy, Node,
}
use sapo_engine.Interpreter.State.{
  Message, no_task, failed_unexpectedly, CapturedError, ControlSignal, continue, jump_to, loop, try,
  body, collection, while, LoopState, in_body, RunState, Outcome, returned, raised, crashed, Tasks,
}
use sapo_engine.Interpreter.Frames.{push_frame, bind_iteration, no_loop, no_try}
use sapo_engine.Interpreter.Advance.{front}
use sapo_engine.Interpreter.Errors.{is_empty}

abbrev pub Activation : Type 0 → Type 0
Activation C = RunState C × Outcome ControlSignal

abbrev pub internal_error : Message → String → CapturedError
internal_error m id = record { code = "INTERNAL_ERROR"; message = m; node = id; data_ = object end }

unfoldable pub matches_any : List String → String → String → Bool
matches_any [] code status = false
matches_any (n ∷ rest) code status =
    (str_eq n code || (not (str_eq status "") && str_eq n status)) || matches_any rest code status

unfoldable pub retryable_by_default : String → ℕ → Bool
retryable_by_default code status =
    str_eq code "HTTP_ERROR"
    || str_eq code "TIMEOUT"
    || str_eq code "DATA_SOURCE_ERROR"
    || (str_eq code "HTTP_STATUS_ERROR" && (leb 500 status || status == 429))

abbrev pub default_policy : RetryPolicy
default_policy = record { max_attempts = 1; retry_on = [] }

abbrev pub policy_of : Option RetryPolicy → RetryPolicy
policy_of none = default_policy
policy_of (some p) = p

abbrev pub next_or_empty : Option String → String
next_or_empty none = ""
next_or_empty (some id) = id

module _ {C : Type 0} (t : Tasks C) where
  unfoldable pub retryable : RetryPolicy → CapturedError → Bool
  unfolding matches_any retryable_by_default
  retryable p e =
      if is_empty p.retry_on
      then retryable_by_default e.code (t.status_number e.data_)
      else matches_any p.retry_on e.code (t.status_text e.data_)

  -- The reply of a suspended node is forgotten once the node has run.
  unfoldable pub consume_reply : Node → RunState C → RunState C
  consume_reply node st =
      if not (str_eq st.resume_node_id "") && str_eq st.resume_node_id node.id
      then record st { resume_node_id = ""; locals = erase "event" (erase "input" st.locals) }
      else st

  -- What follows a failed attempt: another one, if the policy has it.
  unfoldable pub after_attempt :
      (RunState C → Activation C)
      → Bool
      → RetryPolicy
      → Node
      → RunState C
      → Outcome ControlSignal
      → Activation C
  after_attempt again attempts_left p node st (returned signal) =
      (consume_reply node st, returned signal)
  after_attempt again attempts_left p node st (raised e) =
      if attempts_left && retryable p e then again st else (st, raised e)
  after_attempt again attempts_left p node st (crashed text) =
      (st, raised (internal_error (failed_unexpectedly node.id text) node.id))

  -- The loop over the attempts, with `left` of them after this one.
  unfoldable pub attempt :
      ℕ → (RunState C → C × Outcome ControlSignal) → RetryPolicy → Node → RunState C → Activation C
  attempt zero run p node st =
      let (c, out) = run st in
      after_attempt (λ st'. (st', out)) false p node (record st { context = c }) out
  attempt (suc left) run p node st =
      let (c, out) = run st in
      after_attempt (attempt left run p node) true p node (record st { context = c }) out

  unfoldable pub activate_node : TaskType → Node → RunState C → Activation C
  activate_node type node st =
      let p = policy_of node.retry in
      if t.registered type
      then attempt (max 1 p.max_attempts - 1) (t.execute node) p node st
      else (st, raised (internal_error (no_task type) node.id))

  unfoldable pub open_loop : LoopNode → Node → LoopState → RunState C → Activation C
  open_loop l node ls st = (
    bind_iteration (push_frame st loop node.id l.body (next_or_empty node.next) ls no_try) ls,
    returned (jump_to (front l.body)),
  )

  unfoldable pub start_loop : LoopNode → Node → RunState C → Option (List Json) → Activation C
  start_loop l node st none =
      open_loop l node
        (record {
          mode = while;
          items = [];
          index = 0;
          total = l.max_iterations;
          max_iterations = l.max_iterations;
          iterator = l.iterator;
          index_variable = l.index;
          on_item_error = l.on_item_error;
          loop_id = node.id;
        })
        st
  start_loop l node st (some []) = (st, returned continue)
  start_loop l node st (some (x ∷ xs)) =
      open_loop l node
        (record {
          mode = collection;
          items = x ∷ xs;
          index = 0;
          total = length (x ∷ xs);
          max_iterations = l.max_iterations;
          iterator = l.iterator;
          index_variable = l.index;
          on_item_error = l.on_item_error;
          loop_id = node.id;
        })
        st

  unfoldable pub evaluated :
      {A : Type 0} → RunState C → Outcome A → (A → Activation C) → Activation C
  evaluated st (returned a) k = k a
  evaluated st (raised e) k = (st, raised e)
  evaluated st (crashed text) k = (st, crashed text)

  unfoldable pub step_loop : LoopNode → Node → RunState C → Activation C
  step_loop l node st = evaluated st (t.loop_items node st) (start_loop l node st)

  unfoldable pub step_try : TryNode → Node → RunState C → Activation C
  step_try n node st = (
    push_frame st try node.id n.body (next_or_empty node.next) no_loop (record {
      phase = in_body;
      catch_ids = n.catch_body;
      finally_ids = n.finally_body;
      error_variable = n.error_variable;
      catch_when = n.catch_when;
      propagate = none;
    }),
    returned (jump_to (front n.body)),
  )

  -- A branch with a body runs it in a frame; one without a body may name a target.
  unfoldable pub enter_branch : Node → RunState C → List String → String → Activation C
  enter_branch node st (x ∷ xs) target = (
    push_frame st body node.id (x ∷ xs) (next_or_empty node.next) no_loop no_try,
    returned (jump_to x),
  )
  enter_branch node st [] target =
      (st, returned (if str_eq target "" then continue else jump_to target))

  unfoldable pub step_condition : ConditionNode → Node → RunState C → Activation C
  step_condition n node st = evaluated st (t.take_branch node st) λ taken.
      if taken
      then enter_branch node st n.then_body n.on_true
      else enter_branch node st n.else_body (next_or_empty n.on_false)

  -- The `switch` of `drive`.
  unfoldable pub run_node : NodeKind → Node → RunState C → Activation C
  run_node (loop_kind l) node st = step_loop l node st
  run_node (try_kind n) node st = step_try n node st
  run_node (condition_kind n) node st = step_condition n node st
  run_node parallel_kind node st = t.run_parallel node st
  run_node (task_kind type) node st = activate_node type node st
