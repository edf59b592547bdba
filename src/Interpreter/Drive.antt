-- ===== src/Interpreter/Drive.antt =====
-- The main loop, `drive` of src/runtime/Interpreter.cpp. The loop runs on fuel; `stuck` is only
-- the model's answer when the fuel is used up.
use sapo_engine.Prelude.{
  ℕ, zero, suc, ◌+◌, String, Bool, true, false, not, ◌&&◌, Option, none, some, [], ◌∷◌, ◌++◌,
  if◌then◌else◌, str_eq, ltb,
}
use sapo_engine.Json.{Json, null, string, object, set_member}
use sapo_engine.Workflow.{Node, ParsedWorkflow, find}
use sapo_engine.Interpreter.State.{
  Message, text, unknown_node, budget_exceeded, not_inside_loop, terminated_with, CapturedError,
  SuspendRequest, Terminate, ControlSignal, continue, jump_to, suspend, terminate, loop_break,
  loop_continue, failed, terminated, awaiting_input, suspended, RunState, Outcome, returned, raised,
  crashed, Tasks, Step, done, crash, stuck, ◌>>=◌,
}
use sapo_engine.Interpreter.Frames.{resolve_jump}
use sapo_engine.Interpreter.Advance.{completed_status, advance_after_node}
use sapo_engine.Interpreter.Errors.{next_iteration_for, finish_loop, handle_error}
use sapo_engine.Interpreter.Activate.{next_or_empty, run_node}

unfoldable pub with_message : Option String → Json → Json
with_message none payload = payload
with_message (some m) payload =
    if str_eq m "" then payload else set_member "message" (string m) payload

-- `terminate_payload["message"]` throws on a payload that is neither an object nor null.
unfoldable pub takes_message : Option String → Json → Bool
takes_message none payload = true
takes_message (some m) (object fs) = true
takes_message (some m) null = true
takes_message (some m) payload = str_eq m ""

unfoldable pub text_or : Message → Option String → Message
text_or m none = m
text_or m (some s) = text s

unfoldable pub value_or : String → Option String → String
value_or d none = d
value_or d (some s) = s

-- Where a suspended session goes on.
unfoldable pub resume_cursor_of : SuspendRequest → Node → String
resume_cursor_of s node =
    let by_reason = if str_eq s.reason "input" then node.id else next_or_empty node.next in
    let first = if str_eq s.resume_node "" then by_reason else s.resume_node in
    if str_eq first "" && str_eq s.reason "timer" && not (str_eq s.await_condition "")
    then node.id
    else first

module _ {C : Type 0} where
  -- The end of a run by an error.
  unfoldable pub fail_run : String → Message → String → Json → RunState C → RunState C
  fail_run code message node data_ st = record st {
    status = failed;
    error = message;
    error_code = code;
    error_node = node;
    error_data = data_;
    finished = true;
  }

  unfoldable pub unless_handled : (RunState C → RunState C) → Bool × RunState C → RunState C
  unless_handled f (true, st) = st
  unless_handled f (false, st) = f st

  unfoldable pub suspend_run : SuspendRequest → Node → RunState C → RunState C
  unfolding resume_cursor_of
  suspend_run s node st = record st {
    suspend_request = some s;
    status = if str_eq s.reason "input" then awaiting_input else suspended;
    suspend_cursor = resume_cursor_of s node;
    cursor = resume_cursor_of s node;
    finished = true;
  }

  unfoldable pub terminate_run : Terminate → Node → RunState C → RunState C
  unfolding with_message text_or value_or
  terminate_run s node st =
      let ended = record st {
        terminate_status = s.status;
        terminate_payload = with_message s.message s.payload;
        finished = true;
      } in
      if str_eq s.status "success" then record ended { status = terminated } else record ended {
        status = failed;
        error_code = value_or "WORKFLOW_FAILED" s.error_code;
        error = text_or (terminated_with s.status) s.message;
        error_node = node.id;
      }

module _ {C : Type 0} (t : Tasks C) (w : ParsedWorkflow) where
  unfoldable pub handled_or :
      CapturedError → (RunState C → RunState C) → RunState C → Step (RunState C)
  handled_or e f st = do r ← handle_error t w e st; done (unless_handled f r)

  unfoldable pub looped_or : Node → Step (Bool × RunState C) → Step (RunState C)
  looped_or node m = do
    r ← m
    done (
        unless_handled
          (λ st. record st {
            status = failed;
            error_code = "ROUTING_ERROR";
            error = not_inside_loop node.id;
            error_node = node.id;
            finished = true;
          })
          r)

  -- The control transfer after a node has returned its signal.
  unfoldable pub follow : ControlSignal → Node → RunState C → Step (RunState C)
  follow continue node st = advance_after_node t w st
  follow (jump_to target) node st = done (resolve_jump st target)
  follow (suspend s) node st = done (suspend_run s node st)
  follow (terminate s) node st =
      if takes_message s.message s.payload
      then done (terminate_run s node st)
      else crash "type_error"
  follow (loop_break name) node st = looped_or node (finish_loop t w st (next_or_empty name))
  follow (loop_continue name) node st =
      looped_or node (next_iteration_for t w st (next_or_empty name))

  unfoldable pub settle : Node → RunState C → Outcome ControlSignal → Step (RunState C)
  settle node st (returned signal) = if st.finished then done st else follow signal node st
  settle node st (raised e) =
      handled_or e
        (fail_run e.code e.message (if str_eq e.node "" then node.id else e.node) e.data_) st
  settle node st (crashed what) = crash what

  unfoldable pub run_or_skip : Node → RunState C → Step (RunState C)
  run_or_skip node st =
      if node.enabled
      then (let (st', out) = run_node t node.kind node st in settle node st' out)
      else advance_after_node t w st

  -- The visit of a node that the cursor names.
  unfoldable pub visit : Node → RunState C → Step (RunState C)
  visit node st =
      let st' = record st { current_node_id = node.id; visits = st.visits + 1 } in
      if ltb st.budget (st.visits + 1)
      then done (record st' {
        status = failed;
        error_code = "LIMIT_EXCEEDED";
        error = budget_exceeded st.budget;
        error_node = node.id;
        finished = true;
      })
      else run_or_skip node (record st' { visited = st.visited ++ node.id ∷ [] })

  unfoldable pub visit_or_route : Option Node → RunState C → Step (RunState C)
  visit_or_route (some node) st = visit node st
  visit_or_route none st =
      handled_or
        (record {
          code = "ROUTING_ERROR";
          message = unknown_node st.cursor;
          node = st.current_node_id;
          data_ = null;
        })
        (λ st'. record st' {
          status = failed;
          error = unknown_node st.cursor;
          error_code = "ROUTING_ERROR";
          finished = true;
        })
        (record st { cursor = "" })

  unfoldable pub at_cursor : RunState C → Step (RunState C)
  at_cursor st =
      if str_eq st.cursor ""
      then done (record st { status = completed_status st.status; finished = true })
      else visit_or_route (find w st.cursor) st

  unfoldable pub raise_pending : Option CapturedError → RunState C → Step (RunState C)
  raise_pending none st = at_cursor st
  raise_pending (some e) st =
      handled_or e (fail_run e.code e.message e.node e.data_) (record st { pending_error = none })

  -- The body of the loop.
  unfoldable pub round : RunState C → Step (RunState C)
  round st = raise_pending st.pending_error st

  unfoldable pub drive_on : (RunState C → Step (RunState C)) → Bool → RunState C → Step (RunState C)
  drive_on again true st = done st
  drive_on again false st = round st >>= again

  unfoldable pub drive : ℕ → RunState C → Step (RunState C)
  drive zero st = stuck
  drive (suc n) st = drive_on (drive n) st.finished st
