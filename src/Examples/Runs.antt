-- ===== src/Examples/Runs.antt =====
-- Runs of small workflows on the interpreter of src/runtime/Interpreter.cpp. The context counts
-- the tasks that have run; a task named "boom" raises an error.
use sapo_engine.Prelude.{
  ℕ, suc, String, ◌≡◌, refl, Bool, true, false, Option, none, some, [], ◌∷◌, if◌then◌else◌, str_eq,
  eq_iff, arith, leb, ◌&&◌, Bool-cases, inl, inr,
}
use sapo_engine.Prelude.Map.{Assoc, lookup}
use sapo_engine.Json.{null, object, end}
use sapo_engine.Workflow.{
  Node, NodeKind, ParsedWorkflow, try_kind, task_kind, parallel_kind, noop, find,
}
use sapo_engine.Interpreter.State.{
  RunState, Tasks, Frame, CapturedError, returned, raised, continue, text, try, running, completed,
  Returns, ◌>>=◌,
}
use sapo_engine.Interpreter.Frames.{no_loop, no_try, resolve_jump, index_of_id}
use sapo_engine.Interpreter.Advance.{weigh, advance_after_node, next_of}
use sapo_engine.Interpreter.Jump.{Lands, resolve_jump-Lands}
use sapo_engine.Interpreter.Errors.{handle_error}
use sapo_engine.Interpreter.Drive.{follow, drive}
use sapo_engine.Interpreter.Same.{Keeps}
use sapo_engine.Interpreter.Unwinding.{advance_after_node-Keeps}
use sapo_engine.Interpreter.Recovery.{KeepsBoth, handle_error-Keeps}
use sapo_engine.Interpreter.Budget.{IsSequential}
use sapo_engine.Interpreter.Turns.{Charges, after_turns, after_turns-Charges}
use sapo_engine.Interpreter.LostErrors.{cleaning_up, finally_loses_error}

abbrev boom_error : CapturedError
boom_error = record {
  code = "CAPABILITY_ERROR";
  message = text "kaboom";
  node = "boom";
  data_ = null;
}

abbrev tasks : Tasks ℕ
tasks = record {
  registered = λ _. true;
  execute = λ node st.
      (suc st.context, if str_eq node.id "boom" then raised boom_error else returned continue);
  loop_items = λ _ _. returned none;
  loop_guard = λ _ st. returned (leb st.context 5);
  take_branch = λ _ _. returned true;
  run_parallel = λ _ st. (st, returned continue);
  set_variable = λ _ _ c. c;
  status_text = λ _. "";
  status_number = λ _. 0;
}

abbrev plain_node : String → Option String → Node
plain_node id next = record {
  id = id;
  next = next;
  on_error = none;
  retry = none;
  enabled = true;
  kind = task_kind noop;
}

abbrev try_node : Node
try_node = record (plain_node "block" none) {
  kind = try_kind (record {
    body = "boom" ∷ [];
    catch_body = [];
    finally_body = "cleanup" ∷ [];
    error_variable = "error";
    catch_when = [];
  });
}

-- A try block with cleanup and no handler, at the end of its workflow.
abbrev cleanup_only : ParsedWorkflow
cleanup_only = record {
  entry_id = "block";
  index =
      ("block", try_node)
      ∷ ("boom", plain_node "boom" none)
      ∷ ("cleanup", plain_node "cleanup" none)
      ∷ [];
}

abbrev start : ℕ → String → RunState ℕ
start budget cursor = record {
  context = 0;
  saved_frames = [];
  frames = [];
  cursor = cursor;
  current_node_id = "";
  visits = 0;
  budget = budget;
  visited = [];
  warnings = [];
  locals = [];
  status = running;
  terminate_status = "success";
  terminate_payload = object end;
  suspend_request = none;
  suspend_cursor = "";
  error = text "";
  error_code = "";
  error_node = "";
  error_data = null;
  finished = false;
  branch_finished = false;
  pending_error = none;
  resume_node_id = "";
}

is_step : NodeKind → Bool
is_step parallel_kind = false
is_step _ = true

every_step : Assoc Node → Bool
every_step [] = true
every_step ((_, node) ∷ m) = is_step node.kind && every_step m

lookup-every_step :
    (id : String) (node : Node) (m : Assoc Node)
    → every_step m ≡ true
    → lookup id m ≡ some node
    → is_step node.kind ≡ true
unfolding every_step lookup
lookup-every_step id node [] all e = ground arith
lookup-every_step id node ((key, n) ∷ m) all e = elim (Bool-cases (str_eq key id)) [
  | inl same ↦ ground (arith, same)
  | inr other ↦ lookup-every_step id node m (ground arith) (ground (arith, other))
]

every_step-IsSequential : (w : ParsedWorkflow) → every_step w.index ≡ true → IsSequential w
unfolding find is_step
every_step-IsSequential w all id node e p =
    ground (arith, lookup-every_step id node w.index all e, p)

cleanup_only-IsSequential : IsSequential cleanup_only
unfolding every_step is_step
cleanup_only-IsSequential = every_step-IsSequential cleanup_only refl

after_turns-Charges_example : Charges 10 0 0 (after_turns tasks cleanup_only 6 (start 10 "block"))
after_turns-Charges_example =
    after_turns-Charges tasks cleanup_only 6 (start 10 "block") cleanup_only-IsSequential
      (omega arith)

abbrev cleanup_frame : Frame
cleanup_frame = record {
  kind = try;
  node_id = "block";
  position = 0;
  resume_target = "";
  ids = "cleanup" ∷ [];
  loop_state = no_loop;
  try_state = no_try;
}

abbrev body_frame : Frame
body_frame = record cleanup_frame { ids = "boom" ∷ "after" ∷ [] }

abbrev at_boom : RunState ℕ
at_boom = record (start 10 "boom") {
  frames = body_frame ∷ cleanup_frame ∷ [];
  current_node_id = "boom";
}

abbrev at_cleanup : RunState ℕ
at_cleanup = record (start 10 "cleanup") { current_node_id = "cleanup" }

advance_after_node-Keeps_example :
    Keeps (weigh at_boom.frames) at_boom (advance_after_node tasks cleanup_only at_boom)
advance_after_node-Keeps_example = advance_after_node-Keeps tasks cleanup_only at_boom

handle_error-Keeps_example :
    KeepsBoth (weigh at_boom.frames) at_boom (handle_error tasks cleanup_only boom_error at_boom)
handle_error-Keeps_example = handle_error-Keeps tasks cleanup_only boom_error at_boom

resolve_jump-Lands_example :
    (Lands "cleanup" at_boom.frames (resolve_jump at_boom "cleanup").frames)
    × ((resolve_jump at_boom "cleanup").cursor ≡ "cleanup")
resolve_jump-Lands_example =
    resolve_jump-Lands "cleanup" at_boom (λ e. ground (arith, eq_iff "cleanup" ""))

at_end : next_of cleanup_only "cleanup" ≡ none
unfolding find lookup
at_end = refl

after_block : next_of cleanup_only "block" ≡ none
unfolding find lookup
after_block = refl

first_of_cleanup : index_of_id cleanup_frame.ids "cleanup" ≡ some 0
unfolding index_of_id
first_of_cleanup = refl

finally_loses_error_example :
    Returns
      (λ st'.
        (st'.finished ≡ true) × (st'.status ≡ completed) × (st'.pending_error ≡ some boom_error))
      (follow tasks cleanup_only continue (plain_node "cleanup" none) (record at_cleanup {
        frames = cleaning_up tasks cleanup_only cleanup_frame boom_error ∷ [];
        status = running;
      })
        >>= drive tasks cleanup_only 1)
finally_loses_error_example =
    finally_loses_error tasks cleanup_only cleanup_frame boom_error at_cleanup
      (plain_node "cleanup" none) 0 0 first_of_cleanup refl at_end after_block
