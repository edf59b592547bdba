-- ===== src/Interpreter/State.antt =====
-- The state of one execution and the signals of its nodes: src/runtime/Interpreter.hpp,
-- src/runtime/ControlFlow.hpp, the frames of src/runtime/Context.hpp, and the task interface of
-- src/tasks/Task.hpp.
use sapo_engine.Prelude.{ℕ, String, Bool, Option, List}
use sapo_engine.Prelude.Map.{Assoc}
use sapo_engine.Prelude.Int.{ℤ}
use sapo_engine.Json.{Json}
use sapo_engine.Workflow.{Node, TaskType}

-- A text that the source puts together from values is kept as those values.
pub data Message : Type 0 where
  text : String → Message
  unknown_node : String → Message
  budget_exceeded : ℕ → Message
  not_inside_loop : String → Message
  no_task : TaskType → Message
  failed_unexpectedly : String → String → Message
  terminated_with : String → Message
  loop_capped : String → ℕ → Message
  iteration_skipped : String → ℕ → String → Message → Message

pub record CapturedError : Type 0 where
  pub code : String
  pub message : Message
  pub node : String
  pub data_ : Json

pub record SuspendRequest : Type 0 where
  pub node_id : String
  pub reason : String
  pub prompt : Json
  pub input_variable : String
  pub resume_at_ms : Option ℤ
  pub timeout_ms : Option ℤ
  pub resume_node : String
  pub event_name : Option String
  -- `data.value("await_condition", "")`
  pub await_condition : String
  pub data_ : Json

pub record Terminate : Type 0 where
  pub status : String
  pub payload : Json
  pub error_code : Option String
  pub message : Option String

pub data ControlSignal : Type 0 where
  continue : ControlSignal
  jump_to : String → ControlSignal
  suspend : SuspendRequest → ControlSignal
  terminate : Terminate → ControlSignal
  loop_break : Option String → ControlSignal
  loop_continue : Option String → ControlSignal

-- The values that the interpreter writes among a node's locals.
pub data Local : Type 0 where
  item : Json → Local
  number : ℕ → Local
  error_object : CapturedError → Local

pub data FrameKind : Type 0 where
  loop try branch body : FrameKind

pub data LoopMode : Type 0 where
  no_mode collection while : LoopMode

pub data Phase : Type 0 where
  in_body in_catch in_finally : Phase

-- The members of `FrameState::state` that a loop frame has; other frames have the defaults that
-- the source reads for absent members.
pub record LoopState : Type 0 where
  pub mode : LoopMode
  pub items : List Json
  pub index : ℕ
  pub total : ℕ
  pub max_iterations : ℕ
  pub iterator : String
  pub index_variable : String
  pub on_item_error : String
  pub loop_id : String

-- Those of a try frame.
pub record TryState : Type 0 where
  pub phase : Phase
  pub catch_ids : List String
  pub finally_ids : List String
  pub error_variable : String
  pub catch_when : Assoc String
  pub propagate : Option CapturedError

pub record Frame : Type 0 where
  pub kind : FrameKind
  pub node_id : String
  pub position : ℕ
  pub resume_target : String
  pub ids : List String
  pub loop_state : LoopState
  pub try_state : TryState

pub data RunStatus : Type 0 where
  running completed failed terminated awaiting_input suspended : RunStatus

-- The frame stack has its innermost frame, `frames.back()`, at the head. `context` is the content
-- of the runtime context and of all that the tasks reach; `saved_frames` is the copy of the stack
-- that the context keeps. Members that stay as they are during a run are part of the tasks.
pub record RunState (C : Type 0) : Type 0 where
  pub context : C
  pub saved_frames : List Frame
  pub frames : List Frame
  pub cursor : String
  pub current_node_id : String
  pub visits : ℕ
  pub budget : ℕ
  pub visited : List String
  pub warnings : List Message
  pub locals : Assoc Local
  pub status : RunStatus
  pub terminate_status : String
  pub terminate_payload : Json
  pub suspend_request : Option SuspendRequest
  pub suspend_cursor : String
  pub error : Message
  pub error_code : String
  pub error_node : String
  pub error_data : Json
  pub finished : Bool
  pub branch_finished : Bool
  pub pending_error : Option CapturedError
  pub resume_node_id : String

-- What a call of a task gives back: a signal, a `SapoError`, or the text of another exception.
pub data Outcome (A : Type 0) : Type 0 where
  returned : A → Outcome A
  raised : CapturedError → Outcome A
  crashed : String → Outcome A

-- The tasks of a run, as the interpreter calls them: `ITask::execute` of the registered tasks,
-- the evaluations of loop and condition nodes, the parallel section, and the write of a variable
-- to the runtime context. Each may read the whole state.
pub record Tasks (C : Type 0) : Type 0 where
  pub registered : TaskType → Bool
  pub execute : Node → RunState C → C × Outcome ControlSignal
  pub loop_items : Node → RunState C → Outcome (Option (List Json))
  pub loop_guard : Node → RunState C → Outcome Bool
  pub take_branch : Node → RunState C → Outcome Bool
  pub run_parallel : Node → RunState C → RunState C × Outcome ControlSignal
  pub set_variable : String → CapturedError → C → C
  -- `retryable`'s reading of an error's data: the dump of `status`, and its number
  pub status_text : Json → String
  pub status_number : Json → ℕ

-- A step of the interpreter. `escaped` is an exception that leaves `drive`; `stuck` marks a model
-- loop that ran out of fuel.
pub data Step (A : Type 0) : Type 0 where
  done : A → Step A
  escaped : CapturedError → Step A
  crash : String → Step A
  stuck : Step A

infixl 5 ◌>>=◌
abbrev pub ◌>>=◌ : {A B : Type 0} → Step A → (A → Step B) → Step B
done a >>= f = f a
escaped e >>= f = escaped e
crash t >>= f = crash t
stuck >>= f = stuck

-- An evaluation outside of any handler: an exception travels on.
abbrev pub unguarded : {A : Type 0} → Outcome A → Step A
unguarded (returned a) = done a
unguarded (raised e) = escaped e
unguarded (crashed t) = crash t

-- The step ends in a state with a property.
abbrev pub Returns : {A : Type 0} → (A → Type 0) → Step A → Type 0
Returns P (done a) = P a
Returns P _ = ⊥
