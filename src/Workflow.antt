-- ===== src/Workflow.antt =====
-- The parsed workflow, src/parser/AstNodes.hpp: the fields of a node by which the interpreter
-- routes control, and the index of a workflow. A node's expressions and payloads are read by its
-- task alone, and stand behind the task interface of `Interpreter.State`.
use sapo_engine.Prelude.{ℕ, String, Bool, Option, List}
use sapo_engine.Prelude.Map.{Assoc, lookup}

pub data TaskType : Type 0 where
  noop transform query command event loop loop_control choice condition wait schedule : TaskType
  subflow script parallel terminate action try : TaskType

pub record RetryPolicy : Type 0 where
  pub max_attempts : ℕ
  pub retry_on : List String

pub record LoopNode : Type 0 where
  pub iterator : String
  pub index : String
  pub body : List String
  pub max_iterations : ℕ
  pub on_item_error : String

pub record TryNode : Type 0 where
  pub body : List String
  pub catch_body : List String
  pub finally_body : List String
  pub error_variable : String
  pub catch_when : Assoc String

pub record ConditionNode : Type 0 where
  pub on_true : String
  pub on_false : Option String
  pub then_body : List String
  pub else_body : List String

-- A node by its class: the four that the interpreter runs itself, and those that a task runs.
pub data NodeKind : Type 0 where
  loop_kind : LoopNode → NodeKind
  try_kind : TryNode → NodeKind
  condition_kind : ConditionNode → NodeKind
  parallel_kind : NodeKind
  task_kind : TaskType → NodeKind

pub record Node : Type 0 where
  pub id : String
  pub next : Option String
  pub on_error : Option String
  pub retry : Option RetryPolicy
  pub enabled : Bool
  pub kind : NodeKind

pub record ParsedWorkflow : Type 0 where
  pub entry_id : String
  pub index : Assoc Node

unfoldable pub find : ParsedWorkflow → String → Option Node
find w node_id = lookup node_id w.index
