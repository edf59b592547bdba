-- ===== src/BlueprintValidator.antt =====
-- The edges of a blueprint and the walk over them, outgoingTargets and reachableFrom of
-- src/parser/BlueprintValidator.cpp. A node has the fields that name other nodes. The stack's top is
-- the head of the list, and `order` is also the set of the ids visited. The walk recurses on fuel,
-- the entry and one unit for each edge of the workflow's nodes.
use sapo_engine.Prelude.{
  ℕ, zero, suc, ◌+◌, String, Bool, true, false, ◌||◌, Option, none, some, List, [], ◌∷◌, ◌++◌,
  if◌then◌else◌, length, str_eq,
}
use sapo_engine.Prelude.Map.{Assoc, lookup}
pub mod Walk
pub mod Reach

-- The classes of nodes that name others besides `next` and `on_error`.
pub data NodeClass : Type 0 where
  -- on_true, on_false, then_body, else_body
  condition : String → Option String → List String → List String → NodeClass
  -- cases, default_target
  choice : Assoc String → Option String → NodeClass
  loop : List String → NodeClass
  -- body, catch_body, finally_body, catch_when
  try : List String → List String → List String → Assoc String → NodeClass
  -- the node_ids of the branches
  parallel : List (List String) → NodeClass
  schedule : String → NodeClass
  -- the task_id of the next_tasks, the handler of on_event
  action : List String → Option String → NodeClass
  other : NodeClass

pub record AstNode : Type 0 where
  pub next : Option String
  pub on_error : Option String
  pub class_of : NodeClass

unfoldable pub push : String → List String
push value = if str_eq value "" then [] else value ∷ []

unfoldable pub push_optional : Option String → List String
push_optional none = []
push_optional (some value) = push value

unfoldable pub push_all : List String → List String
push_all [] = []
push_all (value ∷ values) = push value ++ push_all values

unfoldable pub push_values : Assoc String → List String
push_values [] = []
push_values ((key, target) ∷ rest) = push target ++ push_values rest

unfoldable pub push_branches : List (List String) → List String
push_branches [] = []
push_branches (branch ∷ branches) = push_all branch ++ push_branches branches

unfoldable pub class_targets : NodeClass → List String
class_targets (condition on_true on_false then_body else_body) =
    push on_true ++ push_optional on_false ++ push_all then_body ++ push_all else_body
class_targets (choice cases default_target) = push_values cases ++ push_optional default_target
class_targets (loop body) = push_all body
class_targets (try body catch_body finally_body catch_when) =
    push_all body ++ push_all catch_body ++ push_all finally_body ++ push_values catch_when
class_targets (parallel branches) = push_branches branches
class_targets (schedule body) = push body
class_targets (action next_tasks handler) = push_all next_tasks ++ push_optional handler
class_targets other = []

unfoldable pub outgoing_targets : AstNode → List String
outgoing_targets node =
    class_targets node.class_of ++ push_optional node.next ++ push_optional node.on_error

-- `push_back` of each of them.
abbrev pub push_back_all : List String → List String → List String
push_back_all [] stack = stack
push_back_all (t ∷ ts) stack = push_back_all ts (t ∷ stack)

abbrev pub member : String → List String → Bool
member id [] = false
member id (x ∷ xs) = str_eq x id || member id xs

-- The node at an id that the walk has to visit.
unfoldable pub unvisited : Assoc AstNode → String → List String → Option AstNode
unvisited index id order = if str_eq id "" || member id order then none else lookup id index

unfoldable pub walk : Assoc AstNode → ℕ → List String → List String → Option (List String)
walk index fuel [] order = some order
walk index zero (id ∷ stack) order = none
walk index (suc fuel) (id ∷ stack) order = elim (unvisited index id order) [
  | none ↦ walk index fuel stack order
  | some node ↦ walk index fuel (push_back_all (outgoing_targets node) stack) (order ++ (id ∷ []))
]

abbrev pub edges : Assoc AstNode → ℕ
edges [] = 0
edges ((id, node) ∷ rest) = length (outgoing_targets node) + edges rest

unfoldable pub reachable_from : Assoc AstNode → String → Option (List String)
reachable_from index entry_id = walk index (suc (edges index)) (entry_id ∷ []) []
