-- ===== src/Examples/Blueprints.antt =====
-- A blueprint of three nodes for src/parser/BlueprintValidator.cpp, of which the entry leads to two.
use sapo_engine.Prelude.{String, ◌≡◌, ◌↔◌, refl, true, none, some, List, [], ◌∷◌}
use sapo_engine.Prelude.Map.{Assoc, lookup}
use sapo_engine.BlueprintValidator.{
  AstNode, condition, other, push, push_optional, push_all, class_targets, outgoing_targets, member,
  unvisited, walk, reachable_from,
}
use sapo_engine.BlueprintValidator.Walk.{reachable_from-Ends}
use sapo_engine.BlueprintValidator.Reach.{Reachable, reachable_from_iff}

abbrev asking : AstNode
asking = record {
  next = none;
  on_error = none;
  class_of = condition "b" (some "missing") [] ("a" ∷ []);
}

abbrev ending : AstNode
ending = record { next = some ""; on_error = none; class_of = other }

abbrev three_nodes : Assoc AstNode
three_nodes = ("a", asking) ∷ ("b", ending) ∷ ("c", ending) ∷ []

three_nodes_walk : reachable_from three_nodes "a" ≡ some ("a" ∷ "b" ∷ [])
unfolding reachable_from walk unvisited outgoing_targets class_targets push push_optional push_all
    lookup
three_nodes_walk = refl

reachable_from-Ends_example : (ids : List String) × (reachable_from three_nodes "a" ≡ some ids)
reachable_from-Ends_example = reachable_from-Ends three_nodes "a"

reachable_from_iff_example : (member "b" ("a" ∷ "b" ∷ []) ≡ true) ↔ Reachable three_nodes "a" "b"
reachable_from_iff_example =
    reachable_from_iff three_nodes "a" ("a" ∷ "b" ∷ []) three_nodes_walk "b"
