-- ===== src/BlueprintValidator/Walk.antt =====
-- The walk of src/parser/BlueprintValidator.cpp ends, and finds the nodes that the entry leads to.
use sapo_engine.Prelude.{
  ℕ, zero, suc, ◌+◌, ◌≤◌, String, ◌≡◌, refl, sym, ap, ◌∙◌, true, false, ◌||◌, arith, eq_iff,
  Bool-cases, Option-cases, inl, inr, Option, none, some, List, [], ◌∷◌, ◌++◌, if◌then◌else◌,
  length, str_eq,
}
use sapo_engine.Prelude.Map.{Assoc, lookup}
use sapo_engine.BlueprintValidator.{
  AstNode, outgoing_targets, push_back_all, member, unvisited, walk, edges, reachable_from,
}

pub member-snoc :
    (x id : String) (xs : List String) → member x (xs ++ (id ∷ [])) ≡ (member x xs || str_eq id x)
member-snoc x id [] = ground arith
member-snoc x id (y ∷ ys) = ground (arith, member-snoc x id ys)

pub member-push_back_all :
    (x : String) (ts stack : List String)
    → member x (push_back_all ts stack) ≡ (member x ts || member x stack)
member-push_back_all x [] stack = refl
member-push_back_all x (t ∷ ts) stack = ground (arith, member-push_back_all x ts (t ∷ stack))

length-push_back_all :
    (ts stack : List String) → length (push_back_all ts stack) ≡ length ts + length stack
length-push_back_all [] stack = omega arith
length-push_back_all (t ∷ ts) stack = omega (arith, length-push_back_all ts (t ∷ stack))

-- The edges of the nodes that are not visited.
abbrev edges_left : Assoc AstNode → List String → ℕ
edges_left [] order = 0
edges_left ((id, node) ∷ rest) order =
    (if member id order then 0 else length (outgoing_targets node)) + edges_left rest order

abbrev edges_at : Option AstNode → ℕ
edges_at (some node) = length (outgoing_targets node)
edges_at none = 0

edges_left-nil : (index : Assoc AstNode) → edges_left index [] ≡ edges index
edges_left-nil [] = refl
edges_left-nil ((id, node) ∷ rest) = omega (arith, edges_left-nil rest)

edges_left-snoc :
    (index : Assoc AstNode) (order : List String) (id : String)
    → edges_left index (order ++ (id ∷ [])) ≤ edges_left index order
edges_left-snoc [] order id = omega arith
edges_left-snoc ((k, node) ∷ rest) order id =
    ground (arith, edges_left-snoc rest order id, member-snoc k id order)

edges_left-visit :
    (index : Assoc AstNode) (order : List String) (id : String) (node : AstNode)
    → lookup id index ≡ some node
    → member id order ≡ false
    → edges_left index (order ++ (id ∷ [])) + length (outgoing_targets node)
      ≤ edges_left index order
unfolding lookup
edges_left-visit [] order id node found new = absurd (cc found)
edges_left-visit ((k, other) ∷ rest) order id node found new = elim (Bool-cases (str_eq k id)) [
  | inl here ↦
      let same : k ≡ id = (eq_iff k id).0 here in
      let unseen : member k order ≡ false = ap (λ x. member x order) same ∙ new in
      let taken : lookup id ((k, other) ∷ rest) ≡ some other = rw here refl in
      let size : edges_at (some other) ≡ edges_at (some node) = ap edges_at (sym taken ∙ found) in
      let seen = member-snoc k id order in
      let fewer = edges_left-snoc rest order id in
      let itself : str_eq id k ≡ true = (eq_iff id k).1 (sym same) in
      ground (arith, unseen, size, seen, fewer, itself)
  | inr later ↦
      let passed : lookup id ((k, other) ∷ rest) ≡ lookup id rest = rw later refl in
      let fewer = edges_left-visit rest order id node (sym passed ∙ found) new in
      ground (arith, fewer, member-snoc k id order)
]

pub unvisited-some :
    (index : Assoc AstNode) (id : String) (order : List String) (node : AstNode)
    → unvisited index id order ≡ some node
    → (str_eq id "" ≡ false) × (member id order ≡ false) × (lookup id index ≡ some node)
unfolding unvisited
unvisited-some index id order node h = ground (arith, h)

walk-Ends :
    (index : Assoc AstNode) (fuel : ℕ) (stack order : List String)
    → length stack + edges_left index order ≤ fuel
    → (ids : List String) × (walk index fuel stack order ≡ some ids)
unfolding walk
walk-Ends index fuel [] order h = (order, refl)
walk-Ends index zero (id ∷ stack) order h = absurd (omega (arith, h))
walk-Ends index (suc fuel) (id ∷ stack) order h = elim (Option-cases (unvisited index id order)) [
  | inl skipped ↦ rw (skipped, walk) (walk-Ends index fuel stack order (omega (arith, h)))
  | inr (node, found) ↦
      let (named, new, here) = unvisited-some index id order node found in
      let fewer = edges_left-visit index order id node here new in
      let size = length-push_back_all (outgoing_targets node) stack in
      rw (found, walk)
        (walk-Ends index fuel (push_back_all (outgoing_targets node) stack) (order ++ (id ∷ []))
          (omega (arith, h, fewer, size)))
]

-- The walk ends on every workflow, from every entry: one unit of fuel for each edge and one for the
-- entry are enough.
pub reachable_from-Ends :
    (index : Assoc AstNode) (entry_id : String)
    → (ids : List String) × (reachable_from index entry_id ≡ some ids)
unfolding reachable_from
reachable_from-Ends index entry_id =
    let all = edges_left-nil index in
    walk-Ends index (suc (edges index)) (entry_id ∷ []) [] (omega (arith, all))
