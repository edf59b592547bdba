-- ===== src/BlueprintValidator/Reach.antt =====
-- The walk of src/parser/BlueprintValidator.cpp finds the nodes that its entry leads to, and no
-- others.
use sapo_engine.Prelude.{
  ℕ, zero, suc, String, ◌≡◌, ◌↔◌, refl, sym, ap, ◌∙◌, subst, Bool, true, false, ◌||◌, arith, eq_iff,
  Bool-cases, Option-cases, inl, inr, Option, none, some, List, [], ◌∷◌, ◌++◌, str_eq,
}
use sapo_engine.Prelude.Map.{Assoc, lookup}
use sapo_engine.BlueprintValidator.{
  AstNode, outgoing_targets, push_back_all, member, unvisited, walk, edges, reachable_from,
}
use sapo_engine.BlueprintValidator.Walk.{member-snoc, member-push_back_all, unvisited-some}

module _ (index : Assoc AstNode) (entry_id : String) where
  -- A path of edges from the entry, through nodes that have a name and are there.
  pub data Leads : String → Type 0 where
    here : Leads entry_id
    along :
        (x t : String) (node : AstNode)
        → Leads x
        → str_eq x "" ≡ false
        → lookup x index ≡ some node
        → member t (outgoing_targets node) ≡ true
        → Leads t

  -- A node with a name that the entry leads to.
  abbrev pub Reachable : String → Type 0
  Reachable x = Leads x × (str_eq x "" ≡ false) × (node : AstNode) × (lookup x index ≡ some node)

  abbrev is_missing : Option AstNode → Bool
  is_missing (some node) = false
  is_missing none = true

  abbrev targets_at : Option AstNode → List String
  targets_at (some node) = outgoing_targets node
  targets_at none = []

  abbrev ids_or : Option (List String) → List String
  ids_or (some ids) = ids
  ids_or none = []

  -- An id that the walk is done with or has still to look at.
  abbrev is_noted : List String → List String → String → Bool
  is_noted order stack t =
      str_eq t "" || is_missing (lookup t index) || member t order || member t stack

  record Invariant (order stack : List String) : Type 0 where
    closed :
        (x t : String) (node : AstNode)
        → member x order ≡ true
        → lookup x index ≡ some node
        → member t (outgoing_targets node) ≡ true
        → is_noted order stack t ≡ true
    entry_noted : is_noted order stack entry_id ≡ true
    order_sound : (x : String) → member x order ≡ true → Reachable x
    stack_sound : (x : String) → member x stack ≡ true → Leads x

  skip_noted :
      (order stack : List String) (id t : String)
      → unvisited index id order ≡ none
      → is_noted order (id ∷ stack) t ≡ true
      → is_noted order stack t ≡ true
  unfolding unvisited
  skip_noted order stack id t skipped h = elim (Bool-cases (str_eq id t)) [
    | inl same ↦
        let e : id ≡ t = (eq_iff id t).0 same in
        subst (λ t. is_noted order stack t ≡ true) e (ground (arith, skipped))
    | inr other ↦ ground (arith, h, other)
  ]

  visit_noted :
      (order stack ts : List String) (id t : String)
      → is_noted order (id ∷ stack) t ≡ true
      → is_noted (order ++ (id ∷ [])) (push_back_all ts stack) t ≡ true
  visit_noted order stack ts id t h =
      ground (arith, h, member-snoc t id order, member-push_back_all t ts stack)

  -- The targets of the node just visited are on the stack.
  visit_targets :
      (order stack : List String) (id t : String) (node node' : AstNode)
      → lookup id index ≡ some node
      → lookup id index ≡ some node'
      → member t (outgoing_targets node') ≡ true
      → is_noted (order ++ (id ∷ [])) (push_back_all (outgoing_targets node) stack) t ≡ true
  visit_targets order stack id t node node' found found' h =
      let same : some node' ≡ some node = sym found' ∙ found in
      let pushed : targets_at (some node) ≡ targets_at (some node') = ap targets_at (sym same) in
      let there : member t (outgoing_targets node) ≡ true = ap (member t) pushed ∙ h in
      ground (arith, there, member-push_back_all t (outgoing_targets node) stack)

  skip_Invariant :
      (order stack : List String) (id : String)
      → unvisited index id order ≡ none
      → Invariant order (id ∷ stack)
      → Invariant order stack
  skip_Invariant order stack id skipped i = record {
    closed = λ x t node inside found edge.
        skip_noted order stack id t skipped (i.closed x t node inside found edge);
    entry_noted = skip_noted order stack id entry_id skipped i.entry_noted;
    order_sound = i.order_sound;
    stack_sound = λ x inside. i.stack_sound x (ground (arith, inside));
  }

  visit_Invariant :
      (order stack : List String) (id : String) (node : AstNode)
      → unvisited index id order ≡ some node
      → Invariant order (id ∷ stack)
      → Invariant (order ++ (id ∷ [])) (push_back_all (outgoing_targets node) stack)
  visit_Invariant order stack id node found i =
      let (named, new, there) = unvisited-some index id order node found in
      let leads : Leads id = i.stack_sound id (ground (arith, (eq_iff id id).1 refl)) in
      record {
        closed = λ x t node' inside found' edge. elim (Bool-cases (member x order)) [
          | inl before ↦
              visit_noted order stack (outgoing_targets node) id t
                (i.closed x t node' before found' edge)
          | inr now ↦
              let same : id ≡ x =
                (eq_iff id x).0 (ground (arith, inside, now, member-snoc x id order)) in
              visit_targets order stack id t node node' there
                (ap (λ x. lookup x index) same ∙ found') edge
        ];
        entry_noted = visit_noted order stack (outgoing_targets node) id entry_id i.entry_noted;
        order_sound = λ x inside. elim (Bool-cases (member x order)) [
          | inl before ↦ i.order_sound x before
          | inr now ↦
              let same : id ≡ x =
                (eq_iff id x).0 (ground (arith, inside, now, member-snoc x id order)) in
              subst Reachable same (leads, named, node, there)
        ];
        stack_sound = λ x inside. elim (Bool-cases (member x (outgoing_targets node))) [
          | inl edge ↦ along id x node leads named there edge
          | inr other ↦
              i.stack_sound x (
                ground (arith, inside, other, member-push_back_all x (outgoing_targets node) stack))
        ];
      }

  walk-Invariant :
      (fuel : ℕ) (stack order ids : List String)
      → Invariant order stack
      → walk index fuel stack order ≡ some ids
      → Invariant ids []
  unfolding walk
  walk-Invariant fuel [] order ids i ends = subst (λ o. Invariant (ids_or o) []) ends i
  walk-Invariant zero (id ∷ stack) order ids i ends = absurd (cc ends)
  walk-Invariant (suc fuel) (id ∷ stack) order ids i ends =
      elim (Option-cases (unvisited index id order)) [
        | inl skipped ↦
            let next : walk index (suc fuel) (id ∷ stack) order ≡ walk index fuel stack order =
              rw (skipped, walk) refl in
            walk-Invariant fuel stack order ids (skip_Invariant order stack id skipped i)
              (sym next ∙ ends)
        | inr (node, found) ↦
            let more = push_back_all (outgoing_targets node) stack in
            let next : walk index (suc fuel) (id ∷ stack) order
                ≡ walk index fuel more (order ++ (id ∷ [])) =
              rw (found, walk) refl in
            walk-Invariant fuel more (order ++ (id ∷ [])) ids
              (visit_Invariant order stack id node found i) (sym next ∙ ends)
      ]

  start_Invariant : Invariant [] (entry_id ∷ [])
  start_Invariant = record {
    closed = λ x t node inside found edge. absurd (cc inside);
    entry_noted = ground (arith, (eq_iff entry_id entry_id).1 refl);
    order_sound = λ x inside. absurd (cc inside);
    stack_sound = λ x inside. subst Leads ((eq_iff entry_id x).0 (ground (arith, inside))) here;
  }

  -- With nothing left to look at, all that the entry leads to is noted.
  Leads-noted :
      (ids : List String) → Invariant ids [] → (x : String) → Leads x → is_noted ids [] x ≡ true
  Leads-noted ids i _ here = i.entry_noted
  Leads-noted ids i _ (along x t node leads named found edge) =
      let noted = Leads-noted ids i x leads in
      let inside : member x ids ≡ true = ground (arith, noted, named, found) in
      i.closed x t node inside found edge

-- Where the walk gives a list, an id is in it just where it names a node and the entry leads to it
-- along edges of nodes that have a name and are there.
pub reachable_from_iff :
    (index : Assoc AstNode) (entry_id : String) (ids : List String)
    → reachable_from index entry_id ≡ some ids
    → (x : String) → (member x ids ≡ true) ↔ Reachable index entry_id x
unfolding reachable_from
reachable_from_iff index entry_id ids ends x =
    let i =
      walk-Invariant index entry_id (suc (edges index)) (entry_id ∷ []) [] ids
        (start_Invariant index entry_id) ends in
    (
      λ inside. i.order_sound x inside,
      λ (leads, named, node, found).
          let noted = Leads-noted index entry_id ids i x leads in
          ground (arith, noted, named, found),
    )
