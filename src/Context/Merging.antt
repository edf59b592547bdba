-- ===== src/Context/Merging.antt =====
-- The merge of a branch's variables, `mergeFrom` of src/runtime/Context.hpp.
use sapo_engine.Prelude.{
  String, ◌≡◌, refl, ◌∙◌, ap, Bool, false, not, ◌&&◌, ◌||◌, Option, none, some, List, [], ◌∷◌,
  if◌then◌else◌, str_eq, eq_iff, arith, Bool-cases, if_both, inl, inr, subst,
}
use sapo_engine.Prelude.Map.{Assoc, lookup, insert, lookup-insert}
use sapo_engine.Context.{
  Context, MergePolicy, skips, is_considered, is_member, differs, merge_all, merge_from, snapshot,
}

module _ {V : Type 0} (same : V → V → Bool) (keys : List String) (policy : MergePolicy) where
  -- No key of a dictionary comes twice.
  abbrev pub IsMap : Assoc V → Type 0
  IsMap [] = Unit
  IsMap ((k, v) ∷ rest) = (lookup k rest ≡ none) × IsMap rest

  -- What a key has after the merge, from what the other side and this side have for it.
  abbrev pub merged_value : String → Option V → Option V → Option V
  merged_value k none own = own
  merged_value k (some v) own =
      if is_considered keys k && not (differs same own v && skips policy) then some v else own

  abbrev pub is_conflict : String → Option V → Option V → Bool
  is_conflict k none own = false
  is_conflict k (some v) own = is_considered keys k && differs same own v

  -- This side after one key of the other.
  abbrev merged_key : String → V → Assoc V → Assoc V
  merged_key j v own =
      if not (is_considered keys j)
        || ((is_considered keys j && differs same (lookup j own) v) && skips policy)
      then own
      else insert j v own

  key-merged :
      (j : String) (v : V) (own : Assoc V)
      → lookup j (merged_key j v own) ≡ merged_value j (some v) (lookup j own)
  key-merged j v own = ground (arith, lookup-insert j j v own, eq_iff j j)

  other-merged :
      (j k : String) (v : V) (own : Assoc V)
      → str_eq j k ≡ false
      → lookup k (merged_key j v own) ≡ lookup k own
  other-merged j k v own e =
      if_both (λ m. lookup k m ≡ lookup k own) _ own (insert j v own) (λ h. refl)
        (λ h. rw (lookup-insert j k v own, e) refl)

  merge_all-value :
      (other own : Assoc V) (k : String)
      → IsMap other
      → lookup k (merge_all same keys policy other own).0
        ≡ merged_value k (lookup k other) (lookup k own)
  unfolding merge_all lookup
  merge_all-value [] own k h = refl
  merge_all-value ((j, v) ∷ other) own k (absent, rest) = elim (Bool-cases (str_eq j k)) [
    | inl e ↦
        let head =
          merge_all-value other (merged_key j v own) j rest
          ∙ ap (λ o. merged_value j o (lookup j (merged_key j v own))) absent
          ∙ key-merged j v own in
        rw e (
          subst
            (λ i.
              lookup i (merge_all same keys policy other (merged_key j v own)).0
              ≡ merged_value i (some v) (lookup i own))
            ((eq_iff j k).0 e) head)
    | inr e ↦ rw e (
        merge_all-value other (merged_key j v own) k rest
        ∙ ap (merged_value k (lookup k other)) (other-merged j k v own e))
  ]

  own_conflict :
      (j : String) (v : V) (own : Assoc V) (more : List String)
      → is_member j more ≡ false
      → is_member j
          (if is_considered keys j && differs same (lookup j own) v then j ∷ more else more)
        ≡ is_conflict j (some v) (lookup j own)
  unfolding is_member
  own_conflict j v own more h = ground (arith, h, eq_iff j j)

  other_conflict :
      (j k : String) (v : V) (own : Assoc V) (more : List String)
      → str_eq j k ≡ false
      → is_member k
          (if is_considered keys j && differs same (lookup j own) v then j ∷ more else more)
        ≡ is_member k more
  unfolding is_member
  other_conflict j k v own more e = ground (arith, e)

  merge_all-conflicts :
      (other own : Assoc V) (k : String)
      → IsMap other
      → is_member k (merge_all same keys policy other own).1
        ≡ is_conflict k (lookup k other) (lookup k own)
  unfolding merge_all lookup is_member
  merge_all-conflicts [] own k h = refl
  merge_all-conflicts ((j, v) ∷ other) own k (absent, rest) = elim (Bool-cases (str_eq j k)) [
    | inl e ↦
        let head =
          merge_all-conflicts other (merged_key j v own) j rest
          ∙ ap (λ o. is_conflict j o (lookup j (merged_key j v own))) absent in
        rw e (
          subst
            (λ i.
              is_member i (
                if is_considered keys j && differs same (lookup j own) v
                then j ∷ (merge_all same keys policy other (merged_key j v own)).1
                else (merge_all same keys policy other (merged_key j v own)).1)
              ≡ is_conflict i (some v) (lookup i own))
            ((eq_iff j k).0 e)
            (own_conflict j v own (merge_all same keys policy other (merged_key j v own)).1 head))
    | inr e ↦ rw e (
        other_conflict j k v own (merge_all same keys policy other (merged_key j v own)).1 e
        ∙ merge_all-conflicts other (merged_key j v own) k rest
        ∙ ap (is_conflict k (lookup k other)) (other-merged j k v own e))
  ]

  -- A merge gives each key what the policy says: a considered key of the other side takes the
  -- other's value, unless both sides have it with different values and the policy skips such keys;
  -- the keys reported are the considered ones that both sides have with different values.
  pub merge_from-value :
      (c other : Context V) (k : String)
      → IsMap other.variables
      → (lookup k (merge_from same c other keys policy).0.variables
          ≡ merged_value k (lookup k other.variables) (lookup k c.variables))
        × (is_member k (merge_from same c other keys policy).1
            ≡ is_conflict k (lookup k other.variables) (lookup k c.variables))
  unfolding merge_from snapshot
  merge_from-value c other k h = (
    merge_all-value other.variables c.variables k h,
    merge_all-conflicts other.variables c.variables k h,
  )
