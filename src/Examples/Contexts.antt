-- ===== src/Examples/Contexts.antt =====
-- Contexts of src/runtime/Context.hpp: writes, the journal and a merge.
use sapo_engine.Prelude.{ℕ, ◌≡◌, refl, Bool, List, [], ◌∷◌, ◌==◌}
use sapo_engine.Prelude.Map.{lookup, insert, erase}
use sapo_engine.Context.{
  Context, new_context, set_variable, mark, changed_since, merge_from, is_member, skip_conflicts,
}
use sapo_engine.Context.Journal.{
  Write, set_write, assign_write, merge_write, erase_write, run_writes, keys_written,
  changed_since-run_writes,
}
use sapo_engine.Context.Merging.{merged_value, is_conflict, merge_from-value}

abbrev is_zero : ℕ → Bool
is_zero n = n == 0

abbrev same : ℕ → ℕ → Bool
same a b = a == b

abbrev writes : List (Write is_zero same)
writes =
    set_write "b" 3
    ∷ assign_write "a" 4
    ∷ merge_write (record new_context { variables = ("d", 5) ∷ [] }) [] skip_conflicts
    ∷ erase_write "c"
    ∷ []

changed_since-run_writes_example :
    is_member "c" (changed_since (run_writes is_zero same writes new_context) 0)
    ≡ is_member "c" (keys_written is_zero same writes)
changed_since-run_writes_example = changed_since-run_writes is_zero same writes "c"

-- A key that is written after a mark is missed where a greater key was last written before it.
abbrev marked : Context ℕ
marked = run_writes is_zero same (set_write "b" 3 ∷ []) new_context

missed : changed_since (set_variable is_zero "a" 4 marked) (mark marked) ≡ []
unfolding set_variable changed_since mark run_writes lookup insert erase
missed = refl

abbrev ours : Context ℕ
ours = record new_context { variables = ("a", 1) ∷ ("b", 2) ∷ [] }

abbrev theirs : Context ℕ
theirs = record new_context { variables = ("a", 5) ∷ ("c", 6) ∷ [] }

merge_from-value_example :
    (lookup "a" (merge_from same ours theirs [] skip_conflicts).0.variables
      ≡ merged_value same [] skip_conflicts "a"
          (lookup "a" theirs.variables)
          (lookup "a" ours.variables))
    × (is_member "a" (merge_from same ours theirs [] skip_conflicts).1
        ≡ is_conflict same [] skip_conflicts "a"
            (lookup "a" theirs.variables)
            (lookup "a" ours.variables))
unfolding lookup
merge_from-value_example =
    merge_from-value same [] skip_conflicts ours theirs "a" (refl, (refl, tt))

reported : (merge_from same ours theirs [] skip_conflicts).1 ≡ "a" ∷ []
unfolding merge_from lookup insert erase
reported = refl
