-- ===== src/Context.antt =====
-- The variables of a session, `RuntimeContext` of src/runtime/Context.hpp: the shared store, the
-- layers over it, the journal of writes and the merge of parallel branches. Each method holds the
-- context's lock. A value is a parameter, with the JSON library's null test and comparison.
use Prim.Native.String.{compare}
use Prim.Native.Nat.{Ordering}
use sapo_engine.Prelude.{
  ℕ, suc, String, Bool, true, false, not, ◌&&◌, ◌||◌, Option, none, some, List, [], ◌∷◌,
  if◌then◌else◌, leb, str_eq,
}
use sapo_engine.Prelude.Map.{Assoc, lookup, insert, erase}
pub mod Journal
pub mod Merging

-- A layer that is not an object is none. The topmost layer is the head of the list.
pub record Context (V : Type 0) : Type 0 where
  pub variables : Assoc V
  pub layers : List (Option (Assoc V))
  pub journal : Assoc ℕ
  pub sequence : ℕ
  pub delete_on_null : Bool

abbrev pub text_after : String → String → Bool
text_after a b = elim (compare a b) [ Ordering.gt ↦ true | _ ↦ false ]

-- The journal, from its greatest key down, as its reverse iterators meet it.
unfoldable pub put_down : String → ℕ → Assoc ℕ → Assoc ℕ
put_down k n [] = (k, n) ∷ []
put_down k n ((j, i) ∷ rest) =
    let more = put_down k n rest in
    if str_eq j k
    then (k, n) ∷ rest
    else if text_after k j
    then (k, n) ∷ (j, i) ∷ rest
    else (j, i) ∷ more

unfoldable pub taken_after : ℕ → Assoc ℕ → List String
taken_after mark [] = []
taken_after mark ((k, n) ∷ rest) =
    let more = taken_after mark rest in if leb n mark then [] else k ∷ more

unfoldable pub is_member : String → List String → Bool
is_member k [] = false
is_member k (j ∷ js) = str_eq j k || is_member k js

pub data MergePolicy : Type 0 where
  last_writer_wins skip_conflicts fail_conflicts : MergePolicy

unfoldable pub skips : MergePolicy → Bool
skips skip_conflicts = true
skips _ = false

-- The keys that a merge considers: all where none are named.
unfoldable pub is_considered : List String → String → Bool
unfolding is_member
is_considered [] k = true
is_considered (j ∷ js) k = is_member k (j ∷ js)

module _ {V : Type 0} where
  abbrev pub new_context : Context V
  new_context = record {
    variables = [];
    layers = [];
    journal = [];
    sequence = 0;
    delete_on_null = false;
  }

  unfoldable pub record_write : String → Context V → Context V
  unfolding put_down
  record_write k c = record c {
    sequence = suc c.sequence;
    journal = put_down k (suc c.sequence) c.journal;
  }

  unfoldable pub in_layers : String → List (Option (Assoc V)) → Option V → Option V
  in_layers k [] found = found
  in_layers k (none ∷ layers) found = in_layers k layers found
  in_layers k (some layer ∷ layers) found = first_of (lookup k layer) (in_layers k layers found)
    where
      first_of : Option V → Option V → Option V
      first_of (some v) rest = some v
      first_of none rest = rest

  unfoldable pub get_variable : Context V → String → Option V
  unfolding in_layers
  get_variable c k = in_layers k c.layers (lookup k c.variables)

  unfoldable pub set_variable : (V → Bool) → String → V → Context V → Context V
  unfolding record_write
  set_variable is_null k v c = record_write k (record c {
    variables =
        if is_null v && c.delete_on_null then erase k c.variables else insert k v c.variables;
  })

  -- `m_variables[k] = v` with its journal entry, as each branch of `setByPath` does it at the key and
  -- with the document that its path gives, and `setLayered` where there is no layer.
  unfoldable pub assign_variable : String → V → Context V → Context V
  unfolding record_write
  assign_variable k v c = record_write k (record c { variables = insert k v c.variables })

  unfoldable pub erase_variable : String → Context V → Context V
  unfolding record_write
  erase_variable k c = record_write k (record c { variables = erase k c.variables })

  unfoldable pub push_layer : Option (Assoc V) → Context V → Context V
  push_layer layer c = record c { layers = layer ∷ c.layers }

  abbrev tail_of : List (Option (Assoc V)) → List (Option (Assoc V))
  tail_of [] = []
  tail_of (layer ∷ layers) = layers

  unfoldable pub pop_layer : Context V → Context V
  pop_layer c = record c { layers = tail_of c.layers }

  -- None where the topmost layer is not an object.
  unfoldable pub set_in_layers :
      String → V → List (Option (Assoc V)) → Context V → Option (Context V)
  unfolding assign_variable
  set_in_layers k v [] c = some (assign_variable k v c)
  set_in_layers k v (none ∷ layers) c = none
  set_in_layers k v (some layer ∷ layers) c =
      some (record c { layers = some (insert k v layer) ∷ layers })

  unfoldable pub set_layered : String → V → Context V → Option (Context V)
  unfolding set_in_layers
  set_layered k v c = set_in_layers k v c.layers c

  unfoldable pub snapshot : Context V → Assoc V
  snapshot c = c.variables

  -- A state that is not an object is none.
  unfoldable pub restore : Option (Assoc V) → Context V → Context V
  restore none c = record c { variables = [] }
  restore (some state) c = record c { variables = state }

  unfoldable pub fork : Context V → Context V
  unfolding snapshot
  fork c = record new_context { variables = snapshot c }

  unfoldable pub mark : Context V → ℕ
  mark c = c.sequence

  unfoldable pub changed_since : Context V → ℕ → List String
  unfolding taken_after
  changed_since c sequence = taken_after sequence c.journal

  unfoldable pub differs : (V → V → Bool) → Option V → V → Bool
  differs same none v = false
  differs same (some w) v = not (same w v)

  -- The loop of `mergeFrom`, over the other side's variables.
  unfoldable pub merge_all :
      (V → V → Bool) → List String → MergePolicy → Assoc V → Assoc V → Assoc V × List String
  unfolding differs is_considered skips
  merge_all same keys policy [] own = (own, [])
  merge_all same keys policy ((k, v) ∷ rest) own =
      let conflict = is_considered keys k && differs same (lookup k own) v in
      let kept = not (is_considered keys k) || (conflict && skips policy) in
      let (merged, conflicts) =
        merge_all same keys policy rest (if kept then own else insert k v own) in
      (merged, if conflict then k ∷ conflicts else conflicts)

  unfoldable pub merge_from :
      (V → V → Bool) → Context V → Context V → List String → MergePolicy → Context V × List String
  unfolding merge_all snapshot
  merge_from same c other keys policy =
      let (merged, conflicts) = merge_all same keys policy (snapshot other) c.variables in
      (record c { variables = merged }, conflicts)
