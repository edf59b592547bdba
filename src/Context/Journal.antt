-- ===== src/Context/Journal.antt =====
-- The journal of writes of src/runtime/Context.hpp, as the join of parallel branches reads it.
use sapo_engine.Prelude.{
  ℕ, suc, ◌<◌, String, ◌≡◌, refl, ◌∙◌, Bool, true, false, ◌||◌, Option, none, some, List, [], ◌∷◌,
  str_eq, eq_iff, arith,
}
use sapo_engine.Prelude.Map.{Assoc, lookup}
use sapo_engine.Context.{
  Context, new_context, put_down, taken_after, is_member, record_write, set_variable,
  assign_variable, erase_variable, changed_since, MergePolicy, merge_from,
}

-- Every write of the journal has a number above 0.
abbrev pub AreNumbered : Assoc ℕ → Type 0
AreNumbered [] = Unit
AreNumbered ((k, n) ∷ rest) = (0 < n) × AreNumbered rest

abbrev is_written : Option ℕ → Bool
is_written none = false
is_written (some n) = true

put_down-AreNumbered :
    (k : String) (n : ℕ) (j : Assoc ℕ) → 0 < n → AreNumbered j → AreNumbered (put_down k n j)
unfolding put_down
put_down-AreNumbered k n [] h rest = (h, tt)
put_down-AreNumbered k n ((i, m) ∷ j) h (first, rest) =
    ground (arith, put_down-AreNumbered k n j h rest)

written-put_down :
    (k i : String) (n : ℕ) (j : Assoc ℕ)
    → is_written (lookup i (put_down k n j)) ≡ (str_eq k i || is_written (lookup i j))
unfolding put_down lookup
written-put_down k i n [] = ground (arith, eq_iff k i)
written-put_down k i n ((m, v) ∷ j) =
    ground (arith, written-put_down k i n j, eq_iff k i, eq_iff m i, eq_iff m k)

member-taken :
    (k : String) (j : Assoc ℕ)
    → AreNumbered j
    → is_member k (taken_after 0 j) ≡ is_written (lookup k j)
unfolding taken_after is_member lookup
member-taken k [] h = refl
member-taken k ((i, n) ∷ j) (first, rest) = ground (arith, member-taken k j rest)

module _ {V : Type 0} (is_null : V → Bool) (same : V → V → Bool) where
  -- A call that writes the shared store: `setVariable`, an assignment of `setByPath` or of
  -- `setLayered` without layers, `erase` and `mergeFrom`.
  pub data Write : Type 0 where
    set_write : String → V → Write
    assign_write : String → V → Write
    erase_write : String → Write
    merge_write : Context V → List String → MergePolicy → Write

  unfoldable pub write_once : Write → Context V → Context V
  write_once (set_write k v) c = set_variable is_null k v c
  write_once (assign_write k v) c = assign_variable k v c
  write_once (erase_write k) c = erase_variable k c
  write_once (merge_write other keys policy) c = (merge_from same c other keys policy).0

  unfoldable pub run_writes : List Write → Context V → Context V
  unfolding write_once
  run_writes [] c = c
  run_writes (w ∷ ws) c = run_writes ws (write_once w c)

  -- The keys of the calls that are in the journal. A merge puts none there.
  abbrev pub keys_written : List Write → List String
  keys_written [] = []
  keys_written (set_write k v ∷ ws) = k ∷ keys_written ws
  keys_written (assign_write k v ∷ ws) = k ∷ keys_written ws
  keys_written (erase_write k ∷ ws) = k ∷ keys_written ws
  keys_written (merge_write other keys policy ∷ ws) = keys_written ws

  changed-write :
      (i : String) (c d : Context V) (k : String)
      → d.journal ≡ put_down i (suc c.sequence) c.journal
      → AreNumbered c.journal
      → AreNumbered d.journal
        × (is_written (lookup k d.journal) ≡ (str_eq i k || is_written (lookup k c.journal)))
  changed-write i c d k e h = rw e (
    put_down-AreNumbered i (suc c.sequence) c.journal (omega arith) h,
    written-put_down i k (suc c.sequence) c.journal,
  )

  changed-run :
      (ws : List Write) (c : Context V) (k : String)
      → AreNumbered c.journal
      → AreNumbered (run_writes ws c).journal
        × (is_written (lookup k (run_writes ws c).journal)
            ≡ (is_member k (keys_written ws) || is_written (lookup k c.journal)))
  unfolding run_writes is_member write_once set_variable assign_variable erase_variable record_write
      merge_from
  changed-run [] c k h = (h, refl)
  changed-run (set_write i v ∷ ws) c k h =
      let (numbered, first) = changed-write i c (set_variable is_null i v c) k refl h in
      let (later, rest) = changed-run ws (set_variable is_null i v c) k numbered in
      (later, ground (arith, first, rest))
  changed-run (assign_write i v ∷ ws) c k h =
      let (numbered, first) = changed-write i c (assign_variable i v c) k refl h in
      let (later, rest) = changed-run ws (assign_variable i v c) k numbered in
      (later, ground (arith, first, rest))
  changed-run (erase_write i ∷ ws) c k h =
      let (numbered, first) = changed-write i c (erase_variable i c) k refl h in
      let (later, rest) = changed-run ws (erase_variable i c) k numbered in
      (later, ground (arith, first, rest))
  changed-run (merge_write other keys policy ∷ ws) c k h =
      changed-run ws (merge_from same c other keys policy).0 k h

  -- What has changed since the beginning of a context, after any sequence of calls of setVariable,
  -- erase and mergeFrom and of assignments that setByPath, or setLayered without layers, makes: the
  -- keys of the calls other than mergeFrom, and no others. A merge leaves no trace there.
  pub changed_since-run_writes :
      (ws : List Write) (k : String)
      → is_member k (changed_since (run_writes ws new_context) 0) ≡ is_member k (keys_written ws)
  unfolding changed_since lookup
  changed_since-run_writes ws k =
      let (numbered, found) = changed-run ws new_context k tt in
      member-taken k (run_writes ws new_context).journal numbered ∙ found ∙ ground arith
