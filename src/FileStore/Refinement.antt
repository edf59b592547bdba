-- ===== src/FileStore/Refinement.antt =====
-- The file store of src/runtime/StateStore.cpp beside its in-memory store, on the sessions whose
-- file names differ.
use sapo_engine.Prelude.{
  String, ◌≡◌, refl, ap, sym, ◌∙◌, true, false, some, none, if◌then◌else◌, str_eq, eq_iff, arith,
  Bool-cases, inl, inr,
}
use sapo_engine.Prelude.Map.{insert, erase, lookup-insert, lookup-erase}
use sapo_engine.Prelude.Int.{ℤ, pos, ◌+ℤ◌, eqb_ℤ}
use sapo_engine.StateStore.{
  SessionCheckpoint, Store, version_in, current_version, save, save_if, load, remove,
}
use sapo_engine.StateStore.Documents.{ReadsNumbers, to_json, from_json, from_json-to_json, ◌>>=◌}
use sapo_engine.FileStore.{
  Files, JsonFile, path_for, read_text, read_checkpoint, write_text, write_checkpoint, save_file,
  save_file_if, with_outcome, load_file, remove_file,
}

-- The sessions of a set have file names of their own.
abbrev pub IsApart : (String → Type 0) → Type 0
IsApart P = (i j : String) → P i → P j → path_for i ≡ path_for j → i ≡ j

-- The files hold what the map holds, for the sessions of a set.
abbrev pub Holds : JsonFile → (String → Type 0) → Files → Store → Type 0
Holds json P fs m = (id : String) → P id → load_file json fs id ≡ load m id

-- The document of a checkpoint is printed, and its text is parsed as the same document: what the
-- JSON library does with a document that has no number that is not finite and only valid UTF-8.
pub record Prints (json : JsonFile) (c : SessionCheckpoint) : Type 0 where
  pub text : String
  pub dumps : json.dump (to_json c) ≡ some text
  pub parses : json.parse text ≡ some (to_json c)

load_file-insert :
    (json : JsonFile) (fs : Files) (k id text : String)
    → load_file json (insert k text fs) id
      ≡ (if str_eq k (path_for id) then read_text json (some text) else load_file json fs id)
unfolding load_file read_checkpoint
load_file-insert json fs k id text = ground (arith, lookup-insert k (path_for id) text fs)

load_file-erase :
    (json : JsonFile) (fs : Files) (k id : String)
    → load_file json (erase k fs) id
      ≡ (if str_eq k (path_for id) then none else load_file json fs id)
unfolding load_file read_checkpoint read_text
load_file-erase json fs k id = ground (arith, lookup-erase k (path_for id) fs)

read_text-Prints :
    (json : JsonFile) (c : SessionCheckpoint) (p : Prints json c)
    → ReadsNumbers json.numbers
    → read_text json (some p.text) ≡ some c
unfolding read_text
read_text-Prints json c p reads =
    ap (λ v. v >>= from_json json.numbers) p.parses ∙ from_json-to_json json.numbers reads c

module _ (json : JsonFile) (reads : ReadsNumbers json.numbers) (P : String → Type 0)
    (apart : IsApart P) (fs : Files) (m : Store) (holds : Holds json P fs m) where
  same_test : (i j : String) → P i → P j → str_eq (path_for i) (path_for j) ≡ str_eq i j
  same_test i j p q = ground (
    arith,
    eq_iff (path_for i) (path_for j),
    eq_iff i j,
    apart i j p q,
    ap path_for {x = i} {y = j},
  )

  -- The files after a checkpoint is written under a session's name.
  abbrev after : (id : String) (d : SessionCheckpoint) → Prints json d → Files
  after id d printed = insert (path_for id) printed.text fs

  write-after :
      (id : String) (d : SessionCheckpoint) (printed : Prints json d)
      → write_checkpoint json true (path_for id) d fs ≡ some (after id d printed)
  unfolding write_checkpoint write_text
  write-after id d printed = ap (λ t. write_text true (path_for id) t fs) printed.dumps

  insert-Holds :
      (id : String) (d : SessionCheckpoint) (printed : Prints json d)
      → P id
      → Holds json P (after id d printed) (insert id d m)
  unfolding load
  insert-Holds id d printed p j q =
      load_file-insert json fs (path_for id) j printed.text
      ∙ ap (λ o. if str_eq (path_for id) (path_for j) then o else load_file json fs j)
          (read_text-Prints json d printed reads)
      ∙ ap (λ b. if b then some d else load_file json fs j) (same_test id j p q)
      ∙ ap (λ o. if str_eq id j then some d else o) (holds j q)
      ∙ sym (lookup-insert id j d m)

  same_version :
      (id : String)
      → P id
      → version_in (read_checkpoint json fs (path_for id)) ≡ current_version m id
  unfolding load_file load current_version
  same_version id p = ap version_in (holds id p)

  -- Where the files hold what a map holds, for sessions whose file names differ, a write to the
  -- files that is done, of a checkpoint whose document at its next version the JSON library prints
  -- and parses as it is, leaves them holding what the map holds after the in-memory write. The
  -- library reads the numbers that the program writes.
  pub save_file-Holds :
      (c : SessionCheckpoint)
      → P c.session_id
      → Prints json (record c { version = current_version m c.session_id +ℤ pos 1 })
      → (fs' : Files) × (save_file json true fs c ≡ some fs') × Holds json P fs' (save m c)
  unfolding save_file save
  save_file-Holds c p printed =
      let next = record c { version = current_version m c.session_id +ℤ pos 1 } in
      (
        after c.session_id next printed,
        ap
              (λ v.
                write_checkpoint json true (path_for c.session_id)
                  (record c { version = v +ℤ pos 1 }) fs)
              (same_version c.session_id p)
            ∙ write-after c.session_id next printed,
        insert-Holds c.session_id next printed p,
      )

  -- Where the files hold what a map holds, for sessions whose file names differ, a compare-and-swap
  -- on the files, whose write is done and whose checkpoint's document at its next version the JSON
  -- library prints and parses as it is, gives the outcome that the in-memory store gives, and leaves
  -- the files holding what that store holds then. The library reads the numbers that the program
  -- writes.
  pub save_file_if-Holds :
      (c : SessionCheckpoint) (expected : ℤ)
      → P c.session_id
      → Prints json (record c { version = expected +ℤ pos 1 })
      → (fs' : Files) × (save_file_if json true fs c expected
          ≡ some (fs', (save_if m c expected).1))
        × Holds json P fs' (save_if m c expected).0
  unfolding save_file_if save_if with_outcome load_file load
  save_file_if-Holds c expected p printed =
      let next = record c { version = expected +ℤ pos 1 } in
      elim (Bool-cases (eqb_ℤ (current_version m c.session_id) expected)) [
        | inl same ↦ (
          after c.session_id next printed,
          rw (same_version c.session_id p, same, write-after c.session_id next printed) refl,
          rw same (insert-Holds c.session_id next printed p),
        )
        | inr differs ↦ (
          fs,
          rw (same_version c.session_id p, differs, holds c.session_id p) refl,
          rw differs holds,
        )
      ]

  -- Where the files hold what a map holds, for sessions whose file names differ, a removal from the
  -- files that the file system does leaves them holding what the map holds after the in-memory
  -- removal; one that it does not do reports that, and leaves them holding what the map held.
  pub remove_file-Holds :
      (id : String)
      → P id
      → Holds json P (remove_file true fs id).0 (remove m id).0
        × Holds json P (remove_file false fs id).0 m
        × ((remove_file false fs id).1 ≡ false)
  unfolding remove_file remove load
  remove_file-Holds id p = (removed, holds, refl)
    where
      removed : Holds json P (remove_file true fs id).0 (remove m id).0
      removed j q =
          load_file-erase json fs (path_for id) j
          ∙ ap (λ b. if b then none else load_file json fs j) (same_test id j p q)
          ∙ ap (λ o. if str_eq id j then none else o) (holds j q)
          ∙ sym (lookup-erase id j m)
