-- ===== src/StateStore/Cas.antt =====
-- Compare-and-swap of the in-memory store of src/runtime/StateStore.cpp: what one call does, and
-- that one of two racing writers wins.
use sapo_engine.Prelude.{
  String, ◌≡◌, ◌≢◌, refl, ap, true, false, Option, none, some, List, [], ◌∷◌, if◌then◌else◌, str_eq,
  eq_iff, arith, Bool-cases, inl, inr,
}
use sapo_engine.Prelude.Map.{lookup, lookup-insert, lookup-erase}
use sapo_engine.Prelude.Int.{
  ℤ, pos, pos_part, neg_part, ◌+ℤ◌, ◌≤ℤ◌, ◌<ℤ◌, eqb_ℤ, eqb_ℤ_iff, +ℤ_parts,
}
use sapo_engine.StateStore.{
  SessionCheckpoint, Store, version_in, current_version, is_some, save, save_if, load, remove, ok,
  version_conflict, gone,
}

-- What the store holds under each key after an unconditional write.
pub load-save :
    (m : Store) (c : SessionCheckpoint) (id : String)
    → load (save m c) id ≡ (
        if str_eq c.session_id id
        then some (record c { version = current_version m c.session_id +ℤ pos 1 })
        else load m id)
unfolding load save
load-save m c id = lookup-insert c.session_id id _ m

-- A refused write leaves the whole store as it was and reports the version that is stored, and
-- "gone" exactly when nothing is.
pub save_if_refused :
    (m : Store) (c : SessionCheckpoint) (expected : ℤ)
    → current_version m c.session_id ≢ expected
    → ((save_if m c expected).0 ≡ m)
      × ((save_if m c expected).1.version ≡ current_version m c.session_id)
      × ((save_if m c expected).1.result
          ≡ (if is_some (load m c.session_id) then version_conflict else gone))
unfolding save_if load
save_if_refused m c expected h = ground (arith, eqb_ℤ_iff (current_version m c.session_id) expected)

-- A write that is let through stores the checkpoint under the next version, and touches no other
-- session.
pub save_if_accepted :
    (m : Store) (c : SessionCheckpoint) (expected : ℤ)
    → current_version m c.session_id ≡ expected
    → ((save_if m c expected).1 ≡ record { result = ok; version = expected +ℤ pos 1 })
      × ((id : String)
          → load (save_if m c expected).0 id ≡ (
              if str_eq c.session_id id
              then some (record c { version = expected +ℤ pos 1 })
              else load m id))
unfolding save_if load
save_if_accepted m c expected h =
    elim (Bool-cases (eqb_ℤ (current_version m c.session_id) expected)) [
      | inl same ↦ (rw same, λ id. rw same (lookup-insert c.session_id id _ m))
      | inr differs ↦ absurd (ground (arith, eqb_ℤ_iff (current_version m c.session_id) expected))
    ]

-- The calls that change a store.
pub data Op : Type 0 where
  save_op : SessionCheckpoint → Op
  save_if_op : SessionCheckpoint → ℤ → Op
  remove_op : String → Op

unfoldable pub step : Store → Op → Store
step m (save_op c) = save m c
step m (save_if_op c expected) = (save_if m c expected).0
step m (remove_op id) = (remove m id).0

unfoldable pub run : Store → List Op → Store
run m [] = m
run m (op ∷ ops) = run (step m op) ops

-- No call of the sequence removes the session.
abbrev pub IsKept : String → List Op → Type 0
IsKept id [] = Unit
IsKept id (remove_op j ∷ ops) = (j ≢ id) × IsKept id ops
IsKept id (_ ∷ ops) = IsKept id ops

version-save_self :
    (m : Store) (c : SessionCheckpoint) (id : String)
    → c.session_id ≡ id
    → current_version (save m c) id ≡ current_version m id +ℤ pos 1
unfolding save current_version
version-save_self m c id e =
    rw (lookup-insert c.session_id id _ m, (eq_iff c.session_id id).1 e)
      (ap (λ j. version_in (lookup j m) +ℤ pos 1) e)

version-save_ne :
    (m : Store) (c : SessionCheckpoint) (id : String)
    → str_eq c.session_id id ≡ false
    → current_version (save m c) id ≡ current_version m id
unfolding save current_version
version-save_ne m c id e = rw (lookup-insert c.session_id id _ m, e) refl

-- The version that a write would meet, before and after it.
version-save :
    (m : Store) (c : SessionCheckpoint) (id : String)
    → current_version m id ≤ℤ current_version (save m c) id
version-save m c id = elim (Bool-cases (str_eq c.session_id id)) [
  | inl same ↦
      rw (version-save_self m c id ((eq_iff c.session_id id).0 same))
        (omega (arith, +ℤ_parts (current_version m id) (pos 1)))
  | inr other ↦ rw (version-save_ne m c id other) (omega arith)
]

-- An accepted `saveIf` writes what `save` writes.
pub save_if-save :
    (m : Store) (c : SessionCheckpoint) (expected : ℤ)
    → current_version m c.session_id ≡ expected
    → (save_if m c expected).0 ≡ save m c
unfolding save_if save
save_if-save m c expected h =
    rw ((eqb_ℤ_iff (current_version m c.session_id) expected).1 h) (rw h refl)

version-save_if :
    (m : Store) (c : SessionCheckpoint) (expected : ℤ) (id : String)
    → current_version m id ≤ℤ current_version (save_if m c expected).0 id
version-save_if m c expected id =
    elim (Bool-cases (eqb_ℤ (current_version m c.session_id) expected)) [
      | inl same ↦
          rw (save_if-save m c expected ((eqb_ℤ_iff _ expected).0 same)) (version-save m c id)
      | inr differs ↦
          rw
            ((save_if_refused m c expected
              (λ e. ground (arith, (eqb_ℤ_iff (current_version m c.session_id) expected).1 e))).0)
            (omega arith)
    ]

version-remove :
    (m : Store) (j id : String) → j ≢ id → current_version (remove m j).0 id ≡ current_version m id
unfolding remove current_version
version-remove m j id h = rw (lookup-erase j id m) (ground (arith, eq_iff j id))

-- While a session is not removed, its version never goes back.
pub version-run :
    (ops : List Op) (m : Store) (id : String)
    → IsKept id ops
    → current_version m id ≤ℤ current_version (run m ops) id
unfolding run step
version-run [] m id h = omega arith
version-run (save_op c ∷ ops) m id h =
    omega (arith, version-save m c id, version-run ops (save m c) id h)
version-run (save_if_op c v ∷ ops) m id h =
    omega (arith, version-save_if m c v id, version-run ops (save_if m c v).0 id h)
version-run (remove_op j ∷ ops) m id h =
    rw (← version-remove m j id h.0) (version-run ops (remove m j).0 id h.1)

present : (o : Option SessionCheckpoint) → pos 0 <ℤ version_in o → is_some o ≡ true
unfolding version_in is_some
present none h = absurd (omega arith)
present (some c) h = refl

-- The version that the accepted call leaves behind is the next one.
version-save_if_ok :
    (m : Store) (c : SessionCheckpoint) (v : ℤ)
    → current_version m c.session_id ≡ v
    → current_version (save_if m c v).0 c.session_id ≡ v +ℤ pos 1
version-save_if_ok m c v h =
    rw (save_if-save m c v h)
      (rw (version-save_self m c c.session_id refl) (ap (λ w. w +ℤ pos 1) h))

present-load :
    (m : Store) (id : String) → pos 0 <ℤ current_version m id → is_some (load m id) ≡ true
unfolding current_version load
present-load m id h = present (lookup id m) h

ahead_refused :
    (m : Store) (c : SessionCheckpoint) (v : ℤ)
    → pos 0 ≤ℤ v
    → v <ℤ current_version m c.session_id
    → (save_if m c v).1.result ≡ version_conflict
ahead_refused m c v nonneg h =
    let differs = save_if_refused m c v (λ e. omega (arith, ap pos_part e, ap neg_part e)) in
    rw (differs.2) (rw (present-load m c.session_id (omega arith)) refl)

-- Of all the writers that read one version of a session, one wins: once a compare-and-swap at
-- that version is accepted, every later one at that version is refused with a conflict, whatever
-- calls come between, as long as none of them removes the session.
pub save_if_once :
    (m : Store) (c c' : SessionCheckpoint) (v : ℤ) (ops : List Op)
    → current_version m c.session_id ≡ v
    → pos 0 ≤ℤ v
    → c'.session_id ≡ c.session_id
    → IsKept c.session_id ops
    → (save_if (run (save_if m c v).0 ops) c' v).1.result ≡ version_conflict
save_if_once m c c' v ops read nonneg same kept =
    let won = version-save_if_ok m c v read in
    let kept_on = version-run ops (save_if m c v).0 c.session_id kept in
    ahead_refused (run (save_if m c v).0 ops) c' v nonneg
      (rw same (omega (arith, ap pos_part won, ap neg_part won, +ℤ_parts v (pos 1))))
