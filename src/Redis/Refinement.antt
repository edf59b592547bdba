-- ===== src/Redis/Refinement.antt =====
-- The Redis store of src/redis/RedisStateStore.cpp against the in-memory store of
-- src/runtime/StateStore.cpp, on the double and at one time of its clock.
use sapo_engine.Prelude.{
  ◌≡◌, ◌≢◌, refl, sym, ◌∙◌, ap, true, false, inl, inr, Option, none, some, if◌then◌else◌, arith,
  Bool-cases,
}
use sapo_engine.Prelude.Map.{lookup}
use sapo_engine.Prelude.Int.{ℤ, pos, negsuc, ◌+ℤ◌, ◌≤ℤ◌, eqb_ℤ, eqb_ℤ_iff, ltb_ℤ}
use sapo_engine.Prelude.Decimal.{IsInt64}
use sapo_engine.StateStore
use sapo_engine.StateStore.{SessionCheckpoint, SaveOutcome, version_conflict, gone}
use sapo_engine.StateStore.Cas.{save_if-save, save_if_accepted}
use sapo_engine.StateStore.Documents.{to_json, ReadsNumbers}
use sapo_engine.Redis.Keyspace.{Mock, Entry}
use sapo_engine.Redis.Scripts.{stored_version, exists_entry}
use sapo_engine.Redis.Client.{mock_client}
use sapo_engine.Redis.Store.{saved, write, save, save_if}
use sapo_engine.Redis.Layout.{Options, JsonText, serialize, session_key}
use sapo_engine.Redis.Sessions.{IsUp, IsUp-controls, IsSeparate, Represents}
use sapo_engine.Redis.Writes.{
  looked, stored_at, after_write, refusal, write_refused, write_accepted,
}
use sapo_engine.Redis.Written.{live-looked, controls-looked, exists-Shows}
use sapo_engine.Redis.AfterWrite.{version-stored, controls-after_write, after_write-Represents}

refusal_of :
    (found : Option Entry)
    → refusal found ≡ record {
      result = if exists_entry found then version_conflict else gone;
      version = stored_version found;
    }
unfolding exists_entry stored_version
refusal_of none = refl
refusal_of (some e) = refl

store_refuses :
    (m : StateStore.Store) (c : SessionCheckpoint) (expected : ℤ)
    → eqb_ℤ (StateStore.current_version m c.session_id) expected ≡ false
    → StateStore.save_if m c expected ≡ (
      m,
      record {
        result = if StateStore.is_some (lookup c.session_id m) then version_conflict else gone;
        version = StateStore.current_version m c.session_id;
      },
    )
unfolding StateStore.save_if
store_refuses m c expected e = rw e refl

unequal : {a b : ℤ} → eqb_ℤ a b ≡ false → a ≢ b
unequal {a} {b} e same = ground (arith, (eqb_ℤ_iff a b).1 same)

not_negative : (v : ℤ) → pos 0 ≤ℤ v → ltb_ℤ v (pos 0) ≡ false
not_negative v h = ground arith

-- The store works in its usual configuration on a double that answers, and what the double holds
-- for it are the sessions of `m`.
pub record IsReady (json : JsonText) (o : Options) (r : Mock) (m : StateStore.Store) : Type 0 where
  pub is_up : IsUp r
  pub separate_keys : IsSeparate o
  pub atomic : o.atomic_index ≡ true
  pub ttl_range : IsInt64 o.ttl_seconds
  pub reads_numbers : ReadsNumbers json.numbers
  pub represents : Represents json o r m

-- A checkpoint that can be written: it has an identifier, its document is read back from its
-- text, and its numbers stay in range.
pub record CanWrite (json : JsonText) (o : Options) (m : StateStore.Store) (c : SessionCheckpoint)
    : Type 0 where
  pub has_id : c.session_id ≢ ""
  pub prints : json.parse (serialize json o c) ≡ some (to_json c)
  pub dated : IsInt64 c.updated_ms
  pub next_version : IsInt64 (StateStore.current_version m c.session_id +ℤ pos 1)

module _ (json : JsonText) (o : Options) (r : Mock) (m : StateStore.Store) (c : SessionCheckpoint)
    (ready : IsReady json o r m) (can : CanWrite json o m c) where
  stored-version : stored_version (stored_at o r c) ≡ StateStore.current_version m c.session_id
  stored-version =
      version-stored json o r m c (pos 0) ready.separate_keys ready.represents can.dated

  pub after_write-IsReady :
      (expected : ℤ) → IsReady json o (after_write json o r c expected) (StateStore.save m c)
  after_write-IsReady expected = record {
    is_up =
        IsUp-controls
          (controls-after_write json o r m c expected ready.separate_keys ready.represents
            can.dated)
          ready.is_up;
    separate_keys = ready.separate_keys;
    atomic = ready.atomic;
    ttl_range = ready.ttl_range;
    reads_numbers = ready.reads_numbers;
    represents =
        after_write-Represents json o r m c expected ready.separate_keys ready.represents can.dated
          ready.ttl_range ready.reads_numbers can.prints can.next_version;
  }

  pub looked-IsReady : (expected : ℤ) → IsReady json o (looked json o r c expected) m
  looked-IsReady expected = record {
    is_up = IsUp-controls (controls-looked json o r c expected) ready.is_up;
    separate_keys = ready.separate_keys;
    atomic = ready.atomic;
    ttl_range = ready.ttl_range;
    reads_numbers = ready.reads_numbers;
    represents =
        λ id. rw (live-looked json o r c expected (session_key o id)) (ready.represents id);
  }

  -- On a store that is ready, an unconditional write of a checkpoint that can be written succeeds,
  -- and the double holds after it the sessions that the in-memory store does.
  pub save-refines :
      ((save mock_client json o r c).1 ≡ some tt)
      × IsReady json o (save mock_client json o r c).0 (StateStore.save m c)
  unfolding save
  save-refines =
      rw
        (write_accepted json o r c (negsuc 0) ready.is_up ready.atomic can.has_id (omega arith)
          (inl (omega arith)))
        (refl, after_write-IsReady (negsuc 0))

  write_if-lets :
      (expected : ℤ)
      → IsInt64 expected
      → StateStore.current_version m c.session_id ≡ expected
      → write mock_client json o r c expected
        ≡ (after_write json o r c expected, some (saved (expected +ℤ pos 1)))
  write_if-lets expected in_range same =
      write_accepted json o r c expected ready.is_up ready.atomic can.has_id in_range
        (inr (stored-version ∙ same))
      ∙ ap (λ v. (after_write json o r c expected, some (saved (v +ℤ pos 1))))
          (stored-version ∙ same)

  refusal-lem : refusal (stored_at o r c) ≡ record {
    result = if StateStore.is_some (lookup c.session_id m) then version_conflict else gone;
    version = StateStore.current_version m c.session_id;
  }
  refusal-lem =
      refusal_of (stored_at o r c)
      ∙ rw
          (
            exists-Shows json (stored_at o r c) (lookup c.session_id m)
                (ready.represents c.session_id),
            stored-version,
          )
          refl

  -- On a store that is ready, a compare-and-swap of a checkpoint that can be written, at an expected
  -- version that is not negative and in range, has the outcome of the in-memory store's on every
  -- branch, and the double holds after it the sessions that the in-memory store does.
  pub save_if-refines :
      (expected : ℤ)
      → pos 0 ≤ℤ expected
      → IsInt64 expected
      → ((save_if mock_client json o r c expected).1 ≡ some (StateStore.save_if m c expected).1)
        × IsReady json o
            (save_if mock_client json o r c expected).0
            (StateStore.save_if m c expected).0
  unfolding save_if
  save_if-refines expected nonneg in_range =
      rw (not_negative expected nonneg)
        (elim (Bool-cases (eqb_ℤ (StateStore.current_version m c.session_id) expected)) [
          | inl e ↦
              let same = (eqb_ℤ_iff (StateStore.current_version m c.session_id) expected).0 e in
              rw (write_if-lets expected in_range same, save_if-save m c expected same)
                (
                  ap some (sym ((save_if_accepted m c expected same).0)),
                  after_write-IsReady expected,
                )
          | inr e ↦
              rw
                (
                  write_refused json o r c expected ready.is_up ready.atomic can.has_id in_range
                      nonneg (λ same. unequal e (sym stored-version ∙ same)),
                  store_refuses m c expected e,
                )
                (ap some refusal-lem, looked-IsReady expected)
        ])
