-- ===== src/Redis/AfterWrite.antt =====
-- The sessions that the double holds after a write of src/redis/RedisStateStore.cpp that is let
-- through.
use sapo_engine.Prelude.{
  String, ◌≡◌, refl, sym, ◌∙◌, ap, subst, Bool, true, false, Option, some, if◌then◌else◌, str_eq,
}
use sapo_engine.Prelude.Map.{lookup, lookup-insert}
use sapo_engine.Prelude.Int.{ℤ, pos, ◌+ℤ◌}
use sapo_engine.Prelude.Decimal.{IsInt64}
use sapo_engine.StateStore
use sapo_engine.StateStore.{SessionCheckpoint, SaveOutcome, version_conflict, gone}
use sapo_engine.StateStore.Documents.{to_json, ReadsNumbers}
use sapo_engine.Redis.Keyspace.{Mock, Entry, put}
use sapo_engine.Redis.Scripts.{written_hash, stored_version, index_session}
use sapo_engine.Redis.Live.{live, live-put, SameControls, controls_trans, controls-put}
use sapo_engine.Redis.Layout.{Options, JsonText, serialize, session_key}
use sapo_engine.Redis.Sessions.{
  IsSeparate, Shows, ShowsBoth, Represents, version-Shows, session_key_eq,
}
use sapo_engine.Redis.Calls.{save_keys, save_args}
use sapo_engine.Redis.Writes.{looked, stored_at, after_write}
use sapo_engine.Redis.Reindex.{
  index_session-reindexed, live-reindexed, controls-reindexed, reindexed,
}
use sapo_engine.Redis.Written.{
  written-live, written-Shows, live-looked, controls-looked, status_in, previous-Shows,
}

pub shows_if :
    (json : JsonText) (b : Bool) (e e' : Option Entry) (c c' : Option SessionCheckpoint)
    → ShowsBoth json e c
    → ShowsBoth json e' c'
    → ShowsBoth json (if b then e else e') (if b then c else c')
shows_if json true e e' c c' h h' = h
shows_if json false e e' c c' h h' = h'

module _ (json : JsonText) (o : Options) (r : Mock) (m : StateStore.Store) (c : SessionCheckpoint)
    (expected : ℤ) (separate : IsSeparate o) (stored : Represents json o r m)
    (dated : IsInt64 c.updated_ms) where
  abbrev here : String
  here = session_key o c.session_id

  abbrev hash_after : Entry
  hash_after =
      written_hash (looked json o r c expected) here (save_args json o c expected)
        (stored_version (stored_at o r c) +ℤ pos 1)

  pub version-stored : stored_version (stored_at o r c) ≡ StateStore.current_version m c.session_id
  unfolding StateStore.current_version
  version-stored =
      version-Shows json (stored_at o r c) (lookup c.session_id m) (stored c.session_id)

  after_write-reindexed :
      after_write json o r c expected
      ≡ reindexed o
          (put (looked json o r c expected) here hash_after)
          c
          (status_in (lookup c.session_id m))
  after_write-reindexed =
      ap
        (index_session (put (looked json o r c expected) here hash_after) (save_keys o c.session_id)
          (save_args json o c expected))
        (previous-Shows json (stored_at o r c) (lookup c.session_id m) (stored c.session_id))
      ∙ index_session-reindexed json o (put (looked json o r c expected) here hash_after) c expected
          (status_in (lookup c.session_id m)) dated

  pub controls-after_write : SameControls r (after_write json o r c expected)
  controls-after_write = subst (SameControls r) (sym after_write-reindexed) (
      controls_trans (controls-looked json o r c expected) (
        controls_trans (controls-put (looked json o r c expected) here hash_after) (
          controls-reindexed o (put (looked json o r c expected) here hash_after) c
            (status_in (lookup c.session_id m)))))

  -- What the write leaves under a session's key.
  live-after_write :
      (id : String)
      → IsInt64 o.ttl_seconds
      → live (after_write json o r c expected) (session_key o id)
        ≡ (if str_eq c.session_id id then some hash_after else live r (session_key o id))
  live-after_write id lasting =
      ap (λ r'. live r' (session_key o id)) after_write-reindexed
      ∙ live-reindexed o (put (looked json o r c expected) here hash_after) c
          (status_in (lookup c.session_id m)) (session_key o id) (separate id)
      ∙ live-put (looked json o r c expected) here (session_key o id) hash_after
      ∙ (rw
          (
            session_key_eq o c.session_id id,
            written-live json o c expected (looked json o r c expected) here
                (stored_version (stored_at o r c) +ℤ pos 1) lasting,
            live-looked json o r c expected (session_key o id),
          )
          refl)

  pub after_write-Represents :
      IsInt64 o.ttl_seconds
      → ReadsNumbers json.numbers
      → json.parse (serialize json o c) ≡ some (to_json c)
      → IsInt64 (StateStore.current_version m c.session_id +ℤ pos 1)
      → Represents json o (after_write json o r c expected) (StateStore.save m c)
  unfolding StateStore.save
  after_write-Represents lasting reads prints in_range id =
      let current = StateStore.current_version m c.session_id in
      let shown =
        written-Shows json o c expected (looked json o r c expected) here
          (stored_version (stored_at o r c) +ℤ pos 1) reads prints
          (subst (λ v. IsInt64 (v +ℤ pos 1)) (sym version-stored) in_range) in
      rw (live-after_write id lasting, lookup-insert c.session_id id _ m)
        (shows_if json (str_eq c.session_id id) _ _ _ _
          (subst (λ v. Shows json hash_after (record c { version = v +ℤ pos 1 })) version-stored
            shown)
          (stored id))
