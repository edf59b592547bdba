-- ===== src/Redis/Written.antt =====
-- The session hash that the save script of src/redis/RedisStateStore.cpp writes, read back on the
-- double.
use sapo_engine.Prelude.{
  String, ◌≡◌, refl, false, Option, none, some, List, [], ◌∷◌, if◌then◌else◌, str_eq, eq_iff, arith,
}
use sapo_engine.Prelude.Int.{ℤ, pos, negsuc, ◌+ℤ◌, ltb_ℤ, +ℤ_parts}
use sapo_engine.Prelude.Decimal.{to_string, parse_int-to_string, IsInt64}
use sapo_engine.StateStore
use sapo_engine.StateStore.{SessionCheckpoint, SessionStatus, SaveOutcome, index_of, version_in}
use sapo_engine.StateStore.Documents.{to_json, from_json-to_json, ReadsNumbers}
use sapo_engine.Redis.Keyspace.{
  Mock, Entry, is_hash, hash_kind, entry_for, hash_get, hash_set, has_expired,
}
use sapo_engine.Redis.Scripts.{written_hash, previous_status, previous_of, exists_entry, seconds}
use sapo_engine.Redis.Live.{
  live, unexpired, live-find_live, controls-find_live, SameControls, controls_trans,
}
use sapo_engine.Redis.Layout.{Options, JsonText, serialize, session_key}
use sapo_engine.Redis.Sessions.{Shows, ShowsBoth}
use sapo_engine.Redis.Calls.{logged, save_args, save_call}
use sapo_engine.Redis.Writes.{looked}
use sapo_engine.Redis.Reindex.{index_or_none, index_of-IsInt64}

hash_get-hash_set :
    (f g v : String) (h : List (String × String))
    → hash_get f (hash_set g v h) ≡ (if str_eq g f then some v else hash_get f h)
unfolding hash_get hash_set
hash_get-hash_set f g v [] = refl
hash_get-hash_set f g v ((k, w) ∷ h) =
    ground (arith, hash_get-hash_set f g v h, eq_iff k g, eq_iff k f, eq_iff g f)

-- The four fields that the script writes, each as it was given.
module _ (blob version status updated : String) (h : List (String × String)) where
  abbrev four : List (String × String)
  four =
      hash_set "updated_ms" updated
        (hash_set "status" status (hash_set "version" version (hash_set "blob" blob h)))

  get-blob : hash_get "blob" four ≡ some blob
  get-blob = simp hash_get-hash_set

  get-version : hash_get "version" four ≡ some version
  get-version = simp hash_get-hash_set

  get-status : hash_get "status" four ≡ some status
  get-status = simp hash_get-hash_set

-- A time to live that is given as such leaves the hash alive now.
fresh :
    (now ttl : ℤ) (e : Entry)
    → e.expires_at_ms ≡ (if ltb_ℤ (pos 0) ttl then now +ℤ seconds ttl else pos 0)
    → has_expired now e ≡ false
unfolding has_expired
fresh now ttl e h = rw h (ground (arith, +ℤ_parts now (seconds ttl)))

module _ (json : JsonText) (o : Options) (c : SessionCheckpoint) (expected : ℤ) where
  pub written-live :
      (r : Mock) (key : String) (v : ℤ)
      → IsInt64 o.ttl_seconds
      → unexpired r.now_ms (some (written_hash r key (save_args json o c expected) v))
        ≡ some (written_hash r key (save_args json o c expected) v)
  unfolding unexpired written_hash
  written-live r key v h =
      rw
        (fresh r.now_ms o.ttl_seconds (written_hash r key (save_args json o c expected) v)
          (rw (parse_int-to_string o.ttl_seconds (pos 0) h) refl))
        refl

  pub written-Shows :
      (r : Mock) (key : String) (v : ℤ)
      → ReadsNumbers json.numbers
      → json.parse (serialize json o c) ≡ some (to_json c)
      → IsInt64 v
      → Shows json (written_hash r key (save_args json o c expected) v) (record c { version = v })
  unfolding written_hash is_hash
  written-Shows r key v reads prints h =
      let blob = serialize json o c in
      let version = to_string v in
      let status = to_string (pos (index_of c.status)) in
      let updated = to_string c.updated_ms in
      let before = (entry_for r key hash_kind).hash in
      record {
        shows_kind = refl;
        shows_blob = (
          blob,
          (
            c.version,
            (
              get-blob blob version status updated before,
              rw prints (from_json-to_json json.numbers reads c),
            ),
          ),
        );
        shows_version = get-version blob version status updated before;
        shows_status = get-status blob version status updated before;
        shows_range = h;
      }

-- Looking a session up, and the log of commands, leave what is live.
pub live-looked :
    (json : JsonText) (o : Options) (r : Mock) (c : SessionCheckpoint) (expected : ℤ) (j : String)
    → live (looked json o r c expected) j ≡ live r j
unfolding live
live-looked json o r c expected j =
    live-find_live (logged r (save_call json o c expected)) (session_key o c.session_id) j

pub controls-logged : (r : Mock) (args : List String) → SameControls r (logged r args)
controls-logged r args = record {
  same_now = refl;
  same_scripts = refl;
  same_down = refl;
  same_failures = refl;
}

pub controls-looked :
    (json : JsonText) (o : Options) (r : Mock) (c : SessionCheckpoint) (expected : ℤ)
    → SameControls r (looked json o r c expected)
controls-looked json o r c expected =
    let called = logged r (save_call json o c expected) in
    controls_trans (controls-logged r (save_call json o c expected))
      (controls-find_live called (session_key o c.session_id))

abbrev pub status_in : Option SessionCheckpoint → Option SessionStatus
status_in none = none
status_in (some c) = some c.status

pub previous-Shows :
    (json : JsonText) (e : Option Entry) (c : Option SessionCheckpoint)
    → ShowsBoth json e c
    → previous_status e ≡ index_or_none (status_in c)
unfolding previous_status previous_of
previous-Shows json none none h = refl
previous-Shows json (some e) (some c) h =
    rw h.shows_status
      (parse_int-to_string (pos (index_of c.status)) (negsuc 0) (index_of-IsInt64 c.status))
previous-Shows json none (some c) h = absurd h
previous-Shows json (some e) none h = absurd h

pub exists-Shows :
    (json : JsonText) (e : Option Entry) (c : Option SessionCheckpoint)
    → ShowsBoth json e c
    → exists_entry e ≡ StateStore.is_some c
unfolding exists_entry StateStore.is_some
exists-Shows json none none h = refl
exists-Shows json (some e) (some c) h = refl
exists-Shows json none (some c) h = absurd h
exists-Shows json (some e) none h = absurd h
