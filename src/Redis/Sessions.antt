-- ===== src/Redis/Sessions.antt =====
-- The sessions that the double of src/redis/MockRedisClient.cpp holds for the store of
-- src/redis/RedisStateStore.cpp, as the in-memory store of src/runtime/StateStore.cpp has them.
use Prim.Native.String.{◌++◌}
use text.Mathlib.TextLemmas.{append_cancel_left}
use sapo_engine.Prelude.{
  String, ◌≡◌, ◌≢◌, refl, ◌∙◌, true, false, Option, none, some, str_eq, eq_iff, arith,
}
use sapo_engine.Prelude.Map.{lookup}
use sapo_engine.Prelude.Int.{ℤ, pos}
use sapo_engine.Prelude.Decimal.{to_string, parse_int-to_string, IsInt64}
use sapo_engine.StateStore
use sapo_engine.StateStore.{SessionCheckpoint, SessionStatus, index_of}
use sapo_engine.Redis.Keyspace.{Mock, Entry, is_hash, hash_get}
use sapo_engine.Redis.Scripts.{sapo_scripts, stored_version, version_text}
use sapo_engine.Redis.Store.{read_document}
use sapo_engine.Redis.Layout.{Options, JsonText, session_key, index_key}
use sapo_engine.Redis.Live.{live, SameControls}

-- The double answers: it is up, no failure is due, and it has the mirrors of the two scripts.
pub record IsUp (r : Mock) : Type 0 where
  pub up_running : r.is_down ≡ false
  pub up_healthy : r.failures_left ≡ 0
  pub up_scripts : r.scripts ≡ sapo_scripts

pub IsUp-controls : {r r' : Mock} → SameControls r r' → IsUp r → IsUp r'
IsUp-controls c u = record {
  up_running = c.same_down ∙ u.up_running;
  up_healthy = c.same_failures ∙ u.up_healthy;
  up_scripts = c.same_scripts ∙ u.up_scripts;
}

-- No session hash has the key of an index.
abbrev pub IsSeparate : Options → Type 0
IsSeparate o = (id : String) (wanted : Option SessionStatus) → index_key o wanted ≢ session_key o id

-- The hash of a session: its document without the version, the version, and the status.
pub record Shows (json : JsonText) (e : Entry) (c : SessionCheckpoint) : Type 0 where
  pub shows_kind : is_hash e.kind ≡ true
  pub shows_blob :
      (b : String) × ((w : ℤ) × ((hash_get "blob" e.hash ≡ some b)
          × (read_document json (json.parse b) ≡ some (record c { version = w }))))
  pub shows_version : hash_get "version" e.hash ≡ some (to_string c.version)
  pub shows_status : hash_get "status" e.hash ≡ some (to_string (pos (index_of c.status)))
  pub shows_range : IsInt64 c.version

abbrev pub ShowsBoth : JsonText → Option Entry → Option SessionCheckpoint → Type 0
ShowsBoth json none none = Unit
ShowsBoth json (some e) (some c) = Shows json e c
ShowsBoth json none (some c) = ⊥
ShowsBoth json (some e) none = ⊥

-- Under every session's key is what the in-memory store has for the session.
abbrev pub Represents : JsonText → Options → Mock → StateStore.Store → Type 0
Represents json o r m = (id : String) → ShowsBoth json (live r (session_key o id)) (lookup id m)

pub version-Shows :
    (json : JsonText) (e : Option Entry) (c : Option SessionCheckpoint)
    → ShowsBoth json e c
    → stored_version e ≡ StateStore.version_in c
unfolding stored_version version_text StateStore.version_in
version-Shows json none none h = refl
version-Shows json (some e) (some c) h =
    rw h.shows_version (parse_int-to_string c.version (pos 0) h.shows_range)
version-Shows json none (some c) h = absurd h
version-Shows json (some e) none h = absurd h

-- Two sessions' keys agree just where their identifiers do.
pub session_key_eq :
    (o : Options) (a b : String) → str_eq (session_key o a) (session_key o b) ≡ str_eq a b
unfolding session_key
session_key_eq o a b = ground (
  arith,
  eq_iff a b,
  eq_iff (o.key_prefix ++ a) (o.key_prefix ++ b),
  append_cancel_left o.key_prefix a b,
)
