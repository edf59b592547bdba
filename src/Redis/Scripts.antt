-- ===== src/Redis/Scripts.antt =====
-- The two Lua scripts of src/redis/RedisStateStore.cpp, and the C++ that stands for them in
-- src/redis/MockRedisClient.cpp: `evaluate` and the handlers of `installSapoScripts`.
use text.Mathlib.Text.{find?}
use sapo_engine.Prelude.{
  ℕ, ◌+◌, ◌*◌, String, Bool, true, false, not, ◌&&◌, ◌||◌, Option, none, some, List, [], ◌∷◌,
  if◌then◌else◌, str_eq, length, ◌==◌, take, drop, get_elem?, ltb, leb,
}
use sapo_engine.Prelude.Int.{ℤ, pos, negsuc, pos_part, ◌+ℤ◌, ltb_ℤ, leb_ℤ, eqb_ℤ}
use sapo_engine.Prelude.Decimal.{to_string, parse_int}
use sapo_engine.Redis.Values.{RedisValue, no_items, item, error, integer, array}
use sapo_engine.Redis.Keyspace.{
  Mock, Entry, Mirror, save_mirror, release_mirror, hash_kind, is_string, find_live, entry_for, put,
  delete, hash_set, hash_get, zadd, zrem,
}

abbrev pub save_script : String
save_script =
    "-- sapo:session.save v1\n-- KEYS[1]     session hash\n-- KEYS[2]     idx:all              (present only when atomic_index is true)\n-- KEYS[3..8]  idx:<status>         (enum order; present only when atomic_index)\n-- ARGV[1] blob JSON   ARGV[2] expected version (-1 = unconditional)\n-- ARGV[3] new status index          ARGV[4] updated_ms (index score)\n-- ARGV[5] ttl seconds (0 = none)    ARGV[6] session id (index member)\n-- returns {code, version, old_status}; code 1=written 0=conflict -1=gone\nlocal raw = redis.call('HGET', KEYS[1], 'version')\nlocal exists = raw ~= false\nlocal current = 0\nif exists then current = tonumber(raw) end\nlocal expected = tonumber(ARGV[2])\nif expected >= 0 and current ~= expected then\n  if exists then return {0, current, -1} end\n  return {-1, 0, -1}\nend\nlocal old_status = redis.call('HGET', KEYS[1], 'status')\nlocal previous = -1\nif old_status ~= false then previous = tonumber(old_status) end\nlocal next_version = current + 1\nredis.call('HSET', KEYS[1], 'blob', ARGV[1], 'version', next_version, 'status', ARGV[3], 'updated_ms', ARGV[4])\nlocal ttl = tonumber(ARGV[5])\nif ttl > 0 then redis.call('EXPIRE', KEYS[1], ttl) end\nif #KEYS >= 8 then\n  local wanted = tonumber(ARGV[3])\n  if previous >= 0 and previous ~= wanted then redis.call('ZREM', KEYS[3 + previous], ARGV[6]) end\n  redis.call('ZADD', KEYS[3 + wanted], ARGV[4], ARGV[6])\n  redis.call('ZADD', KEYS[2], ARGV[4], ARGV[6])\nend\nreturn {1, next_version, previous}\n"

abbrev pub release_claim_script : String
release_claim_script =
    "-- sapo:claim.release v1\n-- KEYS[1] claim key, ARGV[1] token. Deletes only if the token still owns it,\n-- so a late release cannot drop a claim another caller took after expiry.\nif redis.call('GET', KEYS[1]) == ARGV[1] then return redis.call('DEL', KEYS[1]) end\nreturn 0\n"

abbrev pub sapo_scripts : List (String × Mirror)
sapo_scripts =
    ("-- sapo:session.save v1", save_mirror) ∷ ("-- sapo:claim.release v1", release_mirror) ∷ []

-- What the vector holds at an index, the empty text out of range.
abbrev pub text_or_empty : Option String → String
text_or_empty none = ""
text_or_empty (some s) = s

abbrev pub at : List String → ℕ → String
at args i = text_or_empty (get_elem? args i)

unfoldable pub version_text : Option String → String
version_text none = "0"
version_text (some s) = s

unfoldable pub stored_version : Option Entry → ℤ
unfolding version_text hash_get parse_int
stored_version none = pos 0
stored_version (some e) = parse_int (version_text (hash_get "version" e.hash)) (pos 0)

unfoldable pub previous_of : Option String → ℤ
unfolding parse_int
previous_of none = negsuc 0
previous_of (some s) = parse_int s (negsuc 0)

unfoldable pub previous_status : Option Entry → ℤ
unfolding previous_of hash_get
previous_status none = negsuc 0
previous_status (some e) = previous_of (hash_get "status" e.hash)

-- `ttl * 1000`, for a `ttl` that is not negative.
abbrev pub seconds : ℤ → ℤ
seconds ttl = pos (pos_part ttl * 1000)

-- The session hash that the script writes.
unfoldable pub written_hash : Mock → String → List String → ℤ → Entry
unfolding entry_for hash_set to_string parse_int
written_hash r key argv next_version =
    let e = entry_for r key hash_kind in
    let ttl = parse_int (at argv 4) (pos 0) in
    record e {
      string_value = "";
      zset = [];
      hash = hash_set "updated_ms" (at argv 3) (
          hash_set "status" (at argv 2)
            (hash_set "version" (to_string next_version) (hash_set "blob" (at argv 0) e.hash)));
      expires_at_ms = if ltb_ℤ (pos 0) ttl then r.now_ms +ℤ seconds ttl else pos 0;
    }

abbrev pub status_key : List String → ℤ → String
status_key keys status = at keys (pos_part (pos 2 +ℤ status))

-- The index is part of the script when its keys are given.
unfoldable pub index_session : Mock → List String → List String → ℤ → Mock
index_session r keys argv previous =
    let wanted = parse_int (at argv 2) (pos 0) in
    let score = parse_int (at argv 3) (pos 0) in
    let member = at argv 5 in
    let cleared =
      if leb_ℤ (pos 0) previous && not (eqb_ℤ previous wanted)
      then zrem r (status_key keys previous) member
      else r in
    zadd (zadd cleared (status_key keys wanted) score member) (at keys 1) score member

unfoldable pub exists_entry : Option Entry → Bool
exists_entry none = false
exists_entry (some e) = true

abbrev pub three : ℤ → ℤ → ℤ → RedisValue
three code version previous =
    array (item (integer code) (item (integer version) (item (integer previous) no_items)))

-- The mirror of the save script, on an existing entry or none.
unfoldable pub save_found : Mock → Option Entry → List String → List String → Mock × RedisValue
unfolding stored_version previous_status exists_entry parse_int written_hash put index_session
save_found r existing keys argv =
    let current = stored_version existing in
    let expected = parse_int (at argv 1) (negsuc 0) in
    let next_version = current +ℤ pos 1 in
    let previous = previous_status existing in
    let stored = put r (at keys 0) (written_hash r (at keys 0) argv next_version) in
    if leb_ℤ (pos 0) expected && not (eqb_ℤ current expected)
    then (
      r,
      three (if exists_entry existing then pos 0 else negsuc 0)
          (if exists_entry existing then current else pos 0) (negsuc 0),
    )
    else (
      if leb 8 (length keys) then index_session stored keys argv previous else stored,
      three (pos 1) next_version previous,
    )

unfoldable pub mirror_save : Mock → List String → List String → Mock × RedisValue
unfolding find_live save_found
mirror_save r keys argv =
    if length keys == 0 || ltb (length argv) 6
    then (r, error "ERR sapo save script: bad KEYS/ARGV count")
    else (let (r', existing) = find_live r (at keys 0) in save_found r' existing keys argv)

unfoldable pub release_found : Mock → Option Entry → List String → List String → Mock × RedisValue
unfolding is_string delete
release_found r none keys argv = (r, integer (pos 0))
release_found r (some e) keys argv =
    if not (is_string e.kind)
    then (r, integer (pos 0))
    else if not (str_eq e.string_value (at argv 0))
    then (r, integer (pos 0))
    else (delete r (at keys 0), integer (pos 1))

unfoldable pub mirror_release : Mock → List String → List String → Mock × RedisValue
unfolding find_live release_found
mirror_release r keys argv =
    if length keys == 0 || length argv == 0
    then (r, error "ERR sapo claim script: bad args")
    else (let (r', found) = find_live r (at keys 0) in release_found r' found keys argv)

unfoldable pub run_mirror : Mirror → Mock → List String → List String → Mock × RedisValue
unfolding mirror_save mirror_release
run_mirror save_mirror = mirror_save
run_mirror release_mirror = mirror_release

unfoldable pub is_found : Option ℕ → Bool
is_found none = false
is_found (some i) = true

-- The first registered script whose marker the text has in it.
unfoldable pub run_script :
    List (String × Mirror) → Mock → String → List String → List String → Mock × RedisValue
unfolding is_found run_mirror
run_script [] r script keys argv = (
  r,
  error
      "ERR MockRedisClient has no mirror for this script; call onScript() or installSapoScripts(). Real Lua execution is covered by the opt-in live-server tests (SAPO_REDIS_URL).",
)
run_script ((marker, mirror) ∷ rest) r script keys argv =
    let later = run_script rest r script keys argv in
    if is_found (find? script marker) then run_mirror mirror r keys argv else later

unfoldable pub evaluate : Mock → List String → Mock × RedisValue
unfolding run_script parse_int
evaluate r args =
    let numkeys = parse_int (at args 2) (negsuc 0) in
    if ltb (length args) 3
    then (r, error "ERR wrong number of arguments for 'eval' command")
    else if ltb_ℤ numkeys (pos 0) || ltb (length args) (pos_part numkeys + 3)
    then (r, error "ERR invalid number of keys for 'eval' command")
    else run_script r.scripts r (at args 1) (take (pos_part numkeys) (drop 3 args))
        (drop (pos_part numkeys + 3) args)
