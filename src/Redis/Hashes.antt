-- ===== src/Redis/Hashes.antt =====
-- The commands on hashes of the in-memory double, in `dispatch` of
-- src/redis/MockRedisClient.cpp.
use sapo_engine.Prelude.{
  ℕ, suc, ◌+◌, ◌-◌, ◌%◌, String, Bool, true, false, not, ◌||◌, Option, none, some, List, [], ◌∷◌,
  if◌then◌else◌, length, ◌==◌, drop, ltb,
}
use sapo_engine.Prelude.Map.{Assoc, erase}
use sapo_engine.Prelude.Int.{pos}
use sapo_engine.Redis.Values.{RedisValue, Replies, no_items, item, nil, integer, bulk, array}
use sapo_engine.Redis.Keyspace.{
  Mock, Entry, EntryKind, hash_kind, is_hash, find_live, entry_for, put, delete, hash_set, hash_get,
  is_empty,
}
use sapo_engine.Redis.Scripts.{at}
use sapo_engine.Redis.Commands.{wrong_type, syntax_error}

unfoldable pub bulk_or_nil : Option String → RedisValue
bulk_or_nil none = nil
bulk_or_nil (some s) = bulk s

unfoldable pub hash_field : Option Entry → String → RedisValue
unfolding is_hash bulk_or_nil hash_get
hash_field none field = nil
hash_field (some e) field =
    if is_hash e.kind then bulk_or_nil (hash_get field e.hash) else wrong_type

unfoldable pub hget : Mock → List String → Mock × RedisValue
unfolding find_live hash_field
hget r args = let (r', found) = find_live r (at args 1) in (r', hash_field found (at args 2))

unfoldable pub fields_of : Option Entry → List String → Replies
unfolding bulk_or_nil hash_get
fields_of found [] = no_items
fields_of none (field ∷ fields) = item nil (fields_of none fields)
fields_of (some e) (field ∷ fields) =
    item (bulk_or_nil (hash_get field e.hash)) (fields_of (some e) fields)

unfoldable pub is_other_kind : (EntryKind → Bool) → Option Entry → Bool
is_other_kind p none = false
is_other_kind p (some e) = not (p e.kind)

unfoldable pub hmget : Mock → List String → Mock × RedisValue
unfolding find_live fields_of is_other_kind is_hash
hmget r args =
    let (r', found) = find_live r (at args 1) in
    (r', if is_other_kind is_hash found then wrong_type else array (fields_of found (drop 2 args)))

unfoldable pub has_text : Option String → Bool
has_text none = false
has_text (some s) = true

-- The pairs of `HSET`, with the number of new fields.
unfoldable pub set_fields : ℕ → Assoc String → List String → ℕ × Assoc String
unfolding hash_get hash_set has_text
set_fields added hash [] = (added, hash)
set_fields added hash (field ∷ []) = (added, hash)
set_fields added hash (field ∷ value ∷ rest) =
    set_fields (if has_text (hash_get field hash) then added else suc added)
      (hash_set field value hash) rest

abbrev pub bad_pairs : List String → Bool
bad_pairs args = ltb (length args) 4 || not ((length args - 2) % 2 == 0)

unfoldable pub hset : Mock → List String → Mock × RedisValue
unfolding find_live is_other_kind is_hash entry_for set_fields put
hset r args =
    let (r', existing) = find_live r (at args 1) in
    let e = entry_for r' (at args 1) hash_kind in
    let (added, hash) = set_fields 0 e.hash (drop 2 args) in
    if bad_pairs args
    then (r, syntax_error)
    else if is_other_kind is_hash existing
    then (r', wrong_type)
    else (put r' (at args 1) (record e { hash = hash }), integer (pos added))

unfoldable pub pairs_of : Assoc String → Replies
pairs_of [] = no_items
pairs_of ((field, value) ∷ rest) = item (bulk field) (item (bulk value) (pairs_of rest))

unfoldable pub all_fields : Option Entry → RedisValue
unfolding is_hash pairs_of
all_fields none = array no_items
all_fields (some e) = if is_hash e.kind then array (pairs_of e.hash) else wrong_type

unfoldable pub hgetall : Mock → List String → Mock × RedisValue
unfolding find_live all_fields
hgetall r args = let (r', found) = find_live r (at args 1) in (r', all_fields found)

-- The fields of `HDEL`, with the number of removed ones.
unfoldable pub delete_fields : ℕ → Assoc String → List String → ℕ × Assoc String
unfolding erase
delete_fields removed hash [] = (removed, hash)
delete_fields removed hash (field ∷ fields) =
    delete_fields (removed + (length hash - length (erase field hash))) (erase field hash) fields

unfoldable pub hdel_from : Mock → Option Entry → List String → Mock × RedisValue
unfolding is_hash delete_fields is_empty delete put
hdel_from r none args = (r, integer (pos 0))
hdel_from r (some e) args =
    let (removed, hash) = delete_fields 0 e.hash (drop 2 args) in
    if is_hash e.kind
    then (
      if is_empty hash then delete r (at args 1) else put r (at args 1) (record e { hash = hash }),
      integer (pos removed),
    )
    else (r, integer (pos 0))

unfoldable pub hdel : Mock → List String → Mock × RedisValue
unfolding find_live hdel_from
hdel r args = let (r', found) = find_live r (at args 1) in hdel_from r' found args
