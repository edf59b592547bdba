-- ===== src/Redis/SortedSets.antt =====
-- The commands on sorted sets of the in-memory double, in `dispatch` of
-- src/redis/MockRedisClient.cpp.
use sapo_engine.Prelude.{
  ℕ, suc, ◌+◌, ◌-◌, String, Bool, true, false, Option, none, some, List, [], ◌∷◌, if◌then◌else◌,
  length, drop,
}
use sapo_engine.Prelude.Map.{Assoc, lookup, insert, erase}
use sapo_engine.Prelude.Int.{ℤ, pos}
use sapo_engine.Prelude.Decimal.{to_string, parse_int}
use sapo_engine.Redis.Values.{RedisValue, nil, integer, bulk}
use sapo_engine.Redis.Keyspace.{
  Mock, Entry, zset_kind, is_zset, find_live, entry_for, put, put_or_delete,
}
use sapo_engine.Redis.Scripts.{at}
use sapo_engine.Redis.Commands.{wrong_type, syntax_error}
use sapo_engine.Redis.Hashes.{is_other_kind, bad_pairs}

unfoldable pub has_score : Option ℤ → Bool
has_score none = false
has_score (some n) = true

-- The pairs of `ZADD`, with the number of new members.
unfoldable pub add_scores : ℕ → Assoc ℤ → List String → ℕ × Assoc ℤ
unfolding lookup insert has_score parse_int
add_scores added zset [] = (added, zset)
add_scores added zset (score ∷ []) = (added, zset)
add_scores added zset (score ∷ member ∷ rest) =
    add_scores (if has_score (lookup member zset) then added else suc added)
      (insert member (parse_int score (pos 0)) zset) rest

unfoldable pub zadd_command : Mock → List String → Mock × RedisValue
unfolding find_live is_other_kind is_zset entry_for add_scores put
zadd_command r args =
    let (r', existing) = find_live r (at args 1) in
    let e = entry_for r' (at args 1) zset_kind in
    let (added, zset) = add_scores 0 e.zset (drop 2 args) in
    if bad_pairs args
    then (r, syntax_error)
    else if is_other_kind is_zset existing
    then (r', wrong_type)
    else (put r' (at args 1) (record e { zset = zset }), integer (pos added))

-- The members of `ZREM`, with the number of removed ones.
unfoldable pub delete_members : ℕ → Assoc ℤ → List String → ℕ × Assoc ℤ
unfolding erase
delete_members removed zset [] = (removed, zset)
delete_members removed zset (member ∷ members) =
    delete_members (removed + (length zset - length (erase member zset))) (erase member zset)
      members

unfoldable pub zrem_members : Mock → Option Entry → List String → Mock × RedisValue
unfolding is_zset delete_members put_or_delete
zrem_members r none args = (r, integer (pos 0))
zrem_members r (some e) args =
    let (removed, zset) = delete_members 0 e.zset (drop 2 args) in
    if is_zset e.kind
    then (put_or_delete r (at args 1) (record e { zset = zset }), integer (pos removed))
    else (r, integer (pos 0))

unfoldable pub zrem_command : Mock → List String → Mock × RedisValue
unfolding find_live zrem_members
zrem_command r args = let (r', found) = find_live r (at args 1) in zrem_members r' found args

unfoldable pub cardinality : Option Entry → RedisValue
unfolding is_zset
cardinality none = integer (pos 0)
cardinality (some e) = if is_zset e.kind then integer (pos (length e.zset)) else wrong_type

unfoldable pub zcard : Mock → List String → Mock × RedisValue
unfolding find_live cardinality
zcard r args = let (r', found) = find_live r (at args 1) in (r', cardinality found)

unfoldable pub score_text : Option ℤ → RedisValue
unfolding to_string
score_text none = nil
score_text (some n) = bulk (to_string n)

unfoldable pub score_of : Option Entry → String → RedisValue
unfolding is_zset score_text lookup
score_of none member = nil
score_of (some e) member = if is_zset e.kind then score_text (lookup member e.zset) else nil

unfoldable pub zscore : Mock → List String → Mock × RedisValue
unfolding find_live score_of
zscore r args = let (r', found) = find_live r (at args 1) in (r', score_of found (at args 2))
