-- ===== src/Redis/Ranges.antt =====
-- Ranges of a sorted set, `ZRANGE` and `ZREVRANGE` of src/redis/MockRedisClient.cpp.
use Prim.Native.String.{compare}
use Prim.Native.Nat.{Ordering}
use sapo_engine.Prelude.{
  ℕ, suc, String, Bool, true, false, ◌&&◌, ◌||◌, Option, none, some, List, [], ◌∷◌, if◌then◌else◌,
  length, take, drop,
}
use sapo_engine.Prelude.Map.{Assoc}
use sapo_engine.Prelude.Int.{ℤ, pos, pos_part, ◌+ℤ◌, ◌-ℤ◌, ltb_ℤ, leb_ℤ, eqb_ℤ}
use sapo_engine.Prelude.Decimal.{parse_int}
use sapo_engine.Redis.Values.{RedisValue, Replies, no_items, item, bulk, array}
use sapo_engine.Redis.Keyspace.{Mock, Entry, is_zset, find_live}
use sapo_engine.Redis.Scripts.{at}
use sapo_engine.Redis.Commands.{wrong_type}

abbrev pub text_before : String → String → Bool
text_before a b = elim (compare a b) [ Ordering.lt ↦ true | _ ↦ false ]

-- The order by score and then by member.
unfoldable pub before : String × ℤ → String × ℤ → Bool
before (a, m) (b, n) = ltb_ℤ m n || (eqb_ℤ m n && text_before a b)

unfoldable pub insert_by_score : String × ℤ → Assoc ℤ → Assoc ℤ
unfolding before
insert_by_score p [] = p ∷ []
insert_by_score p (q ∷ rest) =
    let more = insert_by_score p rest in if before p q then p ∷ q ∷ rest else q ∷ more

unfoldable pub by_score : Assoc ℤ → Assoc ℤ
unfolding insert_by_score
by_score [] = []
by_score (p ∷ rest) = insert_by_score p (by_score rest)

unfoldable pub reverse : Assoc ℤ → Assoc ℤ → Assoc ℤ
reverse [] done = done
reverse (p ∷ rest) done = reverse rest (p ∷ done)

abbrev pub normalise : ℕ → ℤ → ℤ
normalise size index = if ltb_ℤ index (pos 0) then index +ℤ pos size else index

abbrev pub at_least_zero : ℤ → ℤ
at_least_zero i = if ltb_ℤ i (pos 0) then pos 0 else i

abbrev pub below_size : ℕ → ℤ → ℤ
below_size size i = if leb_ℤ (pos size) i then pos size -ℤ pos 1 else i

-- The first index of a range, and the one after its last.
unfoldable pub resolve_range : ℤ → ℤ → ℕ → ℕ × ℕ
resolve_range start stop size =
    let first = at_least_zero (normalise size start) in
    let last = below_size size (normalise size stop) in
    (
      if ltb_ℤ last first || leb_ℤ (pos size) first then 0 else pos_part first,
      if ltb_ℤ last first then 0 else suc (pos_part last),
    )

unfoldable pub members_of : Assoc ℤ → Replies
members_of [] = no_items
members_of ((member, score) ∷ rest) = item (bulk member) (members_of rest)

unfoldable pub range_of : Bool → Option Entry → List String → RedisValue
unfolding is_zset by_score reverse resolve_range members_of parse_int
range_of backwards none args = array no_items
range_of backwards (some e) args =
    let members = if backwards then reverse (by_score e.zset) [] else by_score e.zset in
    let (first, after) =
      resolve_range (parse_int (at args 2) (pos 0)) (parse_int (at args 3) (pos 0))
        (length members) in
    if is_zset e.kind then array (members_of (drop first (take after members))) else wrong_type

unfoldable pub zrange : Bool → Mock → List String → Mock × RedisValue
unfolding find_live range_of
zrange backwards r args =
    let (r', found) = find_live r (at args 1) in (r', range_of backwards found args)
