-- ===== src/Redis/Commands.antt =====
-- The commands on keys and strings of the in-memory double, in `dispatch` of
-- src/redis/MockRedisClient.cpp.
use Prim.Native.Char.{Char, char, code, IsScalar}
use sapo_engine.Prelude.{
  ℕ, suc, ◌+◌, ◌-◌, ◌*◌, ◌/◌, ◌%◌, String, Bool, true, false, not, ◌&&◌, Option, none, some, List,
  [], ◌∷◌, if◌then◌else◌, str_eq, length, drop, ltb, leb, arith,
}
use sapo_engine.Prelude.Int.{ℤ, pos, negsuc, ◌+ℤ◌, ◌-ℤ◌, ltb_ℤ, eqb_ℤ}
use sapo_engine.Prelude.Decimal.{parse_int}
use sapo_engine.Redis.Values.{RedisValue, nil, status, error, integer, bulk}
use sapo_engine.Redis.Keyspace.{
  Mock, Entry, string_kind, is_string, find_live, entry_for, put, delete,
}
use sapo_engine.Redis.Scripts.{at, exists_entry}

abbrev pub wrong_type : RedisValue
wrong_type = error "WRONGTYPE Operation against a key holding the wrong kind of value"

abbrev pub syntax_error : RedisValue
syntax_error = error "ERR syntax error"

pub letter-IsScalar : (k : ℕ) → IsScalar (65 + k % 26)
letter-IsScalar k = ground arith

unfoldable pub upper_char : Char → ℕ → Char
upper_char c n =
    if leb b'a' n && leb n b'z' then char (65 + (n - 97) % 26) (letter-IsScalar (n - 97)) else c

-- `std::toupper` on each character.
unfoldable pub upper : String → String
unfolding upper_char
upper String.[] = String.[]
upper (String.◌∷◌ c s) = String.◌∷◌ (upper_char c (code c)) (upper s)

unfoldable pub int_of : ℕ → RedisValue
int_of n = integer (pos n)

unfoldable pub exists_count : ℕ → Mock → List String → Mock × RedisValue
unfolding exists_entry find_live
exists_count total r [] = (r, integer (pos total))
exists_count total r (key ∷ keys) =
    let (r', found) = find_live r key in
    exists_count (if exists_entry found then suc total else total) r' keys

unfoldable pub delete_each : ℕ → Mock → List String → Mock × RedisValue
unfolding exists_entry find_live delete
delete_each total r [] = (r, integer (pos total))
delete_each total r (key ∷ keys) =
    let (r', found) = find_live r key in
    delete_each (if exists_entry found then suc total else total)
      (if exists_entry found then delete r' key else r') keys

-- `a / b` on integers rounds toward zero.
abbrev pub over_1000 : ℤ → ℤ
over_1000 (pos n) = pos (n / 1000)
over_1000 (negsuc n) = if leb 1000 (suc n) then negsuc (suc n / 1000 - 1) else pos 0

abbrev pub times_1000 : ℤ → ℤ
times_1000 (pos n) = pos (n * 1000)
times_1000 (negsuc n) = negsuc (n * 1000 + 999)

unfoldable pub ttl_of : Bool → Mock → Option Entry → RedisValue
ttl_of in_seconds r none = integer (negsuc 1)
ttl_of in_seconds r (some e) =
    let remaining = e.expires_at_ms -ℤ r.now_ms in
    if eqb_ℤ e.expires_at_ms (pos 0)
    then integer (negsuc 0)
    else integer (if in_seconds then over_1000 (remaining +ℤ pos 999) else remaining)

unfoldable pub ttl : Bool → Mock → List String → Mock × RedisValue
unfolding find_live ttl_of
ttl in_seconds r args =
    let (r', found) = find_live r (at args 1) in (r', ttl_of in_seconds r' found)

unfoldable pub expire_found : Bool → Mock → Option Entry → List String → Mock × RedisValue
unfolding parse_int put delete
expire_found in_seconds r none args = (r, integer (pos 0))
expire_found in_seconds r (some e) args =
    let amount = parse_int (at args 2) (negsuc 0) in
    if ltb_ℤ amount (pos 0) then (delete r (at args 1), integer (pos 1)) else (
      put r (at args 1) (record e {
        expires_at_ms = r.now_ms +ℤ (if in_seconds then times_1000 amount else amount);
      }),
      integer (pos 1),
    )

unfoldable pub expire : Bool → Mock → List String → Mock × RedisValue
unfolding find_live expire_found
expire in_seconds r args =
    let (r', found) = find_live r (at args 1) in expire_found in_seconds r' found args

unfoldable pub get_from : Option Entry → RedisValue
unfolding is_string
get_from none = nil
get_from (some e) = if is_string e.kind then bulk e.string_value else wrong_type

unfoldable pub get : Mock → List String → Mock × RedisValue
unfolding find_live get_from
get r args = let (r', found) = find_live r (at args 1) in (r', get_from found)

pub record SetFlags : Type 0 where
  pub only_if_absent : Bool
  pub only_if_present : Bool
  pub expiry_ms : ℤ

-- What the next word of `SET` is: a flag, or the amount of an `EX` or a `PX`.
pub data NextWord : Type 0 where
  flag_word seconds_word millis_word : NextWord

unfoldable pub read_flag : SetFlags → String → Option (NextWord × SetFlags)
unfolding upper
read_flag f word =
    let flag = upper word in
    if str_eq flag "NX"
    then some (flag_word, record f { only_if_absent = true })
    else if str_eq flag "XX"
    then some (flag_word, record f { only_if_present = true })
    else if str_eq flag "EX"
    then some (seconds_word, f)
    else if str_eq flag "PX"
    then some (millis_word, f)
    else none

unfoldable pub read_word : NextWord → SetFlags → String → Option (NextWord × SetFlags)
unfolding read_flag parse_int
read_word flag_word f word = read_flag f word
read_word seconds_word f word =
    some (flag_word, record f { expiry_ms = times_1000 (parse_int word (pos 0)) })
read_word millis_word f word = some (flag_word, record f { expiry_ms = parse_int word (pos 0) })

-- An amount that is missing is 0.
unfoldable pub last_word : NextWord → SetFlags → SetFlags
last_word flag_word f = f
last_word _ f = record f { expiry_ms = pos 0 }

abbrev pub bind_words :
    Option (NextWord × SetFlags) → (NextWord → SetFlags → Option SetFlags) → Option SetFlags
bind_words none k = none
bind_words (some (next, f)) k = k next f

unfoldable pub read_words : List String → NextWord → SetFlags → Option SetFlags
unfolding read_word last_word
read_words [] next f = some (last_word next f)
read_words (word ∷ words) next f = bind_words (read_word next f word) (read_words words)

abbrev pub no_flags : SetFlags
no_flags = record { only_if_absent = false; only_if_present = false; expiry_ms = pos 0 }

unfoldable pub set_string : Mock → Bool → Option SetFlags → List String → Mock × RedisValue
unfolding entry_for put
set_string r exists none args = (r, syntax_error)
set_string r exists (some f) args =
    if f.only_if_absent && exists
    then (r, nil)
    else if f.only_if_present && not exists
    then (r, nil)
    else (
      put r (at args 1) (record (entry_for r (at args 1) string_kind) {
        string_value = at args 2;
        hash = [];
        zset = [];
        expires_at_ms = f.expiry_ms;
      }),
      status "OK",
    )

unfoldable pub set : Mock → List String → Mock × RedisValue
unfolding find_live exists_entry read_words set_string
set r args =
    let (r', existing) = find_live r (at args 1) in
    if ltb (length args) 3
    then (r, syntax_error)
    else set_string r' (exists_entry existing) (read_words (drop 3 args) flag_word no_flags) args
