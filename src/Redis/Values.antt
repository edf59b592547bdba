-- ===== src/Redis/Values.antt =====
-- Replies and clients: `RedisValue` and `IRedisClient` of src/redis/IRedisClient.hpp and
-- src/redis/IRedisClient.cpp. A call that throws has no reply, and leaves a state.
use sapo_engine.Prelude.{
  ℕ, suc, String, Bool, true, false, ◌||◌, Option, none, some, List, [], ◌∷◌, if◌then◌else◌, str_eq,
}
use sapo_engine.Prelude.Int.{ℤ}
use sapo_engine.Prelude.Decimal.{parse_int}

mutual
  pub data RedisValue : Type 0 where
    nil : RedisValue
    status : String → RedisValue
    error : String → RedisValue
    integer : ℤ → RedisValue
    bulk : String → RedisValue
    array : Replies → RedisValue

  pub data Replies : Type 0 where
    no_items : Replies
    item : RedisValue → Replies → Replies

abbrev pub item_count : Replies → ℕ
item_count no_items = 0
item_count (item r rs) = suc (item_count rs)

unfoldable pub to_int : RedisValue → ℤ → ℤ
to_int (integer n) fallback = n
to_int (bulk text) fallback = parse_int text fallback
to_int (status text) fallback = parse_int text fallback
to_int _ fallback = fallback

unfoldable pub to_text : RedisValue → Option String
to_text (bulk text) = some text
to_text (status text) = some text
to_text (error text) = some text
to_text _ = none

unfoldable pub to_array : RedisValue → Replies
to_array (array items) = items
to_array _ = no_items

unfoldable pub is_nil : RedisValue → Bool
is_nil nil = true
is_nil _ = false

unfoldable pub is_error : RedisValue → Bool
is_error (error text) = true
is_error _ = false

unfoldable pub is_ok_status : RedisValue → Bool
is_ok_status (status text) = str_eq text "OK" || str_eq text "ok"
is_ok_status _ = false

-- A method that may throw: the state that it leaves, and its result, none where it throws.
abbrev pub Outcome : Type 0 → Type 0 → Type 0
Outcome S A = S × Option A

infixl 5 ◌>>=◌
abbrev pub ◌>>=◌ : {S A B : Type 0} → Outcome S A → (S × A → Outcome S B) → Outcome S B
(s, some a) >>= k = k (s, a)
(s, none) >>= k = (s, none)

-- `IRedisClient`, for the two calls that the store makes of it.
pub record RedisClient (S : Type 0) : Type 0 where
  pub command : S → List String → Outcome S RedisValue
  pub pipeline : S → List (List String) → Outcome S (List RedisValue)

-- `throwIfError`
unfoldable pub throw_if_error : {S : Type 0} → S × RedisValue → Outcome S RedisValue
throw_if_error (s, reply) = if is_error reply then (s, none) else (s, some reply)

any_error : List RedisValue → Bool
any_error [] = false
any_error (r ∷ rs) = is_error r || any_error rs

-- `throwIfError` on each reply of a batch.
unfoldable pub throw_if_any_error : {S : Type 0} → S × List RedisValue → Outcome S (List RedisValue)
unfolding any_error
throw_if_any_error (s, replies) = if any_error replies then (s, none) else (s, some replies)
