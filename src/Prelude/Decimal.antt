-- ===== src/Prelude/Decimal.antt =====
-- Integers as decimal text: `std::to_string`, and `std::stoll` where the whole text has to be one
-- number, as `parseInt` of src/redis/MockRedisClient.cpp calls it.
use Prim.Native.Nat.{ℕ, zero, suc, ◌+◌, ◌-◌, ◌*◌, ◌/◌, ◌%◌, ◌^◌, ◌≤◌, ◌<◌}
use Prim.Native.Char.{Char, char, code, IsScalar}
use Prim.Native.String.{String}
use mathlib.Core.Path.{◌≡◌, refl}
use mathlib.Core.Bool.{Bool, ◌&&◌, ◌||◌}
use mathlib.Core.Option.{Option, none, some}
use native.Mathlib.Omega.{arith}
use sapo_engine.Prelude.Tests.{ltb, leb, ◌==◌, if◌then◌else◌, if_both}
use sapo_engine.Prelude.Int.{ℤ, pos, negsuc}

pub digit-IsScalar : (n : ℕ) → IsScalar (48 + n % 10)
digit-IsScalar n = ground arith

-- The last digit of a number.
unfoldable pub digit : ℕ → Char
digit n = char (48 + n % 10) (digit-IsScalar n)

unfoldable pub is_digit : ℕ → Bool
is_digit c = leb b'0' c && leb c b'9'

-- The digits of a number before a text. The fuel is a bound on the number of digits.
unfoldable pub digits : ℕ → ℕ → String → String
unfolding digit
digits zero n s = s
digits (suc f) n s =
    let more = digits f (n / 10) (String.◌∷◌ (digit n) s) in
    if ltb n 10 then String.◌∷◌ (digit n) s else more

-- A 64-bit integer has at most 19 digits; a number has at most one more than its own value.
unfoldable pub decimal : ℕ → String
unfolding digits
decimal n = digits (suc n) n ""

unfoldable pub to_string : ℤ → String
unfolding decimal
to_string (pos n) = decimal n
to_string (negsuc n) = String.◌∷◌ (char b'-' tt) (decimal (suc n))

unfoldable pub is_space : ℕ → Bool
is_space c = (leb 9 c && leb c 13) || c == 32

-- The digits up to the end of the text.
unfoldable pub read_digits : ℕ → String → Option ℕ
unfolding is_digit
read_digits total String.[] = some total
read_digits total (String.◌∷◌ c s) =
    let rest = read_digits (total * 10 + (code c - b'0')) s in
    if is_digit (code c) then rest else none

unfoldable pub read_unsigned : String → Option ℕ
unfolding read_digits is_digit
read_unsigned String.[] = none
read_unsigned (String.◌∷◌ c s) = read_digits 0 (String.◌∷◌ c s)

unfoldable pub in_range : Option ℕ → Option ℤ
in_range none = none
in_range (some n) = if ltb n (2 ^ 63) then some (pos n) else none

unfoldable pub in_negative_range : Option ℕ → Option ℤ
in_negative_range none = none
in_negative_range (some zero) = some (pos 0)
in_negative_range (some (suc n)) = if ltb n (2 ^ 63) then some (negsuc n) else none

unfoldable pub read_signed : String → Option ℤ
unfolding read_unsigned in_range in_negative_range
read_signed String.[] = none
read_signed (String.◌∷◌ c s) =
    if code c == b'-'
    then in_negative_range (read_unsigned s)
    else if code c == b'+'
    then in_range (read_unsigned s)
    else in_range (read_unsigned (String.◌∷◌ c s))

unfoldable pub read_int : String → Option ℤ
unfolding read_signed is_space
read_int String.[] = none
read_int (String.◌∷◌ c s) =
    let rest = read_int s in if is_space (code c) then rest else read_signed (String.◌∷◌ c s)

unfoldable pub or_fallback : ℤ → Option ℤ → ℤ
or_fallback fallback none = fallback
or_fallback fallback (some n) = n

unfoldable pub parse_int : String → ℤ → ℤ
unfolding or_fallback read_int
parse_int text fallback = or_fallback fallback (read_int text)

-- The values of `int64_t`.
abbrev pub IsInt64 : ℤ → Type 0
IsInt64 (pos n) = n < 2 ^ 63
IsInt64 (negsuc n) = n < 2 ^ 63

read-digit :
    (total n : ℕ) (s : String)
    → read_digits total (String.◌∷◌ (digit n) s) ≡ read_digits (total * 10 + n % 10) s
unfolding read_digits is_digit digit
read-digit total n s = ground arith

read-digits : (f n : ℕ) (s : String) → n < f → read_digits 0 (digits f n s) ≡ read_digits n s
unfolding digits
read-digits zero n s h = absurd (omega arith)
read-digits (suc f) n s h =
    if_both (λ t. read_digits 0 t ≡ read_digits n s) (ltb n 10) _ _
      (λ e. rw (read-digit 0 n s) (ground arith))
      (λ e.
        rw (read-digits f (n / 10) (String.◌∷◌ (digit n) s) (ground arith), read-digit (n / 10) n s)
          (ground arith))

-- A text that begins with a digit.
abbrev StartsWithDigit : String → Type 0
StartsWithDigit s =
    (c : Char) × ((t : String) × ((s ≡ String.◌∷◌ c t) × (48 ≤ code c) × (code c ≤ 57)))

digit-StartsWithDigit : (n : ℕ) (s : String) → StartsWithDigit (String.◌∷◌ (digit n) s)
unfolding digit
digit-StartsWithDigit n s = (digit n, (s, (refl, omega arith, omega arith)))

digits-StartsWithDigit : (f n : ℕ) (s : String) → n < f → StartsWithDigit (digits f n s)
unfolding digits
digits-StartsWithDigit zero n s h = absurd (omega arith)
digits-StartsWithDigit (suc f) n s h =
    if_both StartsWithDigit (ltb n 10) _ _ (λ e. digit-StartsWithDigit n s)
      (λ e. digits-StartsWithDigit f (n / 10) (String.◌∷◌ (digit n) s) (ground arith))

-- Such a text is read as digits alone.
read_int-digits : (s : String) → StartsWithDigit s → read_int s ≡ in_range (read_digits 0 s)
unfolding read_int read_signed is_space read_unsigned
read_int-digits s (c, (t, (e, lo, hi))) = rw e (ground arith)

read_unsigned-digits : (s : String) → StartsWithDigit s → read_unsigned s ≡ read_digits 0 s
unfolding read_unsigned
read_unsigned-digits s (c, (t, (e, lo, hi))) = rw e refl

read_digits-decimal : (n : ℕ) → read_digits 0 (decimal n) ≡ some n
unfolding decimal read_digits
read_digits-decimal n = read-digits (suc n) n "" (omega arith)

decimal-StartsWithDigit : (n : ℕ) → StartsWithDigit (decimal n)
unfolding decimal
decimal-StartsWithDigit n = digits-StartsWithDigit (suc n) n "" (omega arith)

read_int-to_string : (n : ℤ) → IsInt64 n → read_int (to_string n) ≡ some n
unfolding to_string in_range in_negative_range read_int read_signed is_space
read_int-to_string (pos n) h =
    rw (read_int-digits (decimal n) (decimal-StartsWithDigit n), read_digits-decimal n)
      (ground arith)
read_int-to_string (negsuc n) h =
    rw
      (
        read_unsigned-digits (decimal (suc n)) (decimal-StartsWithDigit (suc n)),
        read_digits-decimal (suc n),
      )
      (ground arith)

-- The number that a 64-bit integer is written as is read back, whatever the fallback.
pub parse_int-to_string : (n fallback : ℤ) → IsInt64 n → parse_int (to_string n) fallback ≡ n
unfolding parse_int or_fallback
parse_int-to_string n fallback h = rw (read_int-to_string n h) refl
