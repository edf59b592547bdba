-- ===== src/Sel/Values.antt =====
-- The coercions and comparisons of values of src/runtime/expressions/Value.hpp.
use sapo_engine.Prelude.{
  ℕ, zero, suc, ◌-◌, String, Bool, true, false, not, ◌&&◌, ◌||◌, Option, none, some, if◌then◌else◌,
  str_eq, ◌==◌,
}
use sapo_engine.Prelude.Int.{pos}
use sapo_engine.Json.{
  Json, null, boolean, number_integer, number_float, string, array, object, nil, cons, end, field,
}
use sapo_engine.Sel.Library.{Double, Library}

pub data Order : Type 0 where
  below level above : Order

unfoldable pub type_tag : Json → ℕ
type_tag null = 0
type_tag (boolean b) = 1
type_tag (number_integer i) = 2
type_tag (number_float x) = 3
type_tag (string s) = 4
type_tag (array es) = 5
type_tag (object es) = 6

unfoldable pub is_number : Json → Bool
is_number (number_integer i) = true
is_number (number_float x) = true
is_number _ = false

unfoldable pub is_scalar : Json → Bool
is_scalar null = false
is_scalar (array es) = false
is_scalar (object es) = false
is_scalar _ = true

unfoldable pub both_number : Option Double → Option Double → Option (Double × Double)
both_number (some x) (some y) = some (x, y)
both_number _ _ = none

module _ (lib : Library) where
  -- The loop over the spaces after a number.
  unfoldable pub only_spaces : ℕ → String → ℕ → Bool
  only_spaces zero s consumed = consumed == lib.size s
  only_spaces (suc n) s consumed =
      let after = only_spaces n s (suc consumed) in if lib.is_space s consumed then after else false

  unfoldable pub parsed : String → Option (Double × ℕ) → Option Double
  unfolding only_spaces
  parsed s none = none
  parsed s (some (x, consumed)) =
      if only_spaces (lib.size s - consumed) s consumed then some x else none

  unfoldable pub to_number : Json → Option Double
  unfolding parsed
  to_number (number_integer i) = some (lib.of_integer i)
  to_number (number_float x) = some x
  to_number (boolean b) = some (lib.of_integer (pos (if b then 1 else 0)))
  to_number (string s) = if str_eq s "" then none else parsed s (lib.stod s)
  to_number _ = none

  unfoldable pub is_zero : Double → Bool
  is_zero x = lib.equal x (lib.of_integer (pos 0))

  -- Twelve significant digits, within the window.
  unfoldable pub tidy : Double → Double
  unfolding is_zero
  tidy x =
      let magnitude = lib.abs x in
      let exponent = lib.floor (lib.log10 magnitude) in
      let factor =
        lib.pow (lib.of_integer (pos 10)) (lib.difference (lib.of_integer (pos 12)) exponent) in
      if not (lib.is_finite x) || is_zero x
      then x
      else if not (lib.less magnitude lib.quadrillion) || lib.less magnitude lib.billionth
      then x
      else lib.quotient (lib.round (lib.product x factor)) factor

  unfoldable pub is_no : String → Bool
  is_no s = str_eq s "false" || str_eq s "0" || str_eq s "null" || str_eq s "no"

  unfoldable pub nonzero_or : Bool → Option Double → Bool
  unfolding is_zero
  nonzero_or other none = other
  nonzero_or other (some x) = not (is_zero x)

  unfoldable pub truthy : Json → Bool
  unfolding is_zero is_no nonzero_or to_number
  truthy null = false
  truthy (boolean b) = b
  truthy (number_integer i) = not (is_zero (lib.of_integer i))
  truthy (number_float x) = not (is_zero x)
  truthy (string s) =
      if str_eq s ""
      then false
      else if is_no s
      then false
      else nonzero_or true (to_number (string s))
  truthy (array nil) = false
  truthy (array (cons v vs)) = true
  truthy (object end) = false
  truthy (object (field k v fs)) = true

  -- The loop that drops the zeros at the end of a text.
  unfoldable pub without_zeros : ℕ → String → String
  without_zeros zero s = s
  without_zeros (suc n) s =
      let shorter = without_zeros n (lib.pop_back s) in if lib.ends_with s "0" then shorter else s

  unfoldable pub str : Json → String
  unfolding without_zeros
  str (string s) = s
  str null = ""
  str (number_integer i) = lib.to_string i
  str (number_float x) =
      if lib.is_finite x && lib.equal x (lib.floor x) && lib.less (lib.abs x) lib.quadrillion
      then lib.to_string (lib.to_integer x)
      else let written = lib.dump (number_float x) in
        let s = without_zeros (lib.size written) written in
        if lib.ends_with s "." then lib.pop_back s else s
  str v = lib.dump v

  unfoldable pub equal_scalars : Json → Json → Option (Double × Double) → Bool
  unfolding truthy str
  equal_scalars a b (some (x, y)) = lib.equal x y
  equal_scalars (boolean p) b none = elim (truthy b) [ true ↦ p | false ↦ not p ]
  equal_scalars a (boolean q) none = elim (truthy a) [ true ↦ q | false ↦ not q ]
  equal_scalars a b none = str_eq (str a) (str b)

  unfoldable pub equals : Json → Json → Bool
  unfolding type_tag is_number is_scalar both_number to_number equal_scalars
  equals a b =
      if type_tag a == type_tag b && not (is_number a)
      then lib.same a b
      else if is_scalar a && is_scalar b
      then equal_scalars a b (both_number (to_number a) (to_number b))
      else lib.same a b

  unfoldable pub order_of : Bool → Bool → Order
  order_of true above_too = below
  order_of false true = above
  order_of false false = level

  unfoldable pub compare_rest : Json → Json → Option Order
  unfolding order_of
  compare_rest (string s) (string t) = some (order_of (lib.comes_before s t) (lib.comes_before t s))
  compare_rest (boolean p) (boolean q) = some (order_of (not p && q) (p && not q))
  compare_rest a b = none

  unfoldable pub compare_numbers : Json → Json → Option (Double × Double) → Option Order
  unfolding compare_rest order_of
  compare_numbers a b (some (x, y)) = some (order_of (lib.less x y) (lib.less y x))
  compare_numbers a b none = compare_rest a b

  unfoldable pub compare : Json → Json → Option Order
  unfolding both_number to_number compare_numbers
  compare a b = compare_numbers a b (both_number (to_number a) (to_number b))
