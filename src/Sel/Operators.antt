-- ===== src/Sel/Operators.antt =====
-- The operators and accesses of `Evaluator::eval` of src/runtime/expressions/Sel.cpp, on values. An
-- exception is a value of `Checked`.
use sapo_engine.Prelude.{
  ℕ, zero, suc, String, Bool, true, false, not, ◌&&◌, ◌||◌, Option, none, some, if◌then◌else◌,
  str_eq, leb,
}
use sapo_engine.Prelude.Int.{ℤ, pos, negsuc, ◌+ℤ◌}
use sapo_engine.Json.{
  Json, null, boolean, number_integer, number_float, string, array, object, Items, nil, cons,
  Fields, end, field,
}
use sapo_engine.Sel.Syntax.{
  UnaryOp, negation, minus, plus, BinaryOp, eq_op, ne_op, lt_op, le_op, gt_op, ge_op, in_op,
  contains_op, match_op, add_op, sub_op, mul_op, div_op, mod_op,
}
use sapo_engine.Sel.Library.{Double, Library}
use sapo_engine.Sel.Values.{
  Order, below, level, above, to_number, both_number, tidy, is_zero, truthy, str, equals, compare,
}

-- A function may throw errors of its own, by their text.
pub data EvalError : Type 0 where
  unresolved_reference : Bool → String → EvalError
  expected_number regex_not_text invalid_regex cannot_apply cannot_order : EvalError
  division_by_zero modulo_by_zero : EvalError
  unknown_function function_error : String → EvalError

pub data Checked (A : Type 0) : Type 0 where
  returned : A → Checked A
  thrown : EvalError → Checked A

infixl 5 ◌>>=◌
abbrev pub ◌>>=◌ : {A B : Type 0} → Checked A → (A → Checked B) → Checked B
returned a >>= f = f a
thrown e >>= f = thrown e

unfoldable pub find_field : String → Fields → Option Json
find_field key end = none
find_field key (field k v rest) = if str_eq k key then some v else find_field key rest

unfoldable pub field_or_null : String → Fields → Json
unfolding find_field
field_or_null key fs = elim (find_field key fs) [ some v ↦ v | none ↦ null ]

unfoldable pub count_items : Items → ℕ
count_items nil = 0
count_items (cons v vs) = suc (count_items vs)

unfoldable pub count_fields : Fields → ℕ
count_fields end = 0
count_fields (field k v fs) = suc (count_fields fs)

unfoldable pub item_at : ℕ → Items → Json
item_at n nil = null
item_at zero (cons v vs) = v
item_at (suc n) (cons v vs) = item_at n vs

unfoldable pub append_items : Items → Items → Items
append_items nil ws = ws
append_items (cons v vs) ws = cons v (append_items vs ws)

-- A negative position counts from the end; nothing where it is out of range.
unfoldable pub position : ℤ → ℕ → Option ℕ
position (pos n) size = if leb size n then none else some n
position (negsuc n) size = elim (negsuc n +ℤ pos size) [
  | negsuc m ↦ none
  | pos m ↦ if leb size m then none else some m
]

-- The implicit projection of a field over an array.
unfoldable pub field_of_item : String → Json → Option Json
unfolding find_field
field_of_item name (object fs) = find_field name fs
field_of_item name v = none

unfoldable pub projected : String → Items → Items
unfolding field_of_item
projected name nil = nil
projected name (cons v vs) =
    cons (elim (field_of_item name v) [ some w ↦ w | none ↦ null ]) (projected name vs)

unfoldable pub any_has : String → Items → Bool
unfolding field_of_item
any_has name nil = false
any_has name (cons v vs) = elim (field_of_item name v) [ some w ↦ true | none ↦ any_has name vs ]

unfoldable pub field_value : String → Json → Json
unfolding field_or_null projected any_has
field_value name (object fs) = field_or_null name fs
field_value name (array vs) = if any_has name vs then array (projected name vs) else null
field_value name v = null

module _ (lib : Library) where
  unfoldable pub length_of : Json → Option ℕ
  unfolding count_items count_fields
  length_of (string s) = some (lib.size s)
  length_of (array vs) = some (count_items vs)
  length_of (object fs) = some (count_fields fs)
  length_of null = some 0
  length_of v = none

  -- `current.name`.
  unfoldable pub member_of : String → Json → Json
  unfolding length_of field_value
  member_of name v =
      elim (if str_eq name "length" || str_eq name "size" then length_of v else none) [
        | some n ↦ number_integer (pos n)
        | none ↦ field_value name v
      ]

  -- `current[idx]`.
  unfoldable pub element : ℤ → Json → Json
  unfolding position item_at count_items field_or_null
  element i (array vs) = elim (position i (count_items vs)) [ some n ↦ item_at n vs | none ↦ null ]
  element i (object fs) = field_or_null (lib.to_string i) fs
  element i (string s) = elim (position i (lib.size s)) [
    | some n ↦ string (lib.byte_at s n)
    | none ↦ null
  ]
  element i v = null

  -- `current["key"]`.
  unfoldable pub keyed : String → Json → Json
  unfolding element field_or_null
  keyed key (object fs) = field_or_null key fs
  keyed key (array vs) = elim (lib.stoi key) [ some i ↦ element i (array vs) | none ↦ null ]
  keyed key v = null

  unfoldable pub require_number : Json → Checked Double
  unfolding to_number
  require_number v = elim (to_number lib v) [ some x ↦ returned x | none ↦ thrown expected_number ]

  unfoldable pub indexed : Json → Json → Checked Json
  unfolding keyed element require_number
  indexed v (string key) = returned (keyed key v)
  indexed v i = require_number i >>= λ x. returned (element (lib.to_integer x) v)

  unfoldable pub apply_unary : UnaryOp → Json → Checked Json
  unfolding truthy require_number
  apply_unary negation v = returned (boolean (not (truthy lib v)))
  apply_unary minus v = require_number v >>= λ x. returned (number_float (lib.negate x))
  apply_unary plus v = require_number v >>= λ x. returned (number_float x)

  unfoldable pub any_equal : Json → Items → Bool
  unfolding equals
  any_equal needle nil = false
  any_equal needle (cons v vs) = equals lib v needle || any_equal needle vs

  unfoldable pub has_field : Json → Fields → Bool
  unfolding find_field
  has_field (string key) fs = elim (find_field key fs) [ some v ↦ true | none ↦ false ]
  has_field needle fs = false

  unfoldable pub contained : Json → Json → Bool
  unfolding any_equal has_field str
  contained needle (array vs) = any_equal needle vs
  contained needle (object fs) = has_field needle fs
  contained needle haystack = lib.contains_text (str lib haystack) (str lib needle)

  unfoldable pub matched : Json → Json → Checked Json
  unfolding str
  matched left (string pattern) = elim (lib.regex_search (str lib left) pattern) [
    | some found ↦ returned (boolean found)
    | none ↦ thrown invalid_regex
  ]
  matched left right = thrown regex_not_text

  unfoldable pub is_text : Json → Bool
  is_text (string s) = true
  is_text v = false

  unfoldable pub joined : Json → Json → Json
  unfolding append_items str
  joined (array vs) (array ws) = array (append_items vs ws)
  joined (object fs) (object gs) = lib.merge_patch (object fs) (object gs)
  joined left right = string (lib.concat (str lib left) (str lib right))

  unfoldable pub added : Json → Json → Option (Double × Double) → Json
  unfolding tidy is_text joined
  added left right (some (a, b)) =
      if not (is_text left) && not (is_text right)
      then number_float (tidy lib (lib.sum a b))
      else joined left right
  added left right none = joined left right

  unfoldable pub divided : EvalError → (Double → Double → Double) → Double → Double → Checked Json
  unfolding is_zero tidy
  divided by_zero f a b =
      if is_zero lib b then thrown by_zero else returned (number_float (tidy lib (f a b)))

  unfoldable pub holds : BinaryOp → Order → Bool
  holds lt_op below = true
  holds le_op below = true
  holds le_op level = true
  holds gt_op above = true
  holds ge_op above = true
  holds ge_op level = true
  holds op order = false

  unfoldable pub ordered : BinaryOp → Option Order → Checked Json
  unfolding holds
  ordered op (some order) = returned (boolean (holds op order))
  ordered op none = thrown cannot_order

  unfoldable pub calculated : BinaryOp → Json → Json → Double → Double → Checked Json
  unfolding tidy divided ordered compare
  calculated sub_op left right a b = returned (number_float (tidy lib (lib.difference a b)))
  calculated mul_op left right a b = returned (number_float (tidy lib (lib.product a b)))
  calculated div_op left right a b = divided division_by_zero lib.quotient a b
  calculated mod_op left right a b = divided modulo_by_zero lib.fmod a b
  calculated op left right a b = ordered op (compare lib left right)

  unfoldable pub numeric : BinaryOp → Json → Json → Option (Double × Double) → Checked Json
  unfolding calculated
  numeric op left right (some (a, b)) = calculated op left right a b
  numeric op left right none = thrown cannot_apply

  -- The operators that evaluate both sides.
  unfoldable pub apply_binary : BinaryOp → Json → Json → Checked Json
  unfolding equals contained matched added numeric both_number to_number
  apply_binary eq_op left right = returned (boolean (equals lib left right))
  apply_binary ne_op left right = returned (boolean (not (equals lib left right)))
  apply_binary in_op left right = returned (boolean (contained left right))
  apply_binary contains_op left right = returned (boolean (contained right left))
  apply_binary match_op left right = matched left right
  apply_binary add_op left right =
      returned (added left right (both_number (to_number lib left) (to_number lib right)))
  apply_binary op left right =
      numeric op left right (both_number (to_number lib left) (to_number lib right))
