-- ===== src/Sel/Reading.antt =====
-- The access of the parser of src/runtime/expressions/Sel.cpp to its tokens: peek, accept, expect,
-- and the tokens that its levels of operators look for. A `Parser A` reads an `A` off the tokens
-- and returns it with the tokens that are left.
use sapo_engine.Prelude.{String, Bool, true, false, Option, none, some, [], ◌∷◌, if◌then◌else◌}
use sapo_engine.Sel.Syntax.{
  UnaryOp, negation, minus, plus, BinaryOp, or_op, and_op, eq_op, ne_op, lt_op, le_op, gt_op, ge_op,
  in_op, contains_op, match_op, add_op, sub_op, mul_op, div_op, mod_op, and_word, or_word, not_word,
  in_word, contains_word, match_word, Token, number, text, ident, keyword, dot, opt_dot, lparen,
  rparen, lbracket, rbracket, rbrace, comma, colon, question, coalesce_mark, plus_sign, minus_sign,
  star, slash, percent, eq_mark, ne_mark, lt_mark, le_mark, gt_mark, ge_mark, and_mark, or_mark,
  not_mark, Tokens,
}

-- What a message says was wanted or found.
pub data SyntaxError : Type 0 where
  empty_expression trailing_token field_name object_key variable_name : SyntaxError
  expected : String → SyntaxError
  unexpected_keyword unexpected_token : SyntaxError

pub data Result (A : Type 0) : Type 0 where
  ok : A → Result A
  failed : SyntaxError → Result A
  out_of_fuel : Result A

infixl 5 ◌>>=◌
abbrev pub ◌>>=◌ : {A B : Type 0} → Result A → (A → Result B) → Result B
ok a >>= f = f a
failed e >>= f = failed e
out_of_fuel >>= f = out_of_fuel

abbrev pub Parser : Type 0 → Type 0
Parser A = Tokens → Result (A × Tokens)

-- Tokens of one kind, among the kinds that have no text.
unfoldable pub is_kind : Token → Token → Bool
is_kind comma comma = true
is_kind colon colon = true
is_kind question question = true
is_kind coalesce_mark coalesce_mark = true
is_kind dot dot = true
is_kind opt_dot opt_dot = true
is_kind lparen lparen = true
is_kind rparen rparen = true
is_kind lbracket lbracket = true
is_kind rbracket rbracket = true
is_kind rbrace rbrace = true
is_kind _ _ = false

-- `peek().kind`
unfoldable pub starts : Token → Tokens → Bool
unfolding is_kind
starts t [] = false
starts t (u ∷ us) = is_kind t u

unfoldable pub advance : Tokens → Tokens
advance [] = []
advance (t ∷ ts) = ts

unfoldable pub expect : Token → String → Tokens → Result Tokens
unfolding starts advance
expect t what ts = if starts t ts then ok (advance ts) else failed (expected what)

-- The operators of the six levels of binary operators, by the token that `peek()` gives.
unfoldable pub or_level : Tokens → Option BinaryOp
or_level (or_mark ∷ ts) = some or_op
or_level (keyword or_word ∷ ts) = some or_op
or_level _ = none

unfoldable pub and_level : Tokens → Option BinaryOp
and_level (and_mark ∷ ts) = some and_op
and_level (keyword and_word ∷ ts) = some and_op
and_level _ = none

unfoldable pub eq_level : Tokens → Option BinaryOp
eq_level (eq_mark ∷ ts) = some eq_op
eq_level (ne_mark ∷ ts) = some ne_op
eq_level _ = none

unfoldable pub cmp_level : Tokens → Option BinaryOp
cmp_level (lt_mark ∷ ts) = some lt_op
cmp_level (le_mark ∷ ts) = some le_op
cmp_level (gt_mark ∷ ts) = some gt_op
cmp_level (ge_mark ∷ ts) = some ge_op
cmp_level (keyword in_word ∷ ts) = some in_op
cmp_level (keyword contains_word ∷ ts) = some contains_op
cmp_level (keyword match_word ∷ ts) = some match_op
cmp_level _ = none

unfoldable pub add_level : Tokens → Option BinaryOp
add_level (plus_sign ∷ ts) = some add_op
add_level (minus_sign ∷ ts) = some sub_op
add_level _ = none

unfoldable pub mul_level : Tokens → Option BinaryOp
mul_level (star ∷ ts) = some mul_op
mul_level (slash ∷ ts) = some div_op
mul_level (percent ∷ ts) = some mod_op
mul_level _ = none

unfoldable pub unary_op : Tokens → Option UnaryOp
unary_op (not_mark ∷ ts) = some negation
unary_op (keyword not_word ∷ ts) = some negation
unary_op (minus_sign ∷ ts) = some minus
unary_op (plus_sign ∷ ts) = some plus
unary_op _ = none

unfoldable pub field_of : Tokens → Option String
field_of (ident s ∷ ts) = some s
field_of (number s v ∷ ts) = some s
field_of _ = none

unfoldable pub key_of : Tokens → Option String
key_of (text s ∷ ts) = some s
key_of (ident s ∷ ts) = some s
key_of (number s v ∷ ts) = some s
key_of _ = none
