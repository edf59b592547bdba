-- ===== src/Sel/Printer.antt =====
-- A canonical writing of the nodes of src/runtime/expressions/SelNodes.hpp as tokens, which the
-- parser of src/runtime/expressions/Sel.cpp is compared with: an operand is in parentheses, an
-- expression between two marks is not. Each function writes in front of the tokens that follow.
use sapo_engine.Prelude.{ℕ, suc, ◌+◌, Bool, true, false, ◌∷◌}
use sapo_engine.Json.{Json, null, boolean, number_integer, string}
use sapo_engine.Sel.Syntax.{
  UnaryOp, negation, minus, plus, BinaryOp, or_op, and_op, eq_op, ne_op, lt_op, le_op, gt_op, ge_op,
  in_op, contains_op, match_op, add_op, sub_op, mul_op, div_op, mod_op, Expr, literal, variable,
  member, static_index, index, call, method_call, unary, binary, ternary, coalesce, array_literal,
  object_literal, Exprs, no_exprs, expr, Entries, no_entries, entry, in_word, contains_word,
  true_word, false_word, null_word, match_word, Token, number, text, ident, keyword, dollar, dot,
  opt_dot, lparen, rparen, lbracket, rbracket, lbrace, rbrace, comma, colon, question,
  coalesce_mark, plus_sign, minus_sign, star, slash, percent, eq_mark, ne_mark, lt_mark, le_mark,
  gt_mark, ge_mark, and_mark, or_mark, not_mark, Tokens,
}
use sapo_engine.Sel.Parser.{make_index, to_int}

unfoldable pub op_token : BinaryOp → Token
op_token or_op = or_mark
op_token and_op = and_mark
op_token eq_op = eq_mark
op_token ne_op = ne_mark
op_token lt_op = lt_mark
op_token le_op = le_mark
op_token gt_op = gt_mark
op_token ge_op = ge_mark
op_token in_op = keyword in_word
op_token contains_op = keyword contains_word
op_token match_op = keyword match_word
op_token add_op = plus_sign
op_token sub_op = minus_sign
op_token mul_op = star
op_token div_op = slash
op_token mod_op = percent

unfoldable pub unary_token : UnaryOp → Token
unary_token negation = not_mark
unary_token minus = minus_sign
unary_token plus = plus_sign

-- A number is written with a text of its own, which the parser does not read.
unfoldable pub show_literal : Json → Tokens → Tokens
show_literal null rest = keyword null_word ∷ rest
show_literal (boolean true) rest = keyword true_word ∷ rest
show_literal (boolean false) rest = keyword false_word ∷ rest
show_literal (string s) rest = text s ∷ rest
show_literal v rest = number "" v ∷ rest

unfoldable pub dot_token : Bool → Token
dot_token true = opt_dot
dot_token false = dot

abbrev pub separate : Exprs → Tokens → Tokens
separate no_exprs rest = rest
separate (expr e es) rest = comma ∷ rest

abbrev pub separate_entries : Entries → Tokens → Tokens
separate_entries no_entries rest = rest
separate_entries (entry key e es) rest = comma ∷ rest

unfoldable mutual
  pub show : Expr → Tokens → Tokens
  show (literal v) rest = show_literal v rest
  show (variable true name) rest = dollar ∷ ident name ∷ rest
  show (variable false name) rest = ident name ∷ rest
  show (member optional e name) rest =
      lparen ∷ show e (rparen ∷ dot_token optional ∷ ident name ∷ rest)
  show (static_index e i) rest =
      lparen ∷ show e (rparen ∷ lbracket ∷ number "" (number_integer i) ∷ rbracket ∷ rest)
  show (index e i) rest = lparen ∷ show e (rparen ∷ lbracket ∷ show i (rbracket ∷ rest))
  show (call name args) rest = ident name ∷ lparen ∷ show_list args (rparen ∷ rest)
  show (method_call optional e name args) rest =
      lparen
      ∷ show e (rparen ∷ dot_token optional ∷ ident name ∷ lparen ∷ show_list args (rparen ∷ rest))
  show (unary op e) rest = unary_token op ∷ lparen ∷ show e (rparen ∷ rest)
  show (binary op l r) rest =
      lparen ∷ show l (rparen ∷ op_token op ∷ lparen ∷ show r (rparen ∷ rest))
  show (ternary c t e) rest = lparen ∷ show c (rparen ∷ question ∷ show t (colon ∷ show e rest))
  show (coalesce l r) rest =
      lparen ∷ show l (rparen ∷ coalesce_mark ∷ lparen ∷ show r (rparen ∷ rest))
  show (array_literal es) rest = lbracket ∷ show_list es (rbracket ∷ rest)
  show (object_literal es) rest = lbrace ∷ show_entries es (rbrace ∷ rest)

  pub show_list : Exprs → Tokens → Tokens
  show_list no_exprs rest = rest
  show_list (expr e es) rest = show e (separate es (show_list es rest))

  pub show_entries : Entries → Tokens → Tokens
  show_entries no_entries rest = rest
  show_entries (entry key e es) rest =
      text key ∷ colon ∷ show e (separate_entries es (show_entries es rest))

-- An operand.
abbrev pub enclosed : Expr → Tokens → Tokens
enclosed e rest = lparen ∷ show e (rparen ∷ rest)

-- The node that the parser makes of the writing: it has no index computed from an integer literal,
-- and each static index is an `int`.
unfoldable mutual
  pub settled : Expr → Expr
  settled (literal v) = literal v
  settled (variable explicit_dollar name) = variable explicit_dollar name
  settled (member optional e name) = member optional (settled e) name
  settled (static_index e i) = static_index (settled e) (to_int i)
  settled (index e i) = make_index (settled e) (settled i)
  settled (call name args) = call name (settled_list args)
  settled (method_call optional e name args) =
      method_call optional (settled e) name (settled_list args)
  settled (unary op e) = unary op (settled e)
  settled (binary op l r) = binary op (settled l) (settled r)
  settled (ternary c t e) = ternary (settled c) (settled t) (settled e)
  settled (coalesce l r) = coalesce (settled l) (settled r)
  settled (array_literal es) = array_literal (settled_list es)
  settled (object_literal es) = object_literal (settled_entries es)

  pub settled_list : Exprs → Exprs
  settled_list no_exprs = no_exprs
  settled_list (expr e es) = expr (settled e) (settled_list es)

  pub settled_entries : Entries → Entries
  settled_entries no_entries = no_entries
  settled_entries (entry key e es) = entry key (settled e) (settled_entries es)

-- The fuel that reading an expression back takes, less one.
unfoldable mutual
  pub weight : Expr → ℕ
  weight (literal v) = 0
  weight (variable explicit_dollar name) = 0
  weight (member optional e name) = suc (weight e)
  weight (static_index e i) = suc (weight e)
  weight (index e i) = suc (weight e + weight i)
  weight (call name args) = suc (weight_list args)
  weight (method_call optional e name args) = suc (weight e + weight_list args)
  weight (unary op e) = suc (weight e)
  weight (binary op l r) = suc (weight l + weight r)
  weight (ternary c t e) = suc (weight c + weight t + weight e)
  weight (coalesce l r) = suc (weight l + weight r)
  weight (array_literal es) = suc (weight_list es)
  weight (object_literal es) = suc (weight_entries es)

  pub weight_list : Exprs → ℕ
  weight_list no_exprs = 0
  weight_list (expr e es) = suc (weight e + weight_list es)

  pub weight_entries : Entries → ℕ
  weight_entries no_entries = 0
  weight_entries (entry key e es) = suc (weight e + weight_entries es)
