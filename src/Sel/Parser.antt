-- ===== src/Sel/Parser.antt =====
-- The parser of src/runtime/expressions/Sel.cpp, by the source's functions. The loops and the
-- recursion take fuel; `out_of_fuel` is only the model's answer when it is used up.
use sapo_engine.Prelude.{
  ℕ, zero, suc, ◌-◌, ◌%◌, ◌^◌, String, Bool, true, false, Option, none, some, [], ◌∷◌,
  if◌then◌else◌, length, ltb,
}
use sapo_engine.Prelude.Int.{ℤ, pos, negsuc}
use sapo_engine.Json.{null, boolean, number_integer, string}
use sapo_engine.Sel.Syntax.{
  BinaryOp, Expr, literal, variable, member, static_index, index, call, method_call, unary, binary,
  ternary, coalesce, array_literal, object_literal, Exprs, no_exprs, expr, Entries, no_entries,
  entry, true_word, false_word, null_word, number, text, ident, keyword, dollar, dot, opt_dot,
  lparen, rparen, lbracket, rbracket, lbrace, rbrace, comma, colon, question, coalesce_mark, Tokens,
}
use sapo_engine.Sel.Reading.{
  empty_expression, trailing_token, field_name, object_key, variable_name, unexpected_keyword,
  unexpected_token, Result, ok, failed, out_of_fuel, ◌>>=◌, Parser, starts, advance, expect,
  or_level, and_level, eq_level, cmp_level, add_level, mul_level, unary_op, field_of, key_of,
}

-- The loop of a level: operators of the level and operands of the next, to the left.
unfoldable pub climb : (Tokens → Option BinaryOp) → Parser Expr → ℕ → Expr → Parser Expr
climb level operand zero left ts = out_of_fuel
climb level operand (suc n) left ts = elim (level ts) [
  | none ↦ ok (left, ts)
  | some op ↦
      operand (advance ts) >>= λ (right, rest). climb level operand n (binary op left right) rest
]

unfoldable pub parse_level : (Tokens → Option BinaryOp) → (ℕ → Parser Expr) → ℕ → Parser Expr
parse_level level operand n ts = do (left, rest) ← operand n ts; climb level (operand n) n left rest

-- The `int` of 32 bits that has the low bits of a number.
unfoldable pub signed_word : ℕ → ℤ
signed_word n = if ltb n (2 ^ 31) then pos n else negsuc (2 ^ 32 - n - 1)

-- `literal.get<int>()`
unfoldable pub to_int : ℤ → ℤ
unfolding signed_word
to_int (pos n) = signed_word (n % 2 ^ 32)
to_int (negsuc n) = signed_word (2 ^ 32 - 1 - n % 2 ^ 32)

unfoldable pub make_index : Expr → Expr → Expr
unfolding to_int
make_index base (literal (number_integer i)) = static_index base (to_int i)
make_index base e = index base e

-- `again` is `parseTernary`, as the others call it.
module _ (again : Parser Expr) where
  -- Expressions with commas between them.
  unfoldable pub parse_list : ℕ → Parser Exprs
  parse_list zero ts = out_of_fuel
  parse_list (suc n) ts = do
    (e, rest) ← again ts
    elim (starts comma rest) [
      | true ↦ parse_list n (advance rest) >>= λ (es, left). ok (expr e es, left)
      | false ↦ ok (expr e no_exprs, rest)
    ]

  unfoldable pub parse_arguments : ℕ → Parser Exprs
  parse_arguments n ts =
      if starts rparen ts
      then ok (no_exprs, advance ts)
      else parse_list n ts >>= λ (es, rest). expect rparen "')'" rest >>= λ left. ok (es, left)

  unfoldable pub parse_entries : ℕ → Parser Entries
  parse_entries zero ts = out_of_fuel
  parse_entries (suc n) ts = elim (key_of ts) [
    | none ↦ failed object_key
    | some key ↦ do
      begun ← expect colon "':' in object literal" (advance ts)
      (e, rest) ← again begun
      elim (starts comma rest) [
        | true ↦ parse_entries n (advance rest) >>= λ (es, left). ok (entry key e es, left)
        | false ↦ ok (entry key e no_entries, rest)
      ]
  ]

  unfoldable pub parse_items : ℕ → Parser Exprs
  parse_items n ts = if starts rbracket ts then ok (no_exprs, ts) else parse_list n ts

  unfoldable pub parse_members : ℕ → Parser Entries
  parse_members n ts = if starts rbrace ts then ok (no_entries, ts) else parse_entries n ts

  -- A name, and its arguments where it is called.
  unfoldable pub parse_named : ℕ → Bool → String → Parser Expr
  parse_named n explicit_dollar name ts =
      if starts lparen ts
      then (parse_arguments n (advance ts) >>= λ (args, rest). ok (call name args, rest))
      else ok (variable explicit_dollar name, ts)

  unfoldable pub parse_dollar : ℕ → Parser Expr
  parse_dollar n (ident name ∷ ts) = parse_named n true name ts
  parse_dollar n _ = failed variable_name

  unfoldable pub parse_primary : ℕ → Parser Expr
  parse_primary n (number s v ∷ ts) = ok (literal v, ts)
  parse_primary n (text s ∷ ts) = ok (literal (string s), ts)
  parse_primary n (lparen ∷ ts) = do
    (e, rest) ← again ts
    left ← expect rparen "')'" rest
    ok (e, left)
  parse_primary n (lbracket ∷ ts) = do
    (es, rest) ← parse_items n ts
    left ← expect rbracket "']'" rest
    ok (array_literal es, left)
  parse_primary n (lbrace ∷ ts) = do
    (es, rest) ← parse_members n ts
    left ← expect rbrace "'}'" rest
    ok (object_literal es, left)
  parse_primary n (dollar ∷ ts) = parse_dollar n ts
  parse_primary n (keyword true_word ∷ ts) = ok (literal (boolean true), ts)
  parse_primary n (keyword false_word ∷ ts) = ok (literal (boolean false), ts)
  parse_primary n (keyword null_word ∷ ts) = ok (literal null, ts)
  parse_primary n (keyword w ∷ ts) = failed unexpected_keyword
  parse_primary n (ident name ∷ ts) = parse_named n false name ts
  parse_primary n _ = failed unexpected_token

  -- After a dot: a field or a method, and what follows it.
  unfoldable pub parse_field : ℕ → Bool → Expr → (Expr → Parser Expr) → Parser Expr
  parse_field n optional base more ts = elim (field_of ts) [
    | none ↦ failed field_name
    | some name ↦
        let rest = advance ts in
        elim (starts lparen rest) [
          | true ↦ parse_arguments n (advance rest) >>= λ (args, left).
              more (method_call optional base name args) left
          | false ↦ more (member optional base name) rest
        ]
  ]

  -- A plain dot may have `?.` after it.
  unfoldable pub parse_access : ℕ → Expr → (Expr → Parser Expr) → Parser Expr
  parse_access n base more ts =
      let optional = starts opt_dot ts in
      parse_field n optional base more (if optional then advance ts else ts)

  unfoldable pub parse_index : Expr → (Expr → Parser Expr) → Parser Expr
  parse_index base more ts = do
    (e, rest) ← again ts
    left ← expect rbracket "']'" rest
    more (make_index base e) left

  unfoldable pub parse_chain : ℕ → Expr → Parser Expr
  parse_chain zero base ts = out_of_fuel
  parse_chain (suc n) base ts =
      let more = parse_chain n in
      if starts dot ts
      then parse_access n base more (advance ts)
      else if starts opt_dot ts
      then parse_access n base more ts
      else if starts lbracket ts
      then parse_index base more (advance ts)
      else ok (base, ts)

  unfoldable pub parse_postfix : ℕ → Parser Expr
  parse_postfix n ts = parse_primary n ts >>= λ (base, rest). parse_chain n base rest

  unfoldable pub parse_unary : ℕ → Parser Expr
  parse_unary zero ts = out_of_fuel
  parse_unary (suc n) ts = elim (unary_op ts) [
    | none ↦ parse_postfix (suc n) ts
    | some op ↦ parse_unary n (advance ts) >>= λ (e, rest). ok (unary op e, rest)
  ]

  unfoldable pub parse_multiplicative : ℕ → Parser Expr
  parse_multiplicative = parse_level mul_level parse_unary

  unfoldable pub parse_additive : ℕ → Parser Expr
  parse_additive = parse_level add_level parse_multiplicative

  unfoldable pub parse_comparison : ℕ → Parser Expr
  parse_comparison = parse_level cmp_level parse_additive

  unfoldable pub parse_equality : ℕ → Parser Expr
  parse_equality = parse_level eq_level parse_comparison

  unfoldable pub parse_logical_and : ℕ → Parser Expr
  parse_logical_and = parse_level and_level parse_equality

  unfoldable pub parse_logical_or : ℕ → Parser Expr
  parse_logical_or = parse_level or_level parse_logical_and

  unfoldable pub parse_coalesce : ℕ → Parser Expr
  parse_coalesce zero ts = out_of_fuel
  parse_coalesce (suc n) ts = do
    (left, rest) ← parse_logical_or (suc n) ts
    elim (starts coalesce_mark rest) [
      | true ↦ parse_coalesce n (advance rest) >>= λ (right, end). ok (coalesce left right, end)
      | false ↦ ok (left, rest)
    ]

  unfoldable pub parse_branches : Expr → Parser Expr
  parse_branches condition ts = do
    (yes_branch, rest) ← again ts
    begun ← expect colon "':' in ternary" rest
    (no_branch, end) ← again begun
    ok (ternary condition yes_branch no_branch, end)

  unfoldable pub parse_conditional : ℕ → Parser Expr
  parse_conditional n ts = do
    (condition, rest) ← parse_coalesce n ts
    if starts question rest then parse_branches condition (advance rest) else ok (condition, rest)

unfoldable pub parse_ternary : ℕ → Parser Expr
parse_ternary zero ts = out_of_fuel
parse_ternary (suc f) ts = parse_conditional (parse_ternary f) (suc f) ts

unfoldable pub finish : Expr × Tokens → Result Expr
finish (e, []) = ok e
finish (e, t ∷ ts) = failed trailing_token

unfoldable pub parse_program : Tokens → Result Expr
unfolding finish
parse_program [] = failed empty_expression
parse_program (t ∷ ts) = parse_ternary (suc (length (t ∷ ts))) (t ∷ ts) >>= finish
