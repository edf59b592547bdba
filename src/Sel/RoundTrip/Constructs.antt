-- ===== src/Sel/RoundTrip/Constructs.antt =====
-- Reading back one construct of src/runtime/expressions/Sel.cpp, where its parts are read back.
use sapo_engine.Prelude.{ℕ, suc, String, ◌≡◌, refl, ap, ◌∙◌, Bool, true, false, none, ◌∷◌}
use sapo_engine.Json.{Json, null, boolean, number_integer, number_float, string, array, object}
use sapo_engine.Sel.Syntax.{
  UnaryOp, negation, minus, plus, BinaryOp, Expr, literal, variable, unary, binary, ternary,
  coalesce, rparen, colon, question, coalesce_mark, Tokens,
}
use sapo_engine.Sel.Reading.{
  ok, ◌>>=◌, Parser, is_kind, starts, advance, expect, or_level, and_level, eq_level, cmp_level,
  add_level, mul_level, unary_op,
}
use sapo_engine.Sel.Parser.{
  parse_named, parse_dollar, parse_primary, parse_unary, parse_logical_or, parse_coalesce,
  parse_branches, parse_conditional,
}
use sapo_engine.Sel.Printer.{op_token, unary_token, show_literal, show, enclosed, settled}
use sapo_engine.Sel.RoundTrip.Levels.{
  seen, all_levels, tower-skip, tower-take, seen-op_token, parse_logical_or-tower,
}
use sapo_engine.Sel.RoundTrip.Endings.{
  Stops, stops_at, Quiet, Quiet-rparen, Quiet-colon, Stops-op_token, unary_after, conditional_after,
}

-- A parser that reads an expression back.
abbrev pub Reads : Parser Expr → Expr → Type 0
Reads parser e = (rest : Tokens) → Quiet rest → parser (show e rest) ≡ ok (settled e, rest)

module _ (again : Parser Expr) where
  pub primary-enclosed :
      (n : ℕ) (e : Expr)
      → Reads again e
      → (rest : Tokens) → parse_primary again n (enclosed e rest) ≡ ok (settled e, rest)
  unfolding parse_primary expect starts is_kind advance
  primary-enclosed n e reads rest = rw (reads (rparen ∷ rest) (Quiet-rparen rest), ◌>>=◌) refl

  pub unary-enclosed :
      (n : ℕ) (e : Expr)
      → Reads again e
      → (rest : Tokens) → Stops rest
      → parse_unary again (suc n) (enclosed e rest) ≡ ok (settled e, rest)
  unfolding unary_op
  unary-enclosed n e reads rest s =
      unary_after again n (enclosed e rest) (settled e) rest refl
        (primary-enclosed (suc n) e reads rest) s

  logical_or_after :
      (n : ℕ) (ts : Tokens) (e : Expr) (rest : Tokens)
      → parse_unary again (suc n) ts ≡ ok (e, rest)
      → seen all_levels rest ≡ none
      → parse_logical_or again (suc n) ts ≡ ok (e, rest)
  logical_or_after n ts e rest reads no_op =
      ap (λ p. p (suc n) ts) (parse_logical_or-tower again)
      ∙ tower-skip all_levels (parse_unary again) n ts e rest reads no_op

  -- A construct that the level of unary operators reads whole.
  pub from_unary :
      (n : ℕ) (ts : Tokens) (e : Expr) (rest : Tokens)
      → parse_unary again (suc n) ts ≡ ok (e, rest)
      → Quiet rest
      → parse_conditional again (suc n) ts ≡ ok (e, rest)
  from_unary n ts e rest reads q =
      conditional_after again n ts e rest (logical_or_after n ts e rest reads q.no_op) q.no_coalesce
        q.no_question

  pub from_primary :
      (n : ℕ) (ts : Tokens) (e : Expr) (rest : Tokens)
      → unary_op ts ≡ none
      → parse_primary again (suc n) ts ≡ ok (e, rest)
      → Quiet rest
      → parse_conditional again (suc n) ts ≡ ok (e, rest)
  from_primary n ts e rest no_op reads q =
      from_unary n ts e rest (unary_after again n ts e rest no_op reads q.stops) q

  pub literal-Reads : (n : ℕ) (v : Json) → Reads (parse_conditional again (suc n)) (literal v)
  unfolding show show_literal settled unary_op parse_primary
  literal-Reads n null rest = from_primary n _ _ rest refl refl
  literal-Reads n (boolean true) rest = from_primary n _ _ rest refl refl
  literal-Reads n (boolean false) rest = from_primary n _ _ rest refl refl
  literal-Reads n (number_integer i) rest = from_primary n _ _ rest refl refl
  literal-Reads n (number_float x) rest = from_primary n _ _ rest refl refl
  literal-Reads n (string s) rest = from_primary n _ _ rest refl refl
  literal-Reads n (array es) rest = from_primary n _ _ rest refl refl
  literal-Reads n (object es) rest = from_primary n _ _ rest refl refl

  pub variable-Reads :
      (n : ℕ) (explicit_dollar : Bool) (name : String)
      → Reads (parse_conditional again (suc n)) (variable explicit_dollar name)
  unfolding show settled unary_op parse_primary parse_dollar parse_named
  variable-Reads n true name rest q = from_primary n _ _ rest refl (rw (q.no_paren) refl) q
  variable-Reads n false name rest q = from_primary n _ _ rest refl (rw (q.no_paren) refl) q

  pub unary-Reads :
      (n : ℕ) (op : UnaryOp) (e : Expr)
      → Reads again e
      → Reads (parse_conditional again (suc (suc n))) (unary op e)
  unfolding show settled unary_token unary_op parse_unary advance
  unary-Reads n negation e reads rest q =
      from_unary (suc n) _ _ rest (rw (unary-enclosed n e reads rest q.stops, ◌>>=◌) refl) q
  unary-Reads n minus e reads rest q =
      from_unary (suc n) _ _ rest (rw (unary-enclosed n e reads rest q.stops, ◌>>=◌) refl) q
  unary-Reads n plus e reads rest q =
      from_unary (suc n) _ _ rest (rw (unary-enclosed n e reads rest q.stops, ◌>>=◌) refl) q

  pub binary-Reads :
      (n : ℕ) (op : BinaryOp) (l r : Expr)
      → Reads again l
      → Reads again r
      → Reads (parse_conditional again (suc (suc n))) (binary op l r)
  unfolding show settled advance
  binary-Reads n op l r reads_l reads_r rest q =
      let right = enclosed r rest in
      conditional_after again (suc n) _ (binary op (settled l) (settled r)) rest
        (ap (λ p. p (suc (suc n)) (enclosed l (op_token op ∷ right))) (parse_logical_or-tower again)
          ∙ tower-take all_levels (parse_unary again) n _ op (settled l) (settled r)
              (op_token op ∷ right) rest
              (unary-enclosed (suc n) l reads_l (op_token op ∷ right) (Stops-op_token op right))
              (seen-op_token op right) (unary-enclosed (suc n) r reads_r rest q.stops) q.no_op)
        q.no_coalesce q.no_question

  -- An operand in parentheses, before `??` or `?`.
  logical_or-enclosed :
      (n : ℕ) (e : Expr)
      → Reads again e
      → (rest : Tokens) → Stops rest
      → seen all_levels rest ≡ none
      → parse_logical_or again (suc n) (enclosed e rest) ≡ ok (settled e, rest)
  logical_or-enclosed n e reads rest s no_op =
      logical_or_after n _ _ rest (unary-enclosed n e reads rest s) no_op

  pub coalesce-Reads :
      (n : ℕ) (l r : Expr)
      → Reads again l
      → Reads again r
      → Reads (parse_conditional again (suc (suc n))) (coalesce l r)
  unfolding show settled advance starts is_kind parse_conditional parse_coalesce mul_level add_level
      cmp_level eq_level and_level or_level
  coalesce-Reads n l r reads_l reads_r rest q =
      let mark = coalesce_mark ∷ enclosed r rest in
      rw
        (
          logical_or-enclosed (suc n) l reads_l mark (stops_at mark refl refl refl) refl,
          ◌>>=◌,
          logical_or-enclosed n r reads_r rest q.stops q.no_op,
          ◌>>=◌,
          q.no_coalesce,
          ◌>>=◌,
          q.no_question,
        )
        refl

  pub ternary-Reads :
      (n : ℕ) (c t e : Expr)
      → Reads again c
      → Reads again t
      → Reads again e
      → Reads (parse_conditional again (suc (suc n))) (ternary c t e)
  unfolding show settled advance starts is_kind expect parse_conditional parse_coalesce
      parse_branches mul_level add_level cmp_level eq_level and_level or_level
  ternary-Reads n c t e reads_c reads_t reads_e rest q =
      let mark = question ∷ show t (colon ∷ show e rest) in
      rw
        (
          logical_or-enclosed (suc n) c reads_c mark (stops_at mark refl refl refl) refl,
          ◌>>=◌,
          reads_t (colon ∷ show e rest) (Quiet-colon (show e rest)),
          ◌>>=◌,
          reads_e rest q,
          ◌>>=◌,
        )
        refl
