-- ===== src/Sel/RoundTrip/Endings.antt =====
-- What follows an expression, and how the parser of src/runtime/expressions/Sel.cpp stops there.
use sapo_engine.Prelude.{ℕ, suc, ◌≡◌, refl, false, none, [], ◌∷◌}
use sapo_engine.Sel.Syntax.{
  BinaryOp, or_op, and_op, eq_op, ne_op, lt_op, le_op, gt_op, ge_op, in_op, contains_op, match_op,
  add_op, sub_op, mul_op, div_op, mod_op, Expr, dot, opt_dot, lparen, rparen, lbracket, rbracket,
  rbrace, comma, colon, question, coalesce_mark, Tokens,
}
use sapo_engine.Sel.Reading.{
  ok, ◌>>=◌, Parser, is_kind, starts, or_level, and_level, eq_level, cmp_level, add_level,
  mul_level, unary_op,
}
use sapo_engine.Sel.Parser.{
  parse_primary, parse_chain, parse_postfix, parse_unary, parse_logical_or, parse_coalesce,
  parse_conditional,
}
use sapo_engine.Sel.Printer.{op_token}
use sapo_engine.Sel.RoundTrip.Levels.{seen, all_levels}

-- No access goes on.
pub record Stops (rest : Tokens) : Type 0 where
  no_dot : starts dot rest ≡ false
  no_opt_dot : starts opt_dot rest ≡ false
  no_bracket : starts lbracket rest ≡ false

-- No construct goes on.
pub record Quiet (rest : Tokens) : Type 0 where
  pub stops : Stops rest
  pub no_op : seen all_levels rest ≡ none
  pub no_coalesce : starts coalesce_mark rest ≡ false
  pub no_question : starts question rest ≡ false
  pub no_paren : starts lparen rest ≡ false

abbrev pub stops_at :
    (rest : Tokens)
    → starts dot rest ≡ false
    → starts opt_dot rest ≡ false
    → starts lbracket rest ≡ false
    → Stops rest
stops_at rest d o b = record { no_dot = d; no_opt_dot = o; no_bracket = b }

abbrev quiet_at :
    (rest : Tokens)
    → Stops rest
    → seen all_levels rest ≡ none
    → starts coalesce_mark rest ≡ false
    → starts question rest ≡ false
    → starts lparen rest ≡ false
    → Quiet rest
quiet_at rest s o c q p = record {
  stops = s;
  no_op = o;
  no_coalesce = c;
  no_question = q;
  no_paren = p;
}

pub Quiet-end : Quiet []
unfolding starts mul_level add_level cmp_level eq_level and_level or_level
Quiet-end = quiet_at [] (stops_at [] refl refl refl) refl refl refl refl

pub Quiet-rparen : (ts : Tokens) → Quiet (rparen ∷ ts)
unfolding starts is_kind mul_level add_level cmp_level eq_level and_level or_level
Quiet-rparen ts = quiet_at (rparen ∷ ts) (stops_at (rparen ∷ ts) refl refl refl) refl refl refl refl

pub Quiet-rbracket : (ts : Tokens) → Quiet (rbracket ∷ ts)
unfolding starts is_kind mul_level add_level cmp_level eq_level and_level or_level
Quiet-rbracket ts =
    quiet_at (rbracket ∷ ts) (stops_at (rbracket ∷ ts) refl refl refl) refl refl refl refl

pub Quiet-rbrace : (ts : Tokens) → Quiet (rbrace ∷ ts)
unfolding starts is_kind mul_level add_level cmp_level eq_level and_level or_level
Quiet-rbrace ts = quiet_at (rbrace ∷ ts) (stops_at (rbrace ∷ ts) refl refl refl) refl refl refl refl

pub Quiet-comma : (ts : Tokens) → Quiet (comma ∷ ts)
unfolding starts is_kind mul_level add_level cmp_level eq_level and_level or_level
Quiet-comma ts = quiet_at (comma ∷ ts) (stops_at (comma ∷ ts) refl refl refl) refl refl refl refl

pub Quiet-colon : (ts : Tokens) → Quiet (colon ∷ ts)
unfolding starts is_kind mul_level add_level cmp_level eq_level and_level or_level
Quiet-colon ts = quiet_at (colon ∷ ts) (stops_at (colon ∷ ts) refl refl refl) refl refl refl refl

pub Stops-op_token : (op : BinaryOp) (ts : Tokens) → Stops (op_token op ∷ ts)
unfolding starts is_kind op_token
Stops-op_token or_op ts = stops_at _ refl refl refl
Stops-op_token and_op ts = stops_at _ refl refl refl
Stops-op_token eq_op ts = stops_at _ refl refl refl
Stops-op_token ne_op ts = stops_at _ refl refl refl
Stops-op_token lt_op ts = stops_at _ refl refl refl
Stops-op_token le_op ts = stops_at _ refl refl refl
Stops-op_token gt_op ts = stops_at _ refl refl refl
Stops-op_token ge_op ts = stops_at _ refl refl refl
Stops-op_token in_op ts = stops_at _ refl refl refl
Stops-op_token contains_op ts = stops_at _ refl refl refl
Stops-op_token match_op ts = stops_at _ refl refl refl
Stops-op_token add_op ts = stops_at _ refl refl refl
Stops-op_token sub_op ts = stops_at _ refl refl refl
Stops-op_token mul_op ts = stops_at _ refl refl refl
Stops-op_token div_op ts = stops_at _ refl refl refl
Stops-op_token mod_op ts = stops_at _ refl refl refl

module _ (again : Parser Expr) where
  pub chain_stops :
      (n : ℕ) (e : Expr) (rest : Tokens)
      → Stops rest
      → parse_chain again (suc n) e rest ≡ ok (e, rest)
  unfolding parse_chain
  chain_stops n e rest s = rw (s.no_dot, s.no_opt_dot, s.no_bracket) refl

  pub unary_after :
      (n : ℕ) (ts : Tokens) (e : Expr) (rest : Tokens)
      → unary_op ts ≡ none
      → parse_primary again (suc n) ts ≡ ok (e, rest)
      → Stops rest
      → parse_unary again (suc n) ts ≡ ok (e, rest)
  unfolding parse_unary parse_postfix
  unary_after n ts e rest no_op reads s =
      rw (no_op, parse_unary, reads, parse_postfix, chain_stops n e rest s) refl

  pub conditional_after :
      (n : ℕ) (ts : Tokens) (e : Expr) (rest : Tokens)
      → parse_logical_or again (suc n) ts ≡ ok (e, rest)
      → starts coalesce_mark rest ≡ false
      → starts question rest ≡ false
      → parse_conditional again (suc n) ts ≡ ok (e, rest)
  unfolding parse_conditional parse_coalesce
  conditional_after n ts e rest reads no_mark no_question =
      rw (reads, ◌>>=◌, no_mark, ◌>>=◌, no_question) refl
