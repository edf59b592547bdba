-- ===== src/Sel/RoundTrip/Accesses.antt =====
-- Reading back the accesses of src/runtime/expressions/Sel.cpp: members, methods and indices.
use sapo_engine.Prelude.{ℕ, suc, String, ◌≡◌, refl, Bool, true, false, ◌∷◌}
use sapo_engine.Prelude.Int.{ℤ}
use sapo_engine.Json.{number_integer}
use sapo_engine.Sel.Syntax.{
  Expr, literal, member, static_index, index, method_call, Exprs, rbracket, Tokens,
}
use sapo_engine.Sel.Reading.{
  ok, ◌>>=◌, Parser, is_kind, starts, advance, expect, unary_op, field_of,
}
use sapo_engine.Sel.Parser.{
  to_int, make_index, parse_field, parse_access, parse_index, parse_chain, parse_postfix,
  parse_unary, parse_conditional,
}
use sapo_engine.Sel.Printer.{show_literal, dot_token, show, enclosed, settled, settled_list}
use sapo_engine.Sel.RoundTrip.Endings.{Quiet, Quiet-rbracket, chain_stops}
use sapo_engine.Sel.RoundTrip.Constructs.{Reads, from_unary, primary-enclosed}
use sapo_engine.Sel.RoundTrip.Lists.{ReadsList, parse_arguments-show}

module _ (again : Parser Expr) where
  from_chain :
      (n : ℕ) (base e : Expr) (mark rest : Tokens)
      → Reads again base
      → parse_chain again (suc n) (settled base) mark ≡ ok (e, rest)
      → Quiet rest
      → parse_conditional again (suc n) (enclosed base mark) ≡ ok (e, rest)
  unfolding parse_unary parse_postfix unary_op
  from_chain n base e mark rest reads follows q =
      from_unary again n _ e rest
        (rw (primary-enclosed again (suc n) base reads mark, ◌>>=◌, follows) refl) q

  pub member-Reads :
      (n : ℕ) (optional : Bool) (e : Expr) (name : String)
      → Reads again e
      → Reads (parse_conditional again (suc (suc n))) (member optional e name)
  unfolding show settled dot_token parse_chain parse_access parse_field field_of starts is_kind
      advance
  member-Reads n true e name reads rest q =
      from_chain (suc n) e _ _ rest reads
        (rw (q.no_paren, chain_stops again n (member true (settled e) name) rest q.stops) refl) q
  member-Reads n false e name reads rest q =
      from_chain (suc n) e _ _ rest reads
        (rw (q.no_paren, chain_stops again n (member false (settled e) name) rest q.stops) refl) q

  pub method_call-Reads :
      (n : ℕ) (optional : Bool) (e : Expr) (name : String) (args : Exprs)
      → Reads again e
      → ReadsList again (suc n) args
      → Reads (parse_conditional again (suc (suc n))) (method_call optional e name args)
  unfolding show settled dot_token parse_chain parse_access parse_field field_of starts is_kind
      advance
  method_call-Reads n true e name args reads h rest q =
      from_chain (suc n) e _ _ rest reads
        (rw
          (
            parse_arguments-show again (suc n) args h rest,
            ◌>>=◌,
            chain_stops again n (method_call true (settled e) name (settled_list args)) rest
                q.stops,
          )
          refl)
        q
  method_call-Reads n false e name args reads h rest q =
      from_chain (suc n) e _ _ rest reads
        (rw
          (
            parse_arguments-show again (suc n) args h rest,
            ◌>>=◌,
            chain_stops again n (method_call false (settled e) name (settled_list args)) rest
                q.stops,
          )
          refl)
        q

  pub index-Reads :
      (n : ℕ) (e i : Expr)
      → Reads again e
      → Reads again i
      → Reads (parse_conditional again (suc (suc n))) (index e i)
  unfolding show settled parse_chain parse_index expect starts is_kind advance
  index-Reads n e i reads reads_i rest q =
      from_chain (suc n) e _ _ rest reads
        (rw
          (
            reads_i (rbracket ∷ rest) (Quiet-rbracket rest),
            ◌>>=◌,
            chain_stops again n (make_index (settled e) (settled i)) rest q.stops,
          )
          refl)
        q

  pub static_index-Reads :
      (n : ℕ) (e : Expr) (i : ℤ)
      → Reads again e
      → Reads again (literal (number_integer i))
      → Reads (parse_conditional again (suc (suc n))) (static_index e i)
  unfolding show show_literal settled make_index parse_chain parse_index expect starts is_kind
      advance
  static_index-Reads n e i reads reads_i rest q =
      from_chain (suc n) e _ _ rest reads
        (rw
          (
            reads_i (rbracket ∷ rest) (Quiet-rbracket rest),
            ◌>>=◌,
            chain_stops again n (static_index (settled e) (to_int i)) rest q.stops,
          )
          refl)
        q
