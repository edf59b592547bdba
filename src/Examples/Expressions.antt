-- ===== src/Examples/Expressions.antt =====
-- Expressions of src/runtime/expressions/Sel.cpp.
use sapo_engine.Prelude.{◌≡◌, ◌≢◌, ◌^◌, refl, true, false, [], ◌∷◌}
use sapo_engine.Prelude.Int.{pos}
use sapo_engine.Json.{null, number_integer, string}
use sapo_engine.Sel.Syntax.{
  negation, eq_op, add_op, mul_op, Expr, literal, variable, member, index, static_index, call,
  unary, binary, ternary, coalesce, array_literal, object_literal, no_exprs, expr, no_entries,
  entry, number, ident, dollar, plus_sign, star, Tokens,
}
use sapo_engine.Sel.Reading.{
  ok, out_of_fuel, is_kind, starts, advance, expect, or_level, and_level, eq_level, cmp_level,
  add_level, mul_level, unary_op, field_of,
}
use sapo_engine.Sel.Parser.{
  signed_word, to_int, climb, parse_level, make_index, parse_list, parse_arguments, parse_named,
  parse_dollar, parse_primary, parse_field, parse_access, parse_index, parse_chain, parse_postfix,
  parse_unary, parse_multiplicative, parse_additive, parse_comparison, parse_equality,
  parse_logical_and, parse_logical_or, parse_coalesce, parse_conditional, parse_ternary, finish,
  parse_program,
}
use sapo_engine.Sel.Printer.{show, settled}
use sapo_engine.Sel.RoundTrip.Whole.{parse_program-show}
use sapo_engine.Sel.Termination.Whole.{parse_program-Ends}
use sapo_engine.Sel.RoundTrip.Precedence.{looseness, chain, parse_program-chain}

abbrev one : Expr
one = literal (number_integer (pos 1))

-- `$a + 1 * b`
abbrev mixed : Tokens
mixed = dollar ∷ ident "a" ∷ plus_sign ∷ number "1" (number_integer (pos 1)) ∷ star ∷ ident "b" ∷ []

mixed_tree :
    parse_program mixed
    ≡ ok (binary add_op (variable true "a") (binary mul_op one (variable false "b")))
unfolding climb parse_level make_index parse_list parse_arguments parse_named parse_dollar
    parse_primary parse_field parse_access parse_index parse_chain parse_postfix parse_unary
    parse_multiplicative parse_additive parse_comparison parse_equality parse_logical_and
    parse_logical_or parse_coalesce parse_conditional parse_ternary finish parse_program is_kind
    starts advance expect or_level and_level eq_level cmp_level add_level mul_level unary_op
    field_of
mixed_tree = refl

parse_program-Ends_example : parse_program mixed ≢ out_of_fuel
parse_program-Ends_example = parse_program-Ends mixed

abbrev everything : Expr
everything =
    ternary (unary negation (binary eq_op (variable true "a") (literal null)))
      (object_literal (
        entry "all" (array_literal (expr one (expr (literal (string "x")) no_exprs)))
          (entry "first" (index (variable false "items") one) no_entries)))
      (coalesce (member true (variable false "a") "b") (call "now" no_exprs))

parse_program-show_example : parse_program (show everything []) ≡ ok (settled everything)
parse_program-show_example = parse_program-show everything

-- `(1) + (b) * (c)`
parse_program-chain_example :
    parse_program (chain add_op mul_op one (variable false "b") (variable false "c"))
    ≡ ok (binary add_op one (binary mul_op (variable false "b") (variable false "c")))
unfolding settled looseness
parse_program-chain_example =
    parse_program-chain add_op mul_op one (variable false "b") (variable false "c")

-- `a[4294967296]` is read as `a[0]`.
wrapped :
    make_index (variable false "a") (literal (number_integer (pos (2 ^ 32))))
    ≡ static_index (variable false "a") (pos 0)
unfolding make_index to_int signed_word
wrapped = refl
