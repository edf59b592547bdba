-- ===== src/Sel/Termination/Whole.antt =====
-- A fuel above the number of tokens is enough.
use sapo_engine.Prelude.{ℕ, zero, suc, ◌≢◌, [], ◌∷◌, length, arith}
use sapo_engine.Sel.Syntax.{Expr, Tokens}
use sapo_engine.Sel.Reading.{Result, ok, failed, out_of_fuel, ◌>>=◌}
use sapo_engine.Sel.Parser.{parse_ternary, finish, parse_program}
use sapo_engine.Sel.Termination.Basics.{Leaves, Takes}
use sapo_engine.Sel.Termination.Levels.{parse_conditional-Leaves}

-- With a fuel above the number of tokens the parser takes a token at least and ends.
pub parse_ternary-Takes : (f : ℕ) → Takes f (parse_ternary f)
unfolding parse_ternary
parse_ternary-Takes zero ts lt = absurd (omega (arith, lt))
parse_ternary-Takes (suc f) ts lt =
    parse_conditional-Leaves (parse_ternary f) f (parse_ternary-Takes f) (suc f) ts lt lt

finish-Ends : (p : Expr × Tokens) → finish p ≢ out_of_fuel
unfolding finish
finish-Ends (e, []) = λ p. cc
finish-Ends (e, t ∷ ts) = λ p. cc

whole-Ends : (m : ℕ) (r : Result (Expr × Tokens)) → Leaves m r → (r >>= finish) ≢ out_of_fuel
whole-Ends m (ok (e, rest)) h = finish-Ends (e, rest)
whole-Ends m (failed x) h = λ p. cc
whole-Ends m out_of_fuel h = absurd h

-- The parser ends on every list of tokens, with a node or a syntax error: the fuel that
-- `parse_program` gives it is enough.
pub parse_program-Ends : (ts : Tokens) → parse_program ts ≢ out_of_fuel
unfolding parse_program
parse_program-Ends [] = λ p. cc
parse_program-Ends (t ∷ ts) =
    whole-Ends (length (t ∷ ts)) _
      (parse_ternary-Takes (suc (length (t ∷ ts))) (t ∷ ts) (omega arith))
