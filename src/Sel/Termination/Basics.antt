-- ===== src/Sel/Termination/Basics.antt =====
-- What a part of the parser of src/runtime/expressions/Sel.cpp leaves of its tokens, and the loop of a
-- level of operators.
use sapo_engine.Prelude.{
  ℕ, zero, suc, ◌≤◌, ◌<◌, String, ◌≡◌, true, Option, none, some, [], ◌∷◌, length, arith,
  Option-cases, inl, inr, if_both,
}
use sapo_engine.Sel.Syntax.{BinaryOp, Expr, binary, Token, Tokens}
use sapo_engine.Sel.Reading.{
  Result, ok, failed, out_of_fuel, ◌>>=◌, Parser, starts, advance, expect,
}
use sapo_engine.Sel.Parser.{climb, parse_level}

-- A result that leaves fewer than `m` tokens, or an error; never for want of fuel.
abbrev pub Leaves : {A : Type 0} → ℕ → Result (A × Tokens) → Type 0
Leaves m (ok (a, rest)) = length rest < m
Leaves m (failed e) = Unit
Leaves m out_of_fuel = ⊥

-- A parser that takes a token at least, on fewer than `k` tokens.
abbrev pub Takes : {A : Type 0} → ℕ → Parser A → Type 0
Takes k p = (ts : Tokens) → length ts < k → Leaves (length ts) (p ts)

-- A parser that may take none.
abbrev pub Stays : {A : Type 0} → ℕ → Parser A → Type 0
Stays k p = (ts : Tokens) → length ts < k → Leaves (suc (length ts)) (p ts)

abbrev pub Reached : ℕ → Result Tokens → Type 0
Reached m (ok rest) = length rest < m
Reached m (failed e) = Unit
Reached m out_of_fuel = ⊥

module _ {A B : Type 0} where
  pub Leaves-bind :
      (m m' : ℕ) (r : Result (A × Tokens)) (f : A × Tokens → Result (B × Tokens))
      → Leaves m r
      → ((a : A) (rest : Tokens) → length rest < m → Leaves m' (f (a, rest)))
      → Leaves m' (r >>= f)
  Leaves-bind m m' (ok (a, rest)) f h k = k a rest h
  Leaves-bind m m' (failed e) f h k = tt
  Leaves-bind m m' out_of_fuel f h k = h

module _ {B : Type 0} where
  pub Reached-bind :
      (m m' : ℕ) (r : Result Tokens) (f : Tokens → Result (B × Tokens))
      → Reached m r
      → ((rest : Tokens) → length rest < m → Leaves m' (f rest))
      → Leaves m' (r >>= f)
  Reached-bind m m' (ok rest) f h k = k rest h
  Reached-bind m m' (failed e) f h k = tt
  Reached-bind m m' out_of_fuel f h k = h

pub length-advance : (ts : Tokens) → length (advance ts) ≤ length ts
unfolding advance
length-advance [] = omega arith
length-advance (t ∷ ts) = omega arith

pub advance-starts :
    (t : Token) (ts : Tokens) → starts t ts ≡ true → length (advance ts) < length ts
unfolding starts advance
advance-starts t [] h = absurd (ground (arith, h))
advance-starts t (u ∷ us) h = omega arith

pub expect-Reached :
    (t : Token) (what : String) (ts : Tokens) → Reached (length ts) (expect t what ts)
unfolding expect
expect-Reached t what ts =
    if_both (Reached (length ts)) (starts t ts) _ _ (λ h. advance-starts t ts h) (λ h. tt)

-- The tokens that a test finds something at are not empty.
abbrev pub Looks : {A : Type 0} → (Tokens → Option A) → Type 0
Looks {A} look = (ts : Tokens) (a : A) → look ts ≡ some a → length (advance ts) < length ts

pub look_nonempty : {A : Type 0} (look : Tokens → Option A) → look [] ≡ none → Looks look
unfolding advance
look_nonempty look e [] a h = absurd (ground (arith, e, h))
look_nonempty look e (t ∷ ts) a h = omega arith

module _ {A : Type 0} where
  pub Leaves-mono : (m m' : ℕ) (r : Result (A × Tokens)) → m ≤ m' → Leaves m r → Leaves m' r
  Leaves-mono m m' (ok (a, rest)) le h = omega (arith, le, h)
  Leaves-mono m m' (failed e) le h = tt
  Leaves-mono m m' out_of_fuel le h = h

module _ (level : Tokens → Option BinaryOp) (looks : Looks level) (operand : ℕ → Parser Expr)
    (k : ℕ)
    (takes : (n : ℕ) (ts : Tokens)
      → length ts < k
      → length ts < n
      → Leaves (length ts) (operand n ts)) where
  climb-Leaves :
      (m n : ℕ) (left : Expr) (ts : Tokens)
      → length ts < k
      → length ts < m
      → length ts < n
      → Leaves (suc (length ts)) (climb level (operand m) n left ts)
  unfolding climb
  climb-Leaves m zero left ts h hm hn = absurd (omega (arith, hn))
  climb-Leaves m (suc n) left ts h hm hn = elim (Option-cases (level ts)) [
    | inl none_here ↦ rw (none_here, climb) (omega arith)
    | inr (op, found) ↦
        let fewer = looks ts op found in
        rw (found, climb)
          (Leaves-bind (length (advance ts)) (suc (length ts)) (operand m (advance ts)) _
            (takes m (advance ts) (omega (arith, fewer)) (omega (arith, fewer)))
            (λ right rest lt.
              Leaves-mono (suc (length rest)) (suc (length ts)) _ (omega (arith, lt, fewer)) (
                climb-Leaves m n (binary op left right) rest (omega (arith, lt, fewer))
                  (omega (arith, lt, fewer)) (omega (arith, lt, fewer, hn)))))
  ]

  pub parse_level-Leaves :
      (n : ℕ) (ts : Tokens)
      → length ts < k
      → length ts < n
      → Leaves (length ts) (parse_level level operand n ts)
  unfolding parse_level
  parse_level-Leaves n ts h hn =
      Leaves-bind (length ts) (length ts) (operand n ts) _ (takes n ts h hn) (λ left rest lt.
        Leaves-mono (suc (length rest)) (length ts) _ (omega (arith, lt))
          (climb-Leaves n n left rest (omega (arith, lt)) (omega (arith, lt)) (omega (arith, lt))))
