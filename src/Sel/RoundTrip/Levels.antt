-- ===== src/Sel/RoundTrip/Levels.antt =====
-- The six levels of binary operators of src/runtime/expressions/Sel.cpp as one tower: the operator
-- that a tower sees is taken by its level, the others pass the operand on.
use sapo_engine.Prelude.{
  ℕ, suc, ◌≡◌, refl, sym, ap, ◌∙◌, Option, none, some, List, [], ◌∷◌, Option-cases, inl, inr,
}
use sapo_engine.Sel.Syntax.{
  Expr, binary, BinaryOp, or_op, and_op, eq_op, ne_op, lt_op, le_op, gt_op, ge_op, in_op,
  contains_op, match_op, add_op, sub_op, mul_op, div_op, mod_op, Tokens,
}
use sapo_engine.Sel.Reading.{
  ok, Parser, advance, or_level, and_level, eq_level, cmp_level, add_level, mul_level,
}
use sapo_engine.Sel.Parser.{
  climb, parse_level, parse_unary, parse_multiplicative, parse_additive, parse_comparison,
  parse_equality, parse_logical_and, parse_logical_or,
}
use sapo_engine.Sel.Printer.{op_token}

abbrev pub Level : Type 0
Level = Tokens → Option BinaryOp

abbrev pub tower : List Level → (ℕ → Parser Expr) → ℕ → Parser Expr
tower [] operand = operand
tower (level ∷ levels) operand = tower levels (parse_level level operand)

abbrev pub or_else : {A : Type 0} → Option A → Option A → Option A
or_else (some a) o = some a
or_else none o = o

-- The operator that some level of a tower sees.
abbrev pub seen : List Level → Level
seen [] ts = none
seen (level ∷ levels) ts = or_else (level ts) (seen levels ts)

abbrev pub all_levels : List Level
all_levels = mul_level ∷ add_level ∷ cmp_level ∷ eq_level ∷ and_level ∷ or_level ∷ []

pub or_else-none : {A : Type 0} (o p : Option A) → or_else o p ≡ none → (o ≡ none) × (p ≡ none)
or_else-none none p h = (refl, h)
or_else-none (some a) p h = absurd (cc h)

pub level-skip :
    (level : Level) (operand : ℕ → Parser Expr) (n : ℕ) (ts : Tokens) (left : Expr) (rest : Tokens)
    → operand (suc n) ts ≡ ok (left, rest)
    → level rest ≡ none
    → parse_level level operand (suc n) ts ≡ ok (left, rest)
unfolding parse_level climb
level-skip level operand n ts left rest reads no_op = rw (reads, climb, no_op, climb) refl

pub level-take :
    (level : Level) (operand : ℕ → Parser Expr) (n : ℕ) (ts : Tokens) (op : BinaryOp)
    (left right : Expr) (mark rest : Tokens)
    → operand (suc (suc n)) ts ≡ ok (left, mark)
    → level mark ≡ some op
    → operand (suc (suc n)) (advance mark) ≡ ok (right, rest)
    → level rest ≡ none
    → parse_level level operand (suc (suc n)) ts ≡ ok (binary op left right, rest)
unfolding parse_level climb
level-take level operand n ts op left right mark rest reads op_here reads_right no_op =
    rw (reads, climb, op_here, climb, reads_right, climb, no_op, climb) refl

pub tower-skip :
    (levels : List Level) (operand : ℕ → Parser Expr) (n : ℕ) (ts : Tokens) (left : Expr)
    (rest : Tokens)
    → operand (suc n) ts ≡ ok (left, rest)
    → seen levels rest ≡ none
    → tower levels operand (suc n) ts ≡ ok (left, rest)
tower-skip [] operand n ts left rest reads h = reads
tower-skip (level ∷ levels) operand n ts left rest reads h =
    let (here, above) = or_else-none (level rest) (seen levels rest) h in
    tower-skip levels (parse_level level operand) n ts left rest
      (level-skip level operand n ts left rest reads here) above

pub tower-take :
    (levels : List Level) (operand : ℕ → Parser Expr) (n : ℕ) (ts : Tokens) (op : BinaryOp)
    (left right : Expr) (mark rest : Tokens)
    → operand (suc (suc n)) ts ≡ ok (left, mark)
    → seen levels mark ≡ some op
    → operand (suc (suc n)) (advance mark) ≡ ok (right, rest)
    → seen levels rest ≡ none
    → tower levels operand (suc (suc n)) ts ≡ ok (binary op left right, rest)
tower-take [] operand n ts op left right mark rest reads h reads_right quiet = absurd (cc h)
tower-take (level ∷ levels) operand n ts op left right mark rest reads h reads_right quiet =
    let (here, above) = or_else-none (level rest) (seen levels rest) quiet in
    elim (Option-cases (level mark)) [
      | inl not_here ↦
          tower-take levels (parse_level level operand) n ts op left right mark rest
            (level-skip level operand (suc n) ts left mark reads not_here)
            (ap (λ o. or_else o (seen levels mark)) (sym not_here) ∙ h)
            (level-skip level operand (suc n) (advance mark) right rest reads_right here) above
      | inr (op', found) ↦
          let same : some op' ≡ some op = ap (λ o. or_else o (seen levels mark)) (sym found) ∙ h in
          tower-skip levels (parse_level level operand) (suc n) ts (binary op left right) rest
            (level-take level operand n ts op left right mark rest reads (found ∙ same) reads_right
              here)
            above
    ]

pub seen-op_token : (op : BinaryOp) (ts : Tokens) → seen all_levels (op_token op ∷ ts) ≡ some op
unfolding op_token mul_level add_level cmp_level eq_level and_level or_level
seen-op_token or_op ts = refl
seen-op_token and_op ts = refl
seen-op_token eq_op ts = refl
seen-op_token ne_op ts = refl
seen-op_token lt_op ts = refl
seen-op_token le_op ts = refl
seen-op_token gt_op ts = refl
seen-op_token ge_op ts = refl
seen-op_token in_op ts = refl
seen-op_token contains_op ts = refl
seen-op_token match_op ts = refl
seen-op_token add_op ts = refl
seen-op_token sub_op ts = refl
seen-op_token mul_op ts = refl
seen-op_token div_op ts = refl
seen-op_token mod_op ts = refl

pub parse_logical_or-tower :
    (again : Parser Expr) → parse_logical_or again ≡ tower all_levels (parse_unary again)
unfolding parse_multiplicative parse_additive parse_comparison parse_equality parse_logical_and
    parse_logical_or
parse_logical_or-tower again = refl
