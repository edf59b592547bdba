-- ===== src/Sel/RoundTrip/Precedence.antt =====
-- Which of two binary operators of src/runtime/expressions/Sel.cpp takes the operand between them.
use sapo_engine.Prelude.{
  ℕ, suc, ◌-◌, ◌≤◌, ◌≡◌, refl, sym, ap, ◌∙◌, Bool, true, false, Option, none, some, List, [], ◌∷◌,
  Option-cases, inl, inr, if◌then◌else◌, ltb, length, arith,
}
use sapo_engine.Sel.Syntax.{
  Expr, binary, BinaryOp, or_op, and_op, eq_op, ne_op, lt_op, le_op, gt_op, ge_op, in_op,
  contains_op, match_op, add_op, sub_op, mul_op, div_op, mod_op, Tokens, rparen,
}
use sapo_engine.Sel.Reading.{
  ok, ◌>>=◌, Parser, advance, or_level, and_level, eq_level, cmp_level, add_level, mul_level,
}
use sapo_engine.Sel.Parser.{
  climb, parse_level, parse_ternary, parse_logical_or, parse_program, finish, parse_unary,
}
use sapo_engine.Sel.Printer.{op_token, enclosed, settled, weight}
use sapo_engine.Sel.RoundTrip.Levels.{
  Level, tower, or_else, seen, all_levels, level-skip, level-take, tower-skip, tower-take,
  or_else-none, seen-op_token, parse_logical_or-tower,
}
use sapo_engine.Sel.RoundTrip.Endings.{Quiet-end, Stops-op_token, conditional_after}
use sapo_engine.Sel.RoundTrip.Constructs.{Reads, unary-enclosed}
use sapo_engine.Sel.RoundTrip.Whole.{parse_ternary-Reads, length-show, parse_program-nonempty}

-- How loosely an operator binds.
unfoldable pub looseness : BinaryOp → ℕ
looseness or_op = 6
looseness and_op = 5
looseness eq_op = 4
looseness ne_op = 4
looseness lt_op = 3
looseness le_op = 3
looseness gt_op = 3
looseness ge_op = 3
looseness in_op = 3
looseness contains_op = 3
looseness match_op = 3
looseness add_op = 2
looseness sub_op = 2
looseness mul_op = 1
looseness div_op = 1
looseness mod_op = 1

abbrev is_seen : Option BinaryOp → Bool
is_seen (some op) = true
is_seen none = false

-- The second operator is of a level below that of the first.
abbrev tighter : List Level → Tokens → Tokens → Bool
tighter [] mark mark' = false
tighter (level ∷ levels) mark mark' =
    let above = tighter levels mark mark' in
    if is_seen (level mark) then false else if is_seen (level mark') then true else above

abbrev pub tree : Bool → BinaryOp → BinaryOp → Expr → Expr → Expr → Expr
tree true op op' a b c = binary op a (binary op' b c)
tree false op op' a b c = binary op' (binary op a b) c

tighter-looseness :
    (op op' : BinaryOp) (ts ts' : Tokens)
    → tighter all_levels (op_token op ∷ ts) (op_token op' ∷ ts')
      ≡ ltb (looseness op') (looseness op)
unfolding looseness op_token mul_level add_level cmp_level eq_level and_level or_level
tighter-looseness op op' ts ts' = ground arith

level-take_two :
    (level : Level) (operand : ℕ → Parser Expr) (n : ℕ) (ts : Tokens) (op op' : BinaryOp)
    (a b c : Expr) (mark mark' rest : Tokens)
    → operand (suc (suc (suc n))) ts ≡ ok (a, mark)
    → level mark ≡ some op
    → operand (suc (suc (suc n))) (advance mark) ≡ ok (b, mark')
    → level mark' ≡ some op'
    → operand (suc (suc (suc n))) (advance mark') ≡ ok (c, rest)
    → level rest ≡ none
    → parse_level level operand (suc (suc (suc n))) ts ≡ ok (binary op' (binary op a b) c, rest)
unfolding parse_level climb
level-take_two level operand n ts op op' a b c mark mark' rest reads here reads' here' reads''
      no_op =
    rw (reads, climb, here, climb, reads', climb, here', climb, reads'', climb, no_op, climb) refl

-- A level that sees nothing leaves the operator to the levels above.
seen_above :
    (level : Level) (levels : List Level) (mark : Tokens) (o : Option BinaryOp)
    → level mark ≡ none
    → seen (level ∷ levels) mark ≡ o
    → seen levels mark ≡ o
seen_above level levels mark o no_op h = ap (λ p. or_else p (seen levels mark)) (sym no_op) ∙ h

seen_here :
    (level : Level) (levels : List Level) (mark : Tokens) (op op' : BinaryOp)
    → level mark ≡ some op'
    → seen (level ∷ levels) mark ≡ some op
    → level mark ≡ some op
seen_here level levels mark op op' found h =
    found ∙ ap (λ p. or_else p (seen levels mark)) (sym found) ∙ h

tower-two :
    (levels : List Level) (operand : ℕ → Parser Expr) (n : ℕ) (ts : Tokens) (op op' : BinaryOp)
    (a b c : Expr) (mark mark' rest : Tokens)
    → operand (suc (suc (suc n))) ts ≡ ok (a, mark)
    → seen levels mark ≡ some op
    → operand (suc (suc (suc n))) (advance mark) ≡ ok (b, mark')
    → seen levels mark' ≡ some op'
    → operand (suc (suc (suc n))) (advance mark') ≡ ok (c, rest)
    → seen levels rest ≡ none
    → tower levels operand (suc (suc (suc n))) ts
      ≡ ok (tree (tighter levels mark mark') op op' a b c, rest)
tower-two [] operand n ts op op' a b c mark mark' rest reads h reads' h' reads'' quiet =
    absurd (cc h)
tower-two (level ∷ levels) operand n ts op op' a b c mark mark' rest reads h reads' h' reads''
      quiet =
    let (here, above) = or_else-none (level rest) (seen levels rest) quiet in
    elim (Option-cases (level mark)) [
      | inr (x, found) ↦
          let first = seen_here level levels mark op x found h in
          elim (Option-cases (level mark')) [
            | inr (y, found') ↦
                let second = seen_here level levels mark' op' y found' h' in
                rw first (
                  tower-skip levels (parse_level level operand) (suc (suc n)) ts
                    (binary op' (binary op a b) c) rest
                    (level-take_two level operand n ts op op' a b c mark mark' rest reads first
                      reads' second reads'' here)
                    above)
            | inl none' ↦ rw first (
                tower-take levels (parse_level level operand) (suc n) ts op' (binary op a b) c mark'
                  rest
                  (level-take level operand (suc n) ts op a b mark mark' reads first reads' none')
                  (seen_above level levels mark' (some op') none' h')
                  (level-skip level operand (suc (suc n)) (advance mark') c rest reads'' here)
                  above)
          ]
      | inl not_here ↦
          let left = level-skip level operand (suc (suc n)) ts a mark reads not_here in
          let first = seen_above level levels mark (some op) not_here h in
          elim (Option-cases (level mark')) [
            | inr (y, found') ↦
                let second = seen_here level levels mark' op' y found' h' in
                rw (not_here, second)
                  (tower-take levels (parse_level level operand) (suc n) ts op a (binary op' b c)
                    mark rest left first
                    (level-take level operand (suc n) (advance mark) op' b c mark' rest reads'
                      second reads'' here)
                    above)
            | inl none' ↦
                rw (not_here, none')
                  (tower-two levels (parse_level level operand) n ts op op' a b c mark mark' rest
                    left first
                    (level-skip level operand (suc (suc n)) (advance mark) b mark' reads' none')
                    (seen_above level levels mark' (some op') none' h')
                    (level-skip level operand (suc (suc n)) (advance mark') c rest reads'' here)
                    above)
          ]
    ]

-- `(a) op (b) op' (c)` as tokens.
abbrev pub chain : BinaryOp → BinaryOp → Expr → Expr → Expr → Tokens
chain op op' a b c = enclosed a (op_token op ∷ enclosed b (op_token op' ∷ enclosed c []))

logical_or-chain :
    (again : Parser Expr) (n : ℕ) (op op' : BinaryOp) (a b c : Expr)
    → Reads again a
    → Reads again b
    → Reads again c
    → parse_logical_or again (suc (suc (suc n))) (chain op op' a b c)
      ≡ ok
          (tree (ltb (looseness op') (looseness op)) op op' (settled a) (settled b) (settled c), [])
unfolding advance
logical_or-chain again n op op' a b c reads_a reads_b reads_c =
    let last = op_token op' ∷ enclosed c [] in
    let middle = op_token op ∷ enclosed b last in
    let quiet = Quiet-end in
    ap (λ p. p (suc (suc (suc n))) (chain op op' a b c)) (parse_logical_or-tower again)
    ∙ tower-two all_levels (parse_unary again) n (chain op op' a b c) op op' (settled a) (settled b)
        (settled c) middle last []
        (unary-enclosed again (suc (suc n)) a reads_a middle (Stops-op_token op (enclosed b last)))
        (seen-op_token op (enclosed b last))
        (unary-enclosed again (suc (suc n)) b reads_b last (Stops-op_token op' (enclosed c [])))
        (seen-op_token op' (enclosed c []))
        (unary-enclosed again (suc (suc n)) c reads_c [] quiet.stops) quiet.no_op
    ∙ ap (λ t. ok (tree t op op' (settled a) (settled b) (settled c), []))
        (tighter-looseness op op' (enclosed b last) (enclosed c []))

parse_ternary-chain :
    (f : ℕ) (op op' : BinaryOp) (a b c : Expr)
    → weight a ≤ suc f
    → weight b ≤ suc f
    → weight c ≤ suc f
    → parse_ternary (suc (suc (suc f))) (chain op op' a b c)
      ≡ ok
          (tree (ltb (looseness op') (looseness op)) op op' (settled a) (settled b) (settled c), [])
unfolding parse_ternary
parse_ternary-chain f op op' a b c ha hb hc =
    let quiet = Quiet-end in
    conditional_after (parse_ternary (suc (suc f))) (suc (suc f)) (chain op op' a b c) _ []
      (logical_or-chain (parse_ternary (suc (suc f))) f op op' a b c
        (parse_ternary-Reads a (suc f) ha) (parse_ternary-Reads b (suc f) hb)
        (parse_ternary-Reads c (suc f) hc))
      quiet.no_coalesce quiet.no_question

-- Of two binary operators in a row, the first takes the operand between them, unless the second is
-- of a tighter level: multiplication, addition, comparison, equality, `and`, `or`.
pub parse_program-chain :
    (op op' : BinaryOp) (a b c : Expr)
    → parse_program (chain op op' a b c)
      ≡ ok (tree (ltb (looseness op') (looseness op)) op op' (settled a) (settled b) (settled c))
unfolding finish
parse_program-chain op op' a b c =
    let size_a = length-show a (rparen ∷ op_token op ∷ enclosed b (op_token op' ∷ enclosed c [])) in
    let size_b = length-show b (rparen ∷ op_token op' ∷ enclosed c []) in
    let size_c = length-show c (rparen ∷ []) in
    let whole = chain op op' a b c in
    let fuel : length whole ≡ suc (suc (length whole - 2)) =
      omega (arith, size_a, size_b, size_c) in
    parse_program-nonempty whole (omega (arith, size_a))
    ∙ ap (λ n. parse_ternary (suc n) whole >>= finish) fuel
    ∙ ap (λ r. r >>= finish)
        (parse_ternary-chain (length whole - 2) op op' a b c (omega (arith, size_a, size_b, size_c))
          (omega (arith, size_a, size_b, size_c)) (omega (arith, size_a, size_b, size_c)))
