-- ===== src/Sel/Termination/Levels.antt =====
-- The levels of operators leave fewer tokens than they find.
use sapo_engine.Prelude.{
  ℕ, zero, suc, ◌<◌, refl, length, arith, Bool-cases, Option-cases, inl, inr, if_both,
}
use sapo_engine.Sel.Syntax.{Expr, colon, question, coalesce_mark, Tokens}
use sapo_engine.Sel.Reading.{
  Parser, starts, advance, or_level, and_level, eq_level, cmp_level, add_level, mul_level, unary_op,
}
use sapo_engine.Sel.Parser.{
  parse_primary, parse_postfix, parse_unary, parse_multiplicative, parse_additive, parse_comparison,
  parse_equality, parse_logical_and, parse_logical_or, parse_coalesce, parse_branches,
  parse_conditional,
}
use sapo_engine.Sel.Termination.Basics.{
  Leaves, Takes, Leaves-bind, Reached-bind, advance-starts, expect-Reached, look_nonempty,
  Leaves-mono, parse_level-Leaves,
}
use sapo_engine.Sel.Termination.Inside.{parse_primary-Leaves}
use sapo_engine.Sel.Termination.Accesses.{parse_chain-Leaves}

module _ (again : Parser Expr) (k : ℕ) (h : Takes k again) where
  parse_postfix-Leaves :
      (n : ℕ) (ts : Tokens)
      → length ts < suc k
      → length ts < n
      → Leaves (length ts) (parse_postfix again n ts)
  unfolding parse_postfix
  parse_postfix-Leaves n ts lt hn =
      Leaves-bind (length ts) (length ts) (parse_primary again n ts) _
        (parse_primary-Leaves again k h n ts lt hn)
        (λ base rest fewer. Leaves-mono (suc (length rest)) (length ts) _ (omega (arith, fewer)) (
          parse_chain-Leaves again k h n base rest (omega (arith, fewer, lt))
            (omega (arith, fewer, hn))))

  parse_unary-Leaves :
      (n : ℕ) (ts : Tokens)
      → length ts < suc k
      → length ts < n
      → Leaves (length ts) (parse_unary again n ts)
  unfolding parse_unary unary_op
  parse_unary-Leaves zero ts lt hn = absurd (omega (arith, hn))
  parse_unary-Leaves (suc n) ts lt hn = elim (Option-cases (unary_op ts)) [
    | inl no_op ↦ rw (no_op, parse_unary) (parse_postfix-Leaves (suc n) ts lt hn)
    | inr (op, found) ↦
        let begun = look_nonempty unary_op refl ts op found in
        rw (found, parse_unary)
          (Leaves-bind (length (advance ts)) (length ts) (parse_unary again n (advance ts)) _
            (parse_unary-Leaves n (advance ts) (omega (arith, begun, lt))
              (omega (arith, begun, hn)))
            (λ e rest fewer. omega (arith, fewer, begun)))
  ]

  parse_logical_or-Leaves :
      (n : ℕ) (ts : Tokens)
      → length ts < suc k
      → length ts < n
      → Leaves (length ts) (parse_logical_or again n ts)
  unfolding parse_multiplicative parse_additive parse_comparison parse_equality parse_logical_and
      parse_logical_or or_level and_level eq_level cmp_level add_level mul_level
  parse_logical_or-Leaves =
      parse_level-Leaves or_level (look_nonempty or_level refl) (parse_logical_and again) (suc k) (
        parse_level-Leaves and_level (look_nonempty and_level refl) (parse_equality again) (suc k) (
          parse_level-Leaves eq_level (look_nonempty eq_level refl) (parse_comparison again) (suc k)
            (parse_level-Leaves cmp_level (look_nonempty cmp_level refl) (parse_additive again)
              (suc k)
              (parse_level-Leaves add_level (look_nonempty add_level refl)
                (parse_multiplicative again) (suc k)
                (parse_level-Leaves mul_level (look_nonempty mul_level refl) (parse_unary again)
                  (suc k) parse_unary-Leaves)))))

  parse_coalesce-Leaves :
      (n : ℕ) (ts : Tokens)
      → length ts < suc k
      → length ts < n
      → Leaves (length ts) (parse_coalesce again n ts)
  unfolding parse_coalesce
  parse_coalesce-Leaves zero ts lt hn = absurd (omega (arith, hn))
  parse_coalesce-Leaves (suc n) ts lt hn =
      Leaves-bind (length ts) (length ts) (parse_logical_or again (suc n) ts) _
        (parse_logical_or-Leaves (suc n) ts lt hn)
        (λ left rest fewer. elim (Bool-cases (starts coalesce_mark rest)) [
          | inl marked ↦
              let shorter = advance-starts coalesce_mark rest marked in
              rw marked (
                Leaves-bind (length (advance rest)) (length ts)
                  (parse_coalesce again n (advance rest)) _
                  (parse_coalesce-Leaves n (advance rest) (omega (arith, shorter, fewer, lt))
                    (omega (arith, shorter, fewer, hn)))
                  (λ right end less. omega (arith, less, shorter, fewer)))
          | inr alone ↦ rw alone fewer
        ])

  parse_branches-Leaves :
      (condition : Expr) (ts : Tokens)
      → length ts < k
      → Leaves (length ts) (parse_branches again condition ts)
  unfolding parse_branches
  parse_branches-Leaves condition ts lt =
      Leaves-bind (length ts) (length ts) (again ts) _ (h ts lt) (λ yes_branch rest fewer.
        Reached-bind (length rest) (length ts) _ _ (expect-Reached colon "':' in ternary" rest)
          (λ begun less.
            Leaves-bind (length begun) (length ts) (again begun) _
              (h begun (omega (arith, less, fewer, lt)))
              (λ no_branch end least. omega (arith, least, less, fewer))))

  pub parse_conditional-Leaves :
      (n : ℕ) (ts : Tokens)
      → length ts < suc k
      → length ts < n
      → Leaves (length ts) (parse_conditional again n ts)
  unfolding parse_conditional
  parse_conditional-Leaves n ts lt hn =
      Leaves-bind (length ts) (length ts) (parse_coalesce again n ts) _
        (parse_coalesce-Leaves n ts lt hn)
        (λ condition rest fewer.
          if_both (Leaves (length ts)) (starts question rest) _ _
            (λ e.
              let shorter = advance-starts question rest e in
              Leaves-mono (length (advance rest)) (length ts) _ (omega (arith, shorter, fewer)) (
                parse_branches-Leaves condition (advance rest) (omega (arith, shorter, fewer, lt))))
            (λ e. fewer))
