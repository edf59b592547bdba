-- ===== src/Sel/Termination/Accesses.antt =====
-- Accesses leave no more tokens than they find.
use sapo_engine.Prelude.{
  ℕ, zero, suc, ◌<◌, refl, Bool, true, false, length, arith, Bool-cases, Option-cases, inl, inr,
  if_both,
}
use sapo_engine.Sel.Syntax.{
  Expr, member, method_call, dot, opt_dot, lparen, lbracket, rbracket, Tokens,
}
use sapo_engine.Sel.Reading.{Parser, starts, advance, field_of}
use sapo_engine.Sel.Parser.{
  make_index, parse_arguments, parse_field, parse_access, parse_index, parse_chain,
}
use sapo_engine.Sel.Termination.Basics.{
  Leaves, Takes, Leaves-bind, Reached-bind, advance-starts, expect-Reached, look_nonempty,
  Leaves-mono,
}
use sapo_engine.Sel.Termination.Inside.{parse_arguments-Leaves}

module _ (again : Parser Expr) (k : ℕ) (h : Takes k again) where
  module _ (m n : ℕ) (more : Expr → Parser Expr)
      (goes_on : (e : Expr) (ts : Tokens)
        → length ts < k
        → length ts < n
        → Leaves (suc (length ts)) (more e ts)) where
    parse_field-Leaves :
        (optional : Bool) (base : Expr) (ts : Tokens)
        → length ts < k
        → length ts < suc m
        → length ts < suc n
        → Leaves (length ts) (parse_field again m optional base more ts)
    unfolding parse_field
    parse_field-Leaves optional base ts lt hm hn = elim (Option-cases (field_of ts)) [
      | inl no_name ↦ rw (no_name, parse_field) tt
      | inr (name, found) ↦
          let begun = look_nonempty field_of (unfold field_of in refl) ts name found in
          elim (Bool-cases (starts lparen (advance ts))) [
            | inl called ↦
                let shorter = advance-starts lparen (advance ts) called in
                rw (found, parse_field, called)
                  (Leaves-bind (length (advance (advance ts))) (length ts)
                    (parse_arguments again m (advance (advance ts))) _
                    (parse_arguments-Leaves again k h m (advance (advance ts))
                      (omega (arith, shorter, begun, lt)) (omega (arith, shorter, begun, hm)))
                    (λ args left fewer.
                      Leaves-mono (suc (length left)) (length ts) _
                        (omega (arith, fewer, shorter, begun))
                        (goes_on (method_call optional base name args) left
                          (omega (arith, fewer, shorter, begun, lt))
                          (omega (arith, fewer, shorter, begun, hn)))))
            | inr plain ↦
                rw (found, parse_field, plain)
                  (Leaves-mono (suc (length (advance ts))) (length ts) _ (omega (arith, begun)) (
                    goes_on (member optional base name) (advance ts) (omega (arith, begun, lt))
                      (omega (arith, begun, hn))))
          ]
    ]

    parse_access-Leaves :
        (base : Expr) (ts : Tokens)
        → length ts < k
        → length ts < suc m
        → length ts < suc n
        → Leaves (length ts) (parse_access again m base more ts)
    unfolding parse_access
    parse_access-Leaves base ts lt hm hn = elim (Bool-cases (starts opt_dot ts)) [
      | inl optional ↦
          let shorter = advance-starts opt_dot ts optional in
          rw optional (
            Leaves-mono (length (advance ts)) (length ts) _ (omega (arith, shorter)) (
              parse_field-Leaves true base (advance ts) (omega (arith, shorter, lt))
                (omega (arith, shorter, hm)) (omega (arith, shorter, hn))))
      | inr plain ↦ rw plain (parse_field-Leaves false base ts lt hm hn)
    ]

    parse_index-Leaves :
        (base : Expr) (ts : Tokens)
        → length ts < k
        → length ts < suc n
        → Leaves (length ts) (parse_index again base more ts)
    unfolding parse_index
    parse_index-Leaves base ts lt hn =
        Leaves-bind (length ts) (length ts) (again ts) _ (h ts lt) (λ e rest fewer.
          Reached-bind (length rest) (length ts) _ _ (expect-Reached rbracket "']'" rest)
            (λ left less.
              Leaves-mono (suc (length left)) (length ts) _ (omega (arith, less, fewer)) (
                goes_on (make_index base e) left (omega (arith, less, fewer, lt))
                  (omega (arith, less, fewer, hn)))))

  pub parse_chain-Leaves :
      (n : ℕ) (base : Expr) (ts : Tokens)
      → length ts < k
      → length ts < n
      → Leaves (suc (length ts)) (parse_chain again n base ts)
  unfolding parse_chain
  parse_chain-Leaves zero base ts lt hn = absurd (omega (arith, hn))
  parse_chain-Leaves (suc n) base ts lt hn =
      let more = parse_chain again n in
      let goes_on = parse_chain-Leaves n in
      if_both (Leaves (suc (length ts))) (starts dot ts) _ _
        (λ e.
          let shorter = advance-starts dot ts e in
          Leaves-mono (length (advance ts)) _ _ (omega (arith, shorter)) (
            parse_access-Leaves n n more goes_on base (advance ts) (omega (arith, shorter, lt))
              (omega (arith, shorter, hn)) (omega (arith, shorter, hn))))
        (λ no_dot.
          if_both (Leaves (suc (length ts))) (starts opt_dot ts) _ _
            (λ e.
              Leaves-mono (length ts) _ _ (omega arith)
                (parse_access-Leaves n n more goes_on base ts lt hn hn))
            (λ no_mark.
              if_both (Leaves (suc (length ts))) (starts lbracket ts) _ _
                (λ e.
                  let shorter = advance-starts lbracket ts e in
                  Leaves-mono (length (advance ts)) _ _ (omega (arith, shorter)) (
                    parse_index-Leaves n n more goes_on base (advance ts)
                      (omega (arith, shorter, lt)) (omega (arith, shorter, hn))))
                (λ e. omega arith)))
