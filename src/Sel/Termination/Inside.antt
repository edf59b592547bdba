-- ===== src/Sel/Termination/Inside.antt =====
-- Lists, names and primaries leave fewer tokens than they find.
use sapo_engine.Prelude.{
  ℕ, zero, suc, ◌<◌, String, refl, Bool, true, false, [], ◌∷◌, length, arith, Bool-cases,
  Option-cases, inl, inr, if_both,
}
use sapo_engine.Sel.Syntax.{
  Expr, array_literal, object_literal, true_word, false_word, null_word, Token, number, text, ident,
  keyword, dollar, lparen, rparen, lbracket, rbracket, lbrace, rbrace, comma, colon, Tokens,
}
use sapo_engine.Sel.Reading.{Result, ok, ◌>>=◌, Parser, starts, advance, expect, key_of}
use sapo_engine.Sel.Parser.{
  parse_list, parse_arguments, parse_entries, parse_items, parse_members, parse_named, parse_dollar,
  parse_primary,
}
use sapo_engine.Sel.Termination.Basics.{
  Leaves, Takes, Leaves-bind, Reached-bind, advance-starts, expect-Reached, look_nonempty,
  Leaves-mono,
}

module _ (again : Parser Expr) (k : ℕ) (h : Takes k again) where
  pub parse_list-Leaves :
      (n : ℕ) (ts : Tokens)
      → length ts < k
      → length ts < n
      → Leaves (length ts) (parse_list again n ts)
  unfolding parse_list
  parse_list-Leaves zero ts lt hn = absurd (omega (arith, hn))
  parse_list-Leaves (suc n) ts lt hn =
      Leaves-bind (length ts) (length ts) (again ts) _ (h ts lt) (λ e rest fewer.
        elim (Bool-cases (starts comma rest)) [
          | inl comma_here ↦
              let shorter = advance-starts comma rest comma_here in
              rw comma_here (
                Leaves-bind (length (advance rest)) (length ts) (parse_list again n (advance rest))
                  _
                  (parse_list-Leaves n (advance rest) (omega (arith, shorter, fewer, lt))
                    (omega (arith, shorter, fewer, hn)))
                  (λ es left less. omega (arith, less, shorter, fewer)))
          | inr last ↦ rw last fewer
        ])

  pub parse_arguments-Leaves :
      (n : ℕ) (ts : Tokens)
      → length ts < k
      → length ts < n
      → Leaves (length ts) (parse_arguments again n ts)
  unfolding parse_arguments
  parse_arguments-Leaves n ts lt hn =
      if_both (Leaves (length ts)) (starts rparen ts) _ _ (λ e. advance-starts rparen ts e)
        (λ e.
          Leaves-bind (length ts) (length ts) (parse_list again n ts) _
            (parse_list-Leaves n ts lt hn)
            (λ es rest fewer.
              Reached-bind (length rest) (length ts) _ _ (expect-Reached rparen "')'" rest)
                (λ left less. omega (arith, less, fewer))))

  pub parse_entries-Leaves :
      (n : ℕ) (ts : Tokens)
      → length ts < k
      → length ts < n
      → Leaves (length ts) (parse_entries again n ts)
  unfolding parse_entries key_of
  parse_entries-Leaves zero ts lt hn = absurd (omega (arith, hn))
  parse_entries-Leaves (suc n) ts lt hn = elim (Option-cases (key_of ts)) [
    | inl no_key ↦ rw (no_key, parse_entries) tt
    | inr (key, found) ↦
        let begun = look_nonempty key_of refl ts key found in
        rw (found, parse_entries)
          (Reached-bind (length (advance ts)) (length ts) _ _
            (expect-Reached colon "':' in object literal" (advance ts))
            (λ after less.
              Leaves-bind (length after) (length ts) (again after) _
                (h after (omega (arith, less, begun, lt)))
                (λ e rest fewer. elim (Bool-cases (starts comma rest)) [
                  | inl comma_here ↦
                      let shorter = advance-starts comma rest comma_here in
                      rw comma_here (
                        Leaves-bind (length (advance rest)) (length ts)
                          (parse_entries again n (advance rest)) _
                          (parse_entries-Leaves n (advance rest)
                            (omega (arith, shorter, fewer, less, begun, lt))
                            (omega (arith, shorter, fewer, less, begun, hn)))
                          (λ es left least. omega (arith, least, shorter, fewer, less, begun)))
                  | inr last ↦ rw last (omega (arith, fewer, less, begun))
                ])))
  ]

  pub parse_items-Leaves :
      (n : ℕ) (ts : Tokens)
      → length ts < k
      → length ts < n
      → Leaves (suc (length ts)) (parse_items again n ts)
  unfolding parse_items
  parse_items-Leaves n ts lt hn =
      if_both (Leaves (suc (length ts))) (starts rbracket ts) _ _ (λ e. omega arith)
        (λ e. Leaves-mono (length ts) _ _ (omega arith) (parse_list-Leaves n ts lt hn))

  pub parse_members-Leaves :
      (n : ℕ) (ts : Tokens)
      → length ts < k
      → length ts < n
      → Leaves (suc (length ts)) (parse_members again n ts)
  unfolding parse_members
  parse_members-Leaves n ts lt hn =
      if_both (Leaves (suc (length ts))) (starts rbrace ts) _ _ (λ e. omega arith)
        (λ e. Leaves-mono (length ts) _ _ (omega arith) (parse_entries-Leaves n ts lt hn))

  pub parse_named-Leaves :
      (n : ℕ) (explicit_dollar : Bool) (name : String) (ts : Tokens)
      → length ts < k
      → length ts < n
      → Leaves (suc (length ts)) (parse_named again n explicit_dollar name ts)
  unfolding parse_named
  parse_named-Leaves n explicit_dollar name ts lt hn =
      if_both (Leaves (suc (length ts))) (starts lparen ts) _ _
        (λ e.
          let shorter = advance-starts lparen ts e in
          Leaves-bind (length (advance ts)) (suc (length ts)) (parse_arguments again n (advance ts))
            _
            (parse_arguments-Leaves n (advance ts) (omega (arith, shorter, lt))
              (omega (arith, shorter, hn)))
            (λ args rest fewer. omega (arith, fewer, shorter)))
        (λ e. omega arith)

  -- After an opening token: the inside, and the closing one.
  closed_by :
      {A : Type 0} (close : Token) (what : String) (m : ℕ) (r : Result (A × Tokens)) (f : A → Expr)
      → Leaves m r
      → Leaves m (r >>= λ (a, rest). expect close what rest >>= λ left. ok (f a, left))
  closed_by close what m r f leaves = Leaves-bind m m r _ leaves (λ a rest fewer.
      Reached-bind (length rest) m _ _ (expect-Reached close what rest)
        (λ left less. omega (arith, less, fewer)))

  pub parse_dollar-Leaves :
      (n : ℕ) (ts : Tokens)
      → length ts < k
      → length ts < n
      → Leaves (suc (length ts)) (parse_dollar again n ts)
  unfolding parse_dollar
  parse_dollar-Leaves n (ident name ∷ ts) lt hn =
      Leaves-mono (suc (length ts)) _ _ (omega arith)
        (parse_named-Leaves n true name ts (omega (arith, lt)) (omega (arith, hn)))
  parse_dollar-Leaves n [] lt hn = tt
  parse_dollar-Leaves n (_ ∷ ts) lt hn = tt

  pub parse_primary-Leaves :
      (n : ℕ) (ts : Tokens)
      → length ts < suc k
      → length ts < n
      → Leaves (length ts) (parse_primary again n ts)
  unfolding parse_primary
  parse_primary-Leaves n (number s v ∷ ts) lt hn = omega arith
  parse_primary-Leaves n (text s ∷ ts) lt hn = omega arith
  parse_primary-Leaves n (lparen ∷ ts) lt hn =
      Leaves-mono (length ts) _ _ (omega arith)
        (closed_by rparen "')'" (length ts) (again ts) (λ e. e) (h ts (omega (arith, lt))))
  parse_primary-Leaves n (lbracket ∷ ts) lt hn =
      closed_by rbracket "']'" _ (parse_items again n ts) array_literal
        (parse_items-Leaves n ts (omega (arith, lt)) (omega (arith, hn)))
  parse_primary-Leaves n (lbrace ∷ ts) lt hn =
      closed_by rbrace "'}'" _ (parse_members again n ts) object_literal
        (parse_members-Leaves n ts (omega (arith, lt)) (omega (arith, hn)))
  parse_primary-Leaves n (dollar ∷ ts) lt hn =
      parse_dollar-Leaves n ts (omega (arith, lt)) (omega (arith, hn))
  parse_primary-Leaves n (keyword true_word ∷ ts) lt hn = omega arith
  parse_primary-Leaves n (keyword false_word ∷ ts) lt hn = omega arith
  parse_primary-Leaves n (keyword null_word ∷ ts) lt hn = omega arith
  parse_primary-Leaves n (ident name ∷ ts) lt hn =
      parse_named-Leaves n false name ts (omega (arith, lt)) (omega (arith, hn))
  parse_primary-Leaves n (keyword w ∷ ts) lt hn = tt
  parse_primary-Leaves n [] lt hn = tt
  parse_primary-Leaves n (_ ∷ ts) lt hn = tt
