-- ===== src/Sel/RoundTrip/Lists.antt =====
-- Reading back the constructs of src/runtime/expressions/Sel.cpp that hold lists: calls, arrays and
-- objects.
use sapo_engine.Prelude.{ℕ, suc, String, ◌≡◌, refl, true, false, ◌∷◌}
use sapo_engine.Json.{null, boolean, number_integer, number_float, string, array, object}
use sapo_engine.Sel.Syntax.{
  negation, minus, plus, Expr, literal, variable, member, static_index, index, call, method_call,
  unary, binary, ternary, coalesce, array_literal, object_literal, Exprs, no_exprs, expr, Entries,
  no_entries, entry, rparen, rbracket, rbrace, comma, Tokens,
}
use sapo_engine.Sel.Reading.{ok, ◌>>=◌, Parser, is_kind, starts, advance, expect, unary_op, key_of}
use sapo_engine.Sel.Parser.{
  parse_list, parse_arguments, parse_entries, parse_items, parse_members, parse_named,
  parse_primary, parse_conditional,
}
use sapo_engine.Sel.Printer.{
  unary_token, show_literal, separate, show, show_list, show_entries, settled, settled_list,
  settled_entries,
}
use sapo_engine.Sel.RoundTrip.Endings.{
  Quiet, Quiet-rparen, Quiet-rbracket, Quiet-rbrace, Quiet-comma,
}
use sapo_engine.Sel.RoundTrip.Constructs.{Reads, from_primary}

-- No expression begins with a token that closes a list.
show-Begins :
    (e : Expr) (rest : Tokens)
    → (starts rparen (show e rest) ≡ false) × (starts rbracket (show e rest) ≡ false)
unfolding show show_literal unary_token starts is_kind
show-Begins (literal null) rest = (refl, refl)
show-Begins (literal (boolean true)) rest = (refl, refl)
show-Begins (literal (boolean false)) rest = (refl, refl)
show-Begins (literal (number_integer i)) rest = (refl, refl)
show-Begins (literal (number_float x)) rest = (refl, refl)
show-Begins (literal (string s)) rest = (refl, refl)
show-Begins (literal (array es)) rest = (refl, refl)
show-Begins (literal (object es)) rest = (refl, refl)
show-Begins (variable true name) rest = (refl, refl)
show-Begins (variable false name) rest = (refl, refl)
show-Begins (unary negation e) rest = (refl, refl)
show-Begins (unary minus e) rest = (refl, refl)
show-Begins (unary plus e) rest = (refl, refl)
show-Begins (member optional e name) rest = (refl, refl)
show-Begins (static_index e i) rest = (refl, refl)
show-Begins (index e i) rest = (refl, refl)
show-Begins (call name args) rest = (refl, refl)
show-Begins (method_call optional e name args) rest = (refl, refl)
show-Begins (binary op l r) rest = (refl, refl)
show-Begins (ternary c t e) rest = (refl, refl)
show-Begins (coalesce l r) rest = (refl, refl)
show-Begins (array_literal es) rest = (refl, refl)
show-Begins (object_literal es) rest = (refl, refl)

module _ (again : Parser Expr) where
  -- A list of expressions that is not empty, and what ends it.
  abbrev pub ReadsList : ℕ → Exprs → Type 0
  ReadsList n no_exprs = Unit
  ReadsList n (expr e es) =
      (rest : Tokens)
      → Quiet rest
      → starts comma rest ≡ false
      → parse_list again n (show_list (expr e es) rest) ≡ ok (settled_list (expr e es), rest)

  abbrev pub ReadsEntries : ℕ → Entries → Type 0
  ReadsEntries n no_entries = Unit
  ReadsEntries n (entry key e es) =
      (rest : Tokens)
      → Quiet rest
      → starts comma rest ≡ false
      → parse_entries again n (show_entries (entry key e es) rest)
        ≡ ok (settled_entries (entry key e es), rest)

  pub expr-ReadsList :
      (n : ℕ) (e : Expr) (es : Exprs)
      → Reads again e
      → ReadsList n es
      → ReadsList (suc n) (expr e es)
  unfolding show_list settled_list parse_list starts is_kind advance
  expr-ReadsList n e no_exprs reads h rest q no_comma = rw (reads rest q, ◌>>=◌, no_comma) refl
  expr-ReadsList n e (expr e' es) reads h rest q no_comma =
      let more = show_list (expr e' es) rest in
      rw (reads (comma ∷ more) (Quiet-comma more), ◌>>=◌, h rest q no_comma, ◌>>=◌) refl

  pub entry-ReadsEntries :
      (n : ℕ) (key : String) (e : Expr) (es : Entries)
      → Reads again e
      → ReadsEntries n es
      → ReadsEntries (suc n) (entry key e es)
  unfolding show_entries settled_entries parse_entries key_of expect starts is_kind advance
  entry-ReadsEntries n key e no_entries reads h rest q no_comma =
      rw (reads rest q, ◌>>=◌, no_comma) refl
  entry-ReadsEntries n key e (entry key' e' es) reads h rest q no_comma =
      let more = show_entries (entry key' e' es) rest in
      rw (reads (comma ∷ more) (Quiet-comma more), ◌>>=◌, h rest q no_comma, ◌>>=◌) refl

  pub parse_arguments-show :
      (n : ℕ) (args : Exprs)
      → ReadsList n args
      → (rest : Tokens)
      → parse_arguments again n (show_list args (rparen ∷ rest)) ≡ ok (settled_list args, rest)
  unfolding parse_arguments show_list settled_list expect starts is_kind advance
  parse_arguments-show n no_exprs h rest = refl
  parse_arguments-show n (expr e es) h rest =
      rw
        (
          (show-Begins e (separate es (show_list es (rparen ∷ rest)))).0,
          h (rparen ∷ rest) (Quiet-rparen rest) refl,
          ◌>>=◌,
        )
        refl

  parse_items-show :
      (n : ℕ) (es : Exprs)
      → ReadsList n es
      → (rest : Tokens)
      → parse_items again n (show_list es (rbracket ∷ rest)) ≡ ok (settled_list es, rbracket ∷ rest)
  unfolding parse_items show_list settled_list starts is_kind
  parse_items-show n no_exprs h rest = refl
  parse_items-show n (expr e es) h rest =
      rw
        (
          (show-Begins e (separate es (show_list es (rbracket ∷ rest)))).1,
          h (rbracket ∷ rest) (Quiet-rbracket rest) refl,
        )
        refl

  parse_members-show :
      (n : ℕ) (es : Entries)
      → ReadsEntries n es
      → (rest : Tokens)
      → parse_members again n (show_entries es (rbrace ∷ rest))
        ≡ ok (settled_entries es, rbrace ∷ rest)
  unfolding parse_members show_entries settled_entries starts is_kind
  parse_members-show n no_entries h rest = refl
  parse_members-show n (entry key e es) h rest = h (rbrace ∷ rest) (Quiet-rbrace rest) refl

  pub call-Reads :
      (n : ℕ) (name : String) (args : Exprs)
      → ReadsList (suc n) args
      → Reads (parse_conditional again (suc n)) (call name args)
  unfolding show settled unary_op parse_primary parse_named starts is_kind advance
  call-Reads n name args h rest q =
      from_primary again n _ _ rest refl (rw (parse_arguments-show (suc n) args h rest, ◌>>=◌) refl)
        q

  pub array_literal-Reads :
      (n : ℕ) (es : Exprs)
      → ReadsList (suc n) es
      → Reads (parse_conditional again (suc n)) (array_literal es)
  unfolding show settled unary_op parse_primary expect starts is_kind advance
  array_literal-Reads n es h rest q =
      from_primary again n _ _ rest refl (rw (parse_items-show (suc n) es h rest, ◌>>=◌) refl) q

  pub object_literal-Reads :
      (n : ℕ) (es : Entries)
      → ReadsEntries (suc n) es
      → Reads (parse_conditional again (suc n)) (object_literal es)
  unfolding show settled unary_op parse_primary expect starts is_kind advance
  object_literal-Reads n es h rest q =
      from_primary again n _ _ rest refl (rw (parse_members-show (suc n) es h rest, ◌>>=◌) refl) q
