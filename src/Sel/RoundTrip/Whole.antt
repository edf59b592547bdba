-- ===== src/Sel/RoundTrip/Whole.antt =====
-- Every expression, by induction: what the printer writes is read back, by parseTernary and by
-- parseProgram of src/runtime/expressions/Sel.cpp.
use sapo_engine.Prelude.{
  ℕ, zero, suc, ◌+◌, ◌≤◌, ◌<◌, ◌≡◌, refl, ap, ◌∙◌, true, false, [], ◌∷◌, length, arith,
}
use sapo_engine.Json.{null, boolean, number_integer, number_float, string, array, object}
use sapo_engine.Sel.Syntax.{
  Expr, literal, variable, member, static_index, index, call, method_call, unary, binary, ternary,
  coalesce, array_literal, object_literal, Exprs, no_exprs, expr, Entries, no_entries, entry,
  number, ident, lparen, rparen, lbracket, rbracket, rbrace, comma, colon, question, coalesce_mark,
  Tokens,
}
use sapo_engine.Sel.Reading.{ok, ◌>>=◌}
use sapo_engine.Sel.Parser.{parse_ternary, finish, parse_program}
use sapo_engine.Sel.Printer.{
  op_token, show_literal, dot_token, show, show_list, show_entries, enclosed, settled, weight,
  weight_list, weight_entries,
}
use sapo_engine.Sel.RoundTrip.Endings.{Quiet-end}
use sapo_engine.Sel.RoundTrip.Constructs.{
  Reads, literal-Reads, variable-Reads, unary-Reads, binary-Reads, coalesce-Reads, ternary-Reads,
}
use sapo_engine.Sel.RoundTrip.Lists.{
  ReadsList, ReadsEntries, expr-ReadsList, entry-ReadsEntries, call-Reads, array_literal-Reads,
  object_literal-Reads,
}
use sapo_engine.Sel.RoundTrip.Accesses.{
  member-Reads, method_call-Reads, index-Reads, static_index-Reads,
}

mutual
  unfolding weight weight_list weight_entries parse_ternary

  pub parse_ternary-Reads : (e : Expr) (f : ℕ) → weight e ≤ f → Reads (parse_ternary (suc f)) e
  parse_ternary-Reads (literal v) f h = literal-Reads (parse_ternary f) f v
  parse_ternary-Reads (variable explicit_dollar name) f h =
      variable-Reads (parse_ternary f) f explicit_dollar name
  parse_ternary-Reads (member optional e name) (suc f) h =
      member-Reads (parse_ternary (suc f)) f optional e name
        (parse_ternary-Reads e f (omega (arith, h)))
  parse_ternary-Reads (static_index e i) (suc f) h =
      static_index-Reads (parse_ternary (suc f)) f e i (parse_ternary-Reads e f (omega (arith, h)))
        (literal-Reads (parse_ternary f) f (number_integer i))
  parse_ternary-Reads (index e i) (suc f) h =
      index-Reads (parse_ternary (suc f)) f e i (parse_ternary-Reads e f (omega (arith, h)))
        (parse_ternary-Reads i f (omega (arith, h)))
  parse_ternary-Reads (call name args) (suc f) h =
      call-Reads (parse_ternary (suc f)) (suc f) name args
        (parse_list-Reads args f (suc (suc f)) (omega (arith, h)) (omega (arith, h)))
  parse_ternary-Reads (method_call optional e name args) (suc f) h =
      method_call-Reads (parse_ternary (suc f)) f optional e name args
        (parse_ternary-Reads e f (omega (arith, h)))
        (parse_list-Reads args f (suc f) (omega (arith, h)) (omega (arith, h)))
  parse_ternary-Reads (unary op e) (suc f) h =
      unary-Reads (parse_ternary (suc f)) f op e (parse_ternary-Reads e f (omega (arith, h)))
  parse_ternary-Reads (binary op l r) (suc f) h =
      binary-Reads (parse_ternary (suc f)) f op l r (parse_ternary-Reads l f (omega (arith, h)))
        (parse_ternary-Reads r f (omega (arith, h)))
  parse_ternary-Reads (ternary c t e) (suc f) h =
      ternary-Reads (parse_ternary (suc f)) f c t e (parse_ternary-Reads c f (omega (arith, h)))
        (parse_ternary-Reads t f (omega (arith, h))) (parse_ternary-Reads e f (omega (arith, h)))
  parse_ternary-Reads (coalesce l r) (suc f) h =
      coalesce-Reads (parse_ternary (suc f)) f l r (parse_ternary-Reads l f (omega (arith, h)))
        (parse_ternary-Reads r f (omega (arith, h)))
  parse_ternary-Reads (array_literal es) (suc f) h =
      array_literal-Reads (parse_ternary (suc f)) (suc f) es
        (parse_list-Reads es f (suc (suc f)) (omega (arith, h)) (omega (arith, h)))
  parse_ternary-Reads (object_literal es) (suc f) h =
      object_literal-Reads (parse_ternary (suc f)) (suc f) es
        (parse_entries-Reads es f (suc (suc f)) (omega (arith, h)) (omega (arith, h)))
  parse_ternary-Reads _ zero h = absurd (omega (arith, h))

  parse_list-Reads :
      (es : Exprs) (f n : ℕ)
      → weight_list es ≤ f
      → weight_list es ≤ n
      → ReadsList (parse_ternary (suc f)) n es
  parse_list-Reads no_exprs f n hf hn = tt
  parse_list-Reads (expr e es) f zero hf hn = absurd (omega (arith, hn))
  parse_list-Reads (expr e es) f (suc n) hf hn =
      expr-ReadsList (parse_ternary (suc f)) n e es (parse_ternary-Reads e f (omega (arith, hf)))
        (parse_list-Reads es f n (omega (arith, hf)) (omega (arith, hn)))

  parse_entries-Reads :
      (es : Entries) (f n : ℕ)
      → weight_entries es ≤ f
      → weight_entries es ≤ n
      → ReadsEntries (parse_ternary (suc f)) n es
  parse_entries-Reads no_entries f n hf hn = tt
  parse_entries-Reads (entry key e es) f zero hf hn = absurd (omega (arith, hn))
  parse_entries-Reads (entry key e es) f (suc n) hf hn =
      entry-ReadsEntries (parse_ternary (suc f)) n key e es
        (parse_ternary-Reads e f (omega (arith, hf)))
        (parse_entries-Reads es f n (omega (arith, hf)) (omega (arith, hn)))

-- The tokens written are enough fuel.
mutual
  unfolding weight weight_list weight_entries show show_list show_entries show_literal

  pub length-show : (e : Expr) (rest : Tokens) → weight e + length rest < length (show e rest)
  length-show (literal null) rest = omega arith
  length-show (literal (boolean true)) rest = omega arith
  length-show (literal (boolean false)) rest = omega arith
  length-show (literal (number_integer i)) rest = omega arith
  length-show (literal (number_float x)) rest = omega arith
  length-show (literal (string s)) rest = omega arith
  length-show (literal (array es)) rest = omega arith
  length-show (literal (object es)) rest = omega arith
  length-show (variable true name) rest = omega arith
  length-show (variable false name) rest = omega arith
  length-show (member optional e name) rest =
      let h = length-show e (rparen ∷ dot_token optional ∷ ident name ∷ rest) in omega (arith, h)
  length-show (static_index e i) rest =
      let h = length-show e (rparen ∷ lbracket ∷ number "" (number_integer i) ∷ rbracket ∷ rest) in
      omega (arith, h)
  length-show (index e i) rest =
      let h = length-show e (rparen ∷ lbracket ∷ show i (rbracket ∷ rest)) in
      let h' = length-show i (rbracket ∷ rest) in omega (arith, h, h')
  length-show (call name args) rest =
      let h = length-show_list args (rparen ∷ rest) in omega (arith, h)
  length-show (method_call optional e name args) rest =
      let inside = show_list args (rparen ∷ rest) in
      let h = length-show e (rparen ∷ dot_token optional ∷ ident name ∷ lparen ∷ inside) in
      let h' = length-show_list args (rparen ∷ rest) in omega (arith, h, h')
  length-show (unary op e) rest = let h = length-show e (rparen ∷ rest) in omega (arith, h)
  length-show (binary op l r) rest =
      let h = length-show l (rparen ∷ op_token op ∷ enclosed r rest) in
      let h' = length-show r (rparen ∷ rest) in omega (arith, h, h')
  length-show (ternary c t e) rest =
      let h = length-show c (rparen ∷ question ∷ show t (colon ∷ show e rest)) in
      let h' = length-show t (colon ∷ show e rest) in
      let h'' = length-show e rest in omega (arith, h, h', h'')
  length-show (coalesce l r) rest =
      let h = length-show l (rparen ∷ coalesce_mark ∷ enclosed r rest) in
      let h' = length-show r (rparen ∷ rest) in omega (arith, h, h')
  length-show (array_literal es) rest =
      let h = length-show_list es (rbracket ∷ rest) in omega (arith, h)
  length-show (object_literal es) rest =
      let h = length-show_entries es (rbrace ∷ rest) in omega (arith, h)

  length-show_list :
      (es : Exprs) (rest : Tokens) → weight_list es + length rest ≤ length (show_list es rest)
  length-show_list no_exprs rest = omega arith
  length-show_list (expr e no_exprs) rest = let h = length-show e rest in omega (arith, h)
  length-show_list (expr e (expr e' es)) rest =
      let h = length-show e (comma ∷ show_list (expr e' es) rest) in
      let h' = length-show_list (expr e' es) rest in omega (arith, h, h')

  length-show_entries :
      (es : Entries) (rest : Tokens)
      → weight_entries es + length rest ≤ length (show_entries es rest)
  length-show_entries no_entries rest = omega arith
  length-show_entries (entry key e no_entries) rest = let h = length-show e rest in omega (arith, h)
  length-show_entries (entry key e (entry key' e' es)) rest =
      let h = length-show e (comma ∷ show_entries (entry key' e' es) rest) in
      let h' = length-show_entries (entry key' e' es) rest in omega (arith, h, h')

pub parse_program-nonempty :
    (ts : Tokens)
    → 0 < length ts
    → parse_program ts ≡ (parse_ternary (suc (length ts)) ts >>= finish)
unfolding parse_program
parse_program-nonempty [] h = absurd (omega (arith, h))
parse_program-nonempty (t ∷ ts) h = refl

-- The tokens written for any expression are read back by parseProgram as that expression, with a
-- static index in place of each index that is an integer literal, and each static index narrowed to
-- the 32 bits of an `int`.
pub parse_program-show : (e : Expr) → parse_program (show e []) ≡ ok (settled e)
unfolding finish
parse_program-show e =
    let h = length-show e [] in
    parse_program-nonempty (show e []) (omega (arith, h))
    ∙ ap (λ r. r >>= finish)
        (parse_ternary-Reads e (length (show e [])) (omega (arith, h)) [] Quiet-end)
