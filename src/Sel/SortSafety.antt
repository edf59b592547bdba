-- ===== src/Sel/SortSafety.antt =====
-- Evaluation by src/runtime/expressions/Sel.cpp keeps to the sorts of the expressions.
use sapo_engine.Prelude.{if_both, String, ◌≡◌, refl, subst, false, arith, Option, none, some, List}
use sapo_engine.Json.{Json, end}
use sapo_engine.Sel.Syntax.{
  UnaryOp, BinaryOp, or_op, and_op, add_op, Expr, literal, unary, binary, ternary, coalesce,
  array_literal, object_literal,
}
use sapo_engine.Sel.Library.{Library}
use sapo_engine.Sel.Values.{truthy, to_number, both_number}
use sapo_engine.Sel.Operators.{
  returned, require_number, apply_unary, matched, divided, ordered, calculated, numeric, added,
  joined, is_text, apply_binary,
}
use sapo_engine.Sel.Evaluator.{
  Locals, at_locals, with_locals, EvalState, Eval, Argument, and_then, or_then, combined, choose,
  is_null, or_when_null, coalesced, eval, eval_items, eval_fields,
}
use sapo_engine.Sel.Sorts.{
  Sort, boolean_sort, text_sort, array_sort, object_sort, sort, same_sort, sort_of_sum,
  sort_of_coalesce, sort_of_binary, sort_of, Fits, Keeps, bind-Keeps, bind-Keeps_from,
  same_sort-Fits_left, same_sort-Fits_right, Keeps-mono, sort_of_coalesce-Fits_right,
  sort_of_coalesce-Fits_left, Keeps-none,
}

module _ (lib : Library) where
  sum-Fits :
      (s t : Option Sort) (v w : Json)
      → Fits s v
      → Fits t w
      → Fits (sort_of_sum s t) (added lib v w (both_number (to_number lib v) (to_number lib w)))
  unfolding added joined is_text both_number to_number
  sum-Fits none none v w h k = tt
  sum-Fits none (some text_sort) v w h k = ground (arith, k)
  sum-Fits none (some t) v w h k = tt
  sum-Fits (some text_sort) none v w h k = ground (arith, h)
  sum-Fits (some s) none v w h k = tt
  sum-Fits (some s) (some t) v w h k = ground (arith, h, k)

  apply_unary-Keeps :
      (op : UnaryOp) (e : Expr) (locals : Locals) (v : Json)
      → Keeps (sort_of (unary op e)) (with_locals locals (apply_unary lib op v))
  unfolding sort_of apply_unary require_number
  apply_unary-Keeps op e locals v = ground arith

  apply_binary-Keeps :
      (op : BinaryOp) (s t : Option Sort) (locals : Locals) (v w : Json)
      → Fits s v
      → Fits t w
      → Keeps (sort_of_binary op s t) (with_locals locals (apply_binary lib op v w))
  unfolding apply_binary matched numeric calculated divided ordered
  apply_binary-Keeps add_op s t locals v w h k = sum-Fits s t v w h k
  apply_binary-Keeps op s t locals v w h k = ground arith

module _ (lib : Library) (resolve : String → Option Json)
    (function_table : String → Option (List Argument → Eval)) where
  abbrev evaluation : Expr → Eval
  evaluation = eval lib resolve function_table

  combined-Keeps :
      (op : BinaryOp) (s t : Option Sort) (l r : Eval) (st : EvalState)
      → ((st : EvalState) → Keeps s (l st))
      → ((st : EvalState) → Keeps t (r st))
      → Keeps (sort_of_binary op s t) (combined lib resolve function_table op l r st)
  unfolding combined and_then or_then
  combined-Keeps and_op s t l r st hl hr = bind-Keeps (some boolean_sort) (l st) _ (λ (v, locals).
      if_both (Keeps (some boolean_sort)) (truthy lib v) _ _
        (λ e. bind-Keeps (some boolean_sort) (r (at_locals st locals)) _ (λ x. refl)) (λ e. refl))
  combined-Keeps or_op s t l r st hl hr = bind-Keeps (some boolean_sort) (l st) _ (λ (v, locals).
      if_both (Keeps (some boolean_sort)) (truthy lib v) _ _ (λ e. refl)
        (λ e. bind-Keeps (some boolean_sort) (r (at_locals st locals)) _ (λ x. refl)))
  combined-Keeps op s t l r st hl hr =
      bind-Keeps_from s (sort_of_binary op s t) (l st) _ (hl st) (λ v locals h.
        bind-Keeps_from t (sort_of_binary op s t) (r (at_locals st locals)) _
          (hr (at_locals st locals)) (λ w after k. apply_binary-Keeps lib op s t after v w h k))

  choose-Keeps :
      (s t : Option Sort) (c l r : Eval) (st : EvalState)
      → ((st : EvalState) → Keeps s (l st))
      → ((st : EvalState) → Keeps t (r st))
      → Keeps (same_sort s t) (choose lib resolve function_table c l r st)
  unfolding choose
  choose-Keeps s t c l r st hl hr = bind-Keeps (same_sort s t) (c st) _ (λ (v, locals).
      if_both (Keeps (same_sort s t)) (truthy lib v) _ _
        (λ e. Keeps-mono s (same_sort s t) _ (same_sort-Fits_left s t) (hl (at_locals st locals)))
        (λ e. Keeps-mono t (same_sort s t) _ (same_sort-Fits_right s t) (hr (at_locals st locals))))

  coalesced-Keeps :
      (s t : Option Sort) (l r : Eval) (st : EvalState)
      → ((st : EvalState) → Keeps s (l st))
      → ((st : EvalState) → Keeps t (r st))
      → Keeps (sort_of_coalesce s t) (coalesced lib resolve function_table l r st)
  unfolding coalesced or_when_null
  coalesced-Keeps s t l r st hl hr =
      let u = sort_of_coalesce s t in
      bind-Keeps_from s u (l (record st { strict = false })) _ (hl (record st { strict = false }))
        (λ v locals h.
          if_both (Keeps u) (is_null v) _ _
            (λ e. Keeps-mono t u _ (λ w k. sort_of_coalesce-Fits_right s t v w h e k) (hr st))
            (λ e. sort_of_coalesce-Fits_left s t v h e))

  -- What evaluation returns has the sort that the expression has, where it has one.
  eval-Keeps : (e : Expr) (st : EvalState) → Keeps (sort_of e) (evaluation e st)
  unfolding eval sort_of
  eval-Keeps (literal v) st = refl
  eval-Keeps (unary op e) st =
      bind-Keeps (sort_of (unary op e)) (evaluation e st) _
        (λ (v, locals). apply_unary-Keeps lib op e locals v)
  eval-Keeps (binary op l r) st =
      combined-Keeps op (sort_of l) (sort_of r) (evaluation l) (evaluation r) st (eval-Keeps l)
        (eval-Keeps r)
  eval-Keeps (ternary c t e) st =
      choose-Keeps (sort_of t) (sort_of e) (evaluation c) (evaluation t) (evaluation e) st
        (eval-Keeps t) (eval-Keeps e)
  eval-Keeps (coalesce l r) st =
      coalesced-Keeps (sort_of l) (sort_of r) (evaluation l) (evaluation r) st (eval-Keeps l)
        (eval-Keeps r)
  eval-Keeps (array_literal es) st =
      bind-Keeps (some array_sort) (eval_items lib resolve function_table es st) _ (λ x. refl)
  eval-Keeps (object_literal es) st =
      bind-Keeps (some object_sort) (eval_fields lib resolve function_table es end st) _ (λ x. refl)
  eval-Keeps e st = Keeps-none (evaluation e st)

-- Where an expression has a sort, each value that evaluation returns for it has that sort, whatever
-- the variables, the functions and the locals are.
pub eval-sort :
    (lib : Library) (resolve : String → Option Json)
    (function_table : String → Option (List Argument → Eval)) (e : Expr) (s : Sort) (st : EvalState)
    (v : Json) (locals : Locals)
    → sort_of e ≡ some s
    → eval lib resolve function_table e st ≡ returned (v, locals)
    → sort v ≡ s
eval-sort lib resolve function_table e s st v locals known returns =
    subst (λ r. Keeps (some s) r) returns
      (subst (λ o. Keeps o (eval lib resolve function_table e st)) known
        (eval-Keeps lib resolve function_table e st))
