-- ===== src/Sel/Strictness.antt =====
-- Strict and relaxed evaluation by src/runtime/expressions/Sel.cpp agree, unless a reference is not
-- resolved.
use sapo_engine.Prelude.{String, ◌≡◌, refl, ◌⊎◌, true, false, inr, arith, Option, List, ◌∷◌}
use sapo_engine.Json.{Json, Fields, end, set_field}
use sapo_engine.Sel.Syntax.{
  Expr, literal, variable, member, static_index, index, call, method_call, unary, binary, ternary,
  coalesce, array_literal, object_literal, Exprs, no_exprs, expr, Entries, no_entries, entry,
}
use sapo_engine.Sel.Library.{Library}
use sapo_engine.Sel.Operators.{returned, thrown, ◌>>=◌, apply_unary}
use sapo_engine.Sel.Errors.{is_unresolved, Resolved, with_locals-Resolved, apply_unary-Resolved}
use sapo_engine.Sel.Evaluator.{
  Locals, EvalState, Evaluated, Eval, Argument, collect_dotted_path, resolved, member_value,
  or_when_null, coalesced, eval, eval_items, eval_fields, arguments,
}
use sapo_engine.Sel.Agreement.{strictly, relaxed, Relaxes, AllRelax, same-Agrees, bind-Agrees}
use sapo_engine.Sel.RelaxedSteps.{
  variable_value-Relaxes, index_value-Relaxes, choose-Relaxes, coalesced-Relaxes, combined-Relaxes,
  flat_or-Relaxes, call_function-Relaxes, member_value-Relaxes, FunctionRelaxes,
}

module _ (lib : Library) (resolve : String → Option Json)
    (function_table : String → Option (List Argument → Eval)) where
  abbrev evaluation : Expr → Eval
  evaluation = eval lib resolve function_table

  abbrev path_of : Expr → Option String
  path_of = collect_dotted_path lib resolve function_table

  abbrev IsRelaxed : String → Type 0
  IsRelaxed = FunctionRelaxes lib resolve function_table

  -- Each function that an expression calls does as well relaxed as strict.
  unfoldable mutual
    pub CallsRelaxed : Expr → Type 0
    CallsRelaxed (literal v) = Unit
    CallsRelaxed (variable d name) = Unit
    CallsRelaxed (member optional e name) = CallsRelaxed e
    CallsRelaxed (static_index e i) = CallsRelaxed e
    CallsRelaxed (index e i) = CallsRelaxed e × CallsRelaxed i
    CallsRelaxed (unary op e) = CallsRelaxed e
    CallsRelaxed (binary op l r) = CallsRelaxed l × CallsRelaxed r
    CallsRelaxed (ternary c t e) = CallsRelaxed c × CallsRelaxed t × CallsRelaxed e
    CallsRelaxed (coalesce l r) = CallsRelaxed l × CallsRelaxed r
    CallsRelaxed (array_literal es) = CallRelaxedAll es
    CallsRelaxed (object_literal es) = CallRelaxedIn es
    CallsRelaxed (call name args) = IsRelaxed name × CallRelaxedAll args
    CallsRelaxed (method_call optional e name args) =
        IsRelaxed name × CallsRelaxed e × CallRelaxedAll args

    pub CallRelaxedAll : Exprs → Type 0
    CallRelaxedAll no_exprs = Unit
    CallRelaxedAll (expr e es) = CallsRelaxed e × CallRelaxedAll es

    pub CallRelaxedIn : Entries → Type 0
    CallRelaxedIn no_entries = Unit
    CallRelaxedIn (entry key e es) = CallsRelaxed e × CallRelaxedIn es

  mutual
    unfolding eval eval_items eval_fields arguments CallsRelaxed CallRelaxedAll CallRelaxedIn

    eval-Relaxes : (e : Expr) → CallsRelaxed e → Relaxes (eval lib resolve function_table e)
    eval-Relaxes (literal v) ok locals = (inr refl, refl)
    eval-Relaxes (variable d name) ok locals =
        variable_value-Relaxes lib resolve function_table d name locals
    eval-Relaxes (member optional e name) ok locals =
        flat_or-Relaxes lib resolve function_table
          (resolved lib resolve function_table (path_of (member optional e name)))
          (member_value lib resolve function_table name (evaluation e))
          (member_value-Relaxes lib resolve function_table name (evaluation e) (eval-Relaxes e ok))
          locals
    eval-Relaxes (static_index e i) ok locals =
        bind-Agrees _ _ _ _ (eval-Relaxes e ok locals) (λ x. (inr refl, refl))
    eval-Relaxes (index e i) (ok, oki) locals =
        bind-Agrees _ _ _ _ (eval-Relaxes e ok locals) (λ (v, after).
          index_value-Relaxes lib resolve function_table (evaluation i) v (eval-Relaxes i oki)
            after)
    eval-Relaxes (unary op e) ok locals =
        bind-Agrees _ _ _ _ (eval-Relaxes e ok locals) (λ (v, after).
          same-Agrees _
            (with_locals-Resolved after (apply_unary lib op v) (apply_unary-Resolved lib op v)))
    eval-Relaxes (binary op l r) (okl, okr) locals =
        combined-Relaxes lib resolve function_table op (evaluation l) (evaluation r)
          (eval-Relaxes l okl) (eval-Relaxes r okr) locals
    eval-Relaxes (ternary c t e) (okc, okt, oke) locals =
        choose-Relaxes lib resolve function_table (evaluation c) (evaluation t) (evaluation e)
          (eval-Relaxes c okc) (eval-Relaxes t okt) (eval-Relaxes e oke) locals
    eval-Relaxes (coalesce l r) (okl, okr) locals =
        coalesced-Relaxes lib resolve function_table (evaluation l) (evaluation r)
          (eval-Relaxes l okl) (eval-Relaxes r okr) locals
    eval-Relaxes (array_literal es) ok locals =
        bind-Agrees _ _ _ _ (eval_items-Relaxes es ok locals) (λ x. (inr refl, refl))
    eval-Relaxes (object_literal es) ok locals =
        bind-Agrees _ _ _ _ (eval_fields-Relaxes es end ok locals) (λ x. (inr refl, refl))
    eval-Relaxes (call name args) (known, ok) locals =
        call_function-Relaxes lib resolve function_table name false _ known
          (arguments-AllRelax args ok) locals
    eval-Relaxes (method_call optional e name args) (known, oke, ok) locals =
        call_function-Relaxes lib resolve function_table name true
          ((e, evaluation e) ∷ arguments lib resolve function_table args) known
          (eval-Relaxes e oke, arguments-AllRelax args ok) locals

    eval_items-Relaxes :
        (es : Exprs) → CallRelaxedAll es → Relaxes (eval_items lib resolve function_table es)
    eval_items-Relaxes no_exprs ok locals = (inr refl, refl)
    eval_items-Relaxes (expr e es) (ok, oks) locals =
        bind-Agrees _ _ _ _ (eval-Relaxes e ok locals) (λ (v, after).
          bind-Agrees _ _ _ _ (eval_items-Relaxes es oks after) (λ x. (inr refl, refl)))

    eval_fields-Relaxes :
        (es : Entries) (fs : Fields)
        → CallRelaxedIn es
        → Relaxes (eval_fields lib resolve function_table es fs)
    eval_fields-Relaxes no_entries fs ok locals = (inr refl, refl)
    eval_fields-Relaxes (entry key e es) fs (ok, oks) locals =
        bind-Agrees _ _ _ _ (eval-Relaxes e ok locals)
          (λ (v, after). eval_fields-Relaxes es (set_field key v fs) oks after)

    arguments-AllRelax :
        (es : Exprs) → CallRelaxedAll es → AllRelax (arguments lib resolve function_table es)
    arguments-AllRelax no_exprs ok = tt
    arguments-AllRelax (expr e es) (ok, oks) = (eval-Relaxes e ok, arguments-AllRelax es oks)

-- What a `??` does not resolve, its right side does not resolve.
or_when_null-unresolved :
    (lib : Library) (resolve : String → Option Json)
    (function_table : String → Option (List Argument → Eval)) (right : Eval) (st : EvalState)
    (left : Evaluated Json)
    → Resolved left
    → is_unresolved (left >>= λ (v, after). or_when_null lib resolve function_table right st v)
      ≡ true
    → is_unresolved (right st) ≡ true
unfolding or_when_null
or_when_null-unresolved lib resolve function_table right st (thrown x) q h = absurd (cc (q, h))
or_when_null-unresolved lib resolve function_table right st (returned (v, after)) q h =
    ground (arith, h)

-- Where each function that an expression calls, relaxed, does what it does strictly, or resolves what
-- it does not resolve then, on arguments that do so, evaluation of the expression does so: what is
-- not strict gives what strict evaluation gives, value or exception, with the same locals, unless
-- that is an unresolved reference; and it is never one itself.
pub eval-relaxed :
    (lib : Library) (resolve : String → Option Json)
    (function_table : String → Option (List Argument → Eval)) (e : Expr) (locals : Locals)
    → CallsRelaxed lib resolve function_table e
    → let strict_result = eval lib resolve function_table e (strictly locals) in
      let relaxed_result = eval lib resolve function_table e (relaxed locals) in
      ((is_unresolved strict_result ≡ true) ⊎ (strict_result ≡ relaxed_result))
      × (is_unresolved relaxed_result ≡ false)
eval-relaxed lib resolve function_table e locals ok =
    eval-Relaxes lib resolve function_table e ok locals

-- Where the left side of a `??` calls only such functions, a strict `??` meets an unresolved
-- reference only where its right side does.
pub eval-coalesce :
    (lib : Library) (resolve : String → Option Json)
    (function_table : String → Option (List Argument → Eval)) (l r : Expr) (locals : Locals)
    → CallsRelaxed lib resolve function_table l
    → is_unresolved (eval lib resolve function_table (coalesce l r) (strictly locals)) ≡ true
    → is_unresolved (eval lib resolve function_table r (strictly locals)) ≡ true
unfolding eval coalesced
eval-coalesce lib resolve function_table l r locals ok h =
    or_when_null-unresolved lib resolve function_table (eval lib resolve function_table r)
      (strictly locals) (eval lib resolve function_table l (relaxed locals))
      (eval-Relaxes lib resolve function_table l ok locals).1 h
