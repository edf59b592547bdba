-- ===== src/Sel/RelaxedSteps.antt =====
-- Each step of the evaluator of src/runtime/expressions/Sel.cpp does as well relaxed as strict where
-- its parts do.
use sapo_engine.Prelude.{
  String, ◌≡◌, refl, Bool, true, false, Bool-cases, Option-cases, inl, inr, Option, none, some,
  List, [], ◌∷◌,
}
use sapo_engine.Prelude.Map.{lookup}
use sapo_engine.Json.{Json}
use sapo_engine.Sel.Syntax.{BinaryOp, or_op, and_op}
use sapo_engine.Sel.Library.{Library}
use sapo_engine.Sel.Values.{truthy}
use sapo_engine.Sel.Operators.{indexed, apply_binary}
use sapo_engine.Sel.Errors.{
  with_locals-Resolved, received-Resolved, indexed-Resolved, apply_binary-Resolved,
}
use sapo_engine.Sel.Evaluator.{
  Eval, Argument, received, variable_value, index_value, and_then, or_then, combined, flat_or,
  member_value, is_null, choose, or_when_null, coalesced, field_called, call_function,
}
use sapo_engine.Sel.Agreement.{strictly, relaxed, Relaxes, AllRelax, same-Agrees, bind-Agrees}

module _ (lib : Library) (resolve : String → Option Json)
    (function_table : String → Option (List Argument → Eval)) where
  -- The function of the table with a name, if there is one, does as well relaxed as strict where
  -- its arguments do.
  abbrev pub FunctionRelaxes : String → Type 0
  FunctionRelaxes name =
      (f : List Argument → Eval) (args : List Argument)
      → function_table name ≡ some f
      → AllRelax args
      → Relaxes (f args)

  pub variable_value-Relaxes :
      (explicit_dollar : Bool) (name : String)
      → Relaxes (variable_value lib resolve function_table explicit_dollar name)
  unfolding variable_value lookup
  variable_value-Relaxes explicit_dollar name locals = elim (Option-cases (lookup name locals)) [
    | inr (v, found) ↦ rw found (inr refl, refl)
    | inl no_local ↦ elim (Option-cases (resolve name)) [
      | inr (v, found) ↦ rw (no_local, found) (inr refl, refl)
      | inl missing ↦ rw (no_local, missing) (inl refl, refl)
    ]
  ]

  pub index_value-Relaxes :
      (position : Eval) (v : Json)
      → Relaxes position
      → Relaxes (λ st. index_value lib resolve function_table position st v)
  unfolding index_value
  index_value-Relaxes position v h locals = elim (Bool-cases (is_null v)) [
    | inl nothing ↦ rw nothing (inr refl, refl)
    | inr something ↦ rw something (
        bind-Agrees (position (strictly locals)) (position (relaxed locals)) _ _ (h locals)
          (λ (i, after).
            same-Agrees _
              (with_locals-Resolved after (indexed lib v i) (indexed-Resolved lib v i))))
  ]

  pub or_when_null-Relaxes :
      (right : Eval) (v : Json)
      → Relaxes right
      → Relaxes (λ st. or_when_null lib resolve function_table right st v)
  unfolding or_when_null
  or_when_null-Relaxes right v h locals = elim (Bool-cases (is_null v)) [
    | inl nothing ↦ rw nothing (h locals)
    | inr something ↦ rw something (inr refl, refl)
  ]

  pub choose-Relaxes :
      (c t e : Eval)
      → Relaxes c
      → Relaxes t
      → Relaxes e
      → Relaxes (choose lib resolve function_table c t e)
  unfolding choose
  choose-Relaxes c t e hc ht he locals =
      bind-Agrees (c (strictly locals)) (c (relaxed locals)) _ _ (hc locals) (λ (v, after).
        elim (Bool-cases (truthy lib v)) [
          | inl holds ↦ rw holds (ht after)
          | inr fails ↦ rw fails (he after)
        ])

  pub and_then-Relaxes :
      (l r : Eval) → Relaxes l → Relaxes r → Relaxes (and_then lib resolve function_table l r)
  unfolding and_then
  and_then-Relaxes l r hl hr locals =
      bind-Agrees (l (strictly locals)) (l (relaxed locals)) _ _ (hl locals) (λ (v, after).
        elim (Bool-cases (truthy lib v)) [
          | inl holds ↦ rw holds (
              bind-Agrees (r (strictly after)) (r (relaxed after)) _ _ (hr after)
                (λ x. (inr refl, refl)))
          | inr fails ↦ rw fails (inr refl, refl)
        ])

  pub or_then-Relaxes :
      (l r : Eval) → Relaxes l → Relaxes r → Relaxes (or_then lib resolve function_table l r)
  unfolding or_then
  or_then-Relaxes l r hl hr locals =
      bind-Agrees (l (strictly locals)) (l (relaxed locals)) _ _ (hl locals) (λ (v, after).
        elim (Bool-cases (truthy lib v)) [
          | inl holds ↦ rw holds (inr refl, refl)
          | inr fails ↦ rw fails (
              bind-Agrees (r (strictly after)) (r (relaxed after)) _ _ (hr after)
                (λ x. (inr refl, refl)))
        ])

  -- Both evaluate the left side relaxed.
  pub coalesced-Relaxes :
      (l r : Eval) → Relaxes l → Relaxes r → Relaxes (coalesced lib resolve function_table l r)
  unfolding coalesced
  coalesced-Relaxes l r hl hr locals =
      bind-Agrees (l (relaxed locals)) (l (relaxed locals)) _ _ (inr refl, (hl locals).1)
        (λ (v, after). or_when_null-Relaxes r v hr locals)

  pub combined-Relaxes :
      (op : BinaryOp) (l r : Eval)
      → Relaxes l
      → Relaxes r
      → Relaxes (combined lib resolve function_table op l r)
  unfolding combined
  combined-Relaxes and_op l r hl hr locals = and_then-Relaxes l r hl hr locals
  combined-Relaxes or_op l r hl hr locals = or_then-Relaxes l r hl hr locals
  combined-Relaxes op l r hl hr locals =
      bind-Agrees (l (strictly locals)) (l (relaxed locals)) _ _ (hl locals) (λ (v, after).
        bind-Agrees (r (strictly after)) (r (relaxed after)) _ _ (hr after) (λ (w, left).
          same-Agrees _ (
            with_locals-Resolved left (apply_binary lib op v w)
              (apply_binary-Resolved lib op v w))))

  pub flat_or-Relaxes :
      (flat : Option Json) (inside : Eval)
      → Relaxes inside
      → Relaxes (flat_or lib resolve function_table flat inside)
  unfolding flat_or
  flat_or-Relaxes (some v) inside h locals = (inr refl, refl)
  flat_or-Relaxes none inside h locals = h locals

  pub field_called-Relaxes :
      (name : String) (is_method : Bool) (args : List Argument)
      → AllRelax args
      → Relaxes (field_called lib resolve function_table name is_method args)
  unfolding field_called
  field_called-Relaxes name true ((e, f) ∷ args) (h, hs) locals =
      bind-Agrees (f (strictly locals)) (f (relaxed locals)) _ _ (h locals) (λ (v, after).
        same-Agrees _ (with_locals-Resolved after (received name v) (received-Resolved name v)))
  field_called-Relaxes name true [] h locals = (inr refl, refl)
  field_called-Relaxes name false args h locals = (inr refl, refl)

  pub call_function-Relaxes :
      (name : String) (is_method : Bool) (args : List Argument)
      → FunctionRelaxes name
      → AllRelax args
      → Relaxes (call_function lib resolve function_table name is_method args)
  unfolding call_function
  call_function-Relaxes name is_method args relaxes h locals =
      elim (Option-cases (function_table name)) [
        | inl unknown ↦
            rw (unknown, call_function) (field_called-Relaxes name is_method args h locals)
        | inr (f, found) ↦ rw (found, call_function) (relaxes f args found h locals)
      ]

  pub member_value-Relaxes :
      (name : String) (base : Eval)
      → Relaxes base
      → Relaxes (member_value lib resolve function_table name base)
  unfolding member_value
  member_value-Relaxes name base h locals =
      bind-Agrees (base (strictly locals)) (base (relaxed locals)) _ _ (h locals)
        (λ x. (inr refl, refl))
