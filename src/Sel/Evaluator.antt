-- ===== src/Sel/Evaluator.antt =====
-- `Evaluator::eval` of src/runtime/expressions/Sel.cpp. The resolver and the table of
-- functions are arguments. A function is given its arguments as nodes with their evaluations, and
-- may change the locals.
use sapo_engine.Prelude.{
  String, Bool, true, false, Option, none, some, List, [], ◌∷◌, if◌then◌else◌,
}
use sapo_engine.Prelude.Map.{Assoc, lookup}
use sapo_engine.Json.{Json, null, boolean, array, object, Items, nil, cons, Fields, end, set_field}
use sapo_engine.Sel.Syntax.{
  BinaryOp, or_op, and_op, Expr, literal, variable, member, static_index, index, call, method_call,
  unary, binary, ternary, coalesce, array_literal, object_literal, Exprs, no_exprs, expr, Entries,
  no_entries, entry,
}
use sapo_engine.Sel.Library.{Library}
use sapo_engine.Sel.Values.{truthy}
use sapo_engine.Sel.Operators.{
  unresolved_reference, unknown_function, find_field, Checked, returned, thrown, ◌>>=◌, member_of,
  element, indexed, apply_unary, apply_binary,
}

abbrev pub Locals : Type 0
Locals = Assoc Json

pub record EvalState : Type 0 where
  pub strict : Bool
  pub locals : Locals

-- A result with the locals after it.
abbrev pub Evaluated : Type 0 → Type 0
Evaluated A = Checked (A × Locals)

abbrev pub Eval : Type 0
Eval = EvalState → Evaluated Json

abbrev pub Argument : Type 0
Argument = Expr × Eval

abbrev pub at_locals : EvalState → Locals → EvalState
at_locals st locals = record st { locals = locals }

abbrev pub with_locals : {A : Type 0} → Locals → Checked A → Evaluated A
with_locals locals r = r >>= λ v. returned (v, locals)

unfoldable pub is_null : Json → Bool
is_null null = true
is_null v = false

unfoldable pub received : String → Json → Checked Json
received name (object fs) = elim (find_field name fs) [
  | some v ↦ returned v
  | none ↦ thrown (unknown_function name)
]
received name v = thrown (unknown_function name)

module _ (lib : Library) (resolve : String → Option Json)
    (function_table : String → Option (List Argument → Eval)) where
  unfoldable pub collect_dotted_path : Expr → Option String
  collect_dotted_path (variable explicit_dollar name) = some name
  collect_dotted_path (member optional e name) = elim (collect_dotted_path e) [
    | some base ↦ some (lib.concat base (lib.concat "." name))
    | none ↦ none
  ]
  collect_dotted_path e = none

  unfoldable pub resolved : Option String → Option Json
  resolved (some path) = resolve path
  resolved none = none

  -- A flat context key comes before the fields.
  unfoldable pub flat_or : Option Json → Eval → Eval
  flat_or (some flat) inside st = returned (flat, st.locals)
  flat_or none inside st = inside st

  unfoldable pub member_value : String → Eval → Eval
  member_value name base st = base st >>= λ (v, locals). returned (member_of lib name v, locals)

  unfoldable pub variable_value : Bool → String → Eval
  variable_value explicit_dollar name st = elim (lookup name st.locals) [
    | some v ↦ returned (v, st.locals)
    | none ↦ elim (resolve name) [
      | some v ↦ returned (v, st.locals)
      | none ↦
          if st.strict
          then thrown (unresolved_reference explicit_dollar name)
          else returned (null, st.locals)
    ]
  ]

  -- The index is evaluated only where the value is not null.
  unfoldable pub index_value : Eval → EvalState → Json → Evaluated Json
  unfolding indexed is_null
  index_value position st v =
      if is_null v
      then returned (null, st.locals)
      else position st >>= λ (i, locals). with_locals locals (indexed lib v i)

  unfoldable pub and_then : Eval → Eval → Eval
  and_then left right st = left st >>= λ (v, locals).
      if truthy lib v
      then (right (at_locals st locals) >>= λ (w, after). returned (boolean (truthy lib w), after))
      else returned (boolean false, locals)

  unfoldable pub or_then : Eval → Eval → Eval
  or_then left right st = left st >>= λ (v, locals).
      if truthy lib v
      then returned (boolean true, locals)
      else (right (at_locals st locals) >>= λ (w, after). returned (boolean (truthy lib w), after))

  unfoldable pub combined : BinaryOp → Eval → Eval → Eval
  unfolding and_then or_then
  combined and_op left right st = and_then left right st
  combined or_op left right st = or_then left right st
  combined op left right st = left st >>= λ (v, locals).
      right (at_locals st locals) >>= λ (w, after). with_locals after (apply_binary lib op v w)

  unfoldable pub choose : Eval → Eval → Eval → Eval
  choose condition yes_branch no_branch st = condition st >>= λ (v, locals).
      if truthy lib v then yes_branch (at_locals st locals) else no_branch (at_locals st locals)

  unfoldable pub or_when_null : Eval → EvalState → Json → Evaluated Json
  unfolding is_null
  or_when_null right st v = if is_null v then right st else returned (v, st.locals)

  -- The left side is evaluated on a relaxed copy of the state.
  unfoldable pub coalesced : Eval → Eval → Eval
  unfolding or_when_null
  coalesced left right st =
      left (record st { strict = false }) >>= λ (v, locals). or_when_null right st v

  -- `obj.field()` where `field` is data; the receiver is the first argument.
  unfoldable pub field_called : String → Bool → List Argument → Eval
  unfolding received
  field_called name true ((e, receiver) ∷ args) st =
      receiver st >>= λ (v, locals). with_locals locals (received name v)
  field_called name is_method args st = thrown (unknown_function name)

  unfoldable pub call_function : String → Bool → List Argument → Eval
  unfolding field_called
  call_function name is_method args st = elim (function_table name) [
    | some f ↦ f args st
    | none ↦ field_called name is_method args st
  ]

  unfoldable mutual
    unfolding collect_dotted_path resolved variable_value index_value combined flat_or member_value
        choose or_when_null coalesced call_function

    pub eval : Expr → Eval
    eval (literal v) st = returned (v, st.locals)
    eval (variable explicit_dollar name) st = variable_value explicit_dollar name st
    eval (member optional e name) st =
        flat_or (resolved (collect_dotted_path (member optional e name)))
          (member_value name (eval e)) st
    eval (static_index e i) st = eval e st >>= λ (v, locals). returned (element lib i v, locals)
    eval (index e i) st = eval e st >>= λ (v, locals). index_value (eval i) (at_locals st locals) v
    eval (unary op e) st = eval e st >>= λ (v, locals). with_locals locals (apply_unary lib op v)
    eval (binary op l r) st = combined op (eval l) (eval r) st
    eval (ternary c t e) st = choose (eval c) (eval t) (eval e) st
    eval (coalesce l r) st = coalesced (eval l) (eval r) st
    eval (array_literal es) st = eval_items es st >>= λ (vs, locals). returned (array vs, locals)
    eval (object_literal es) st =
        eval_fields es end st >>= λ (fs, locals). returned (object fs, locals)
    eval (call name args) st = call_function name false (arguments args) st
    eval (method_call optional e name args) st =
        call_function name true ((e, eval e) ∷ arguments args) st

    pub eval_items : Exprs → EvalState → Evaluated Items
    eval_items no_exprs st = returned (nil, st.locals)
    eval_items (expr e es) st = eval e st >>= λ (v, locals).
        eval_items es (at_locals st locals) >>= λ (vs, after). returned (cons v vs, after)

    pub eval_fields : Entries → Fields → EvalState → Evaluated Fields
    eval_fields no_entries fs st = returned (fs, st.locals)
    eval_fields (entry key e es) fs st =
        eval e st >>= λ (v, locals). eval_fields es (set_field key v fs) (at_locals st locals)

    pub arguments : Exprs → List Argument
    arguments no_exprs = []
    arguments (expr e es) = (e, eval e) ∷ arguments es
