-- ===== src/Sel/Errors.antt =====
-- The operators of src/runtime/expressions/Sel.cpp throw no unresolved reference.
use sapo_engine.Prelude.{String, ◌≡◌, Bool, true, false, Option, arith}
use sapo_engine.Json.{Json}
use sapo_engine.Sel.Syntax.{UnaryOp, BinaryOp}
use sapo_engine.Sel.Library.{Double, Library}
use sapo_engine.Sel.Values.{to_number, both_number}
use sapo_engine.Sel.Operators.{
  EvalError, unresolved_reference, Checked, returned, thrown, require_number, indexed, apply_unary,
  matched, divided, ordered, calculated, numeric, apply_binary,
}
use sapo_engine.Sel.Evaluator.{Locals, with_locals, received}

abbrev pub is_reference : EvalError → Bool
is_reference (unresolved_reference explicit_dollar name) = true
is_reference e = false

-- A result that is an unresolved reference.
abbrev pub is_unresolved : {A : Type 0} → Checked A → Bool
is_unresolved (returned v) = false
is_unresolved (thrown e) = is_reference e

abbrev pub Resolved : {A : Type 0} → Checked A → Type 0
Resolved r = is_unresolved r ≡ false

pub with_locals-Resolved :
    {A : Type 0} (locals : Locals) (r : Checked A) → Resolved r → Resolved (with_locals locals r)
with_locals-Resolved locals (returned v) h = h
with_locals-Resolved locals (thrown x) h = h

pub received-Resolved : (name : String) (v : Json) → Resolved (received name v)
unfolding received
received-Resolved name v = ground arith

module _ (lib : Library) where
  pub indexed-Resolved : (v i : Json) → Resolved (indexed lib v i)
  unfolding indexed require_number
  indexed-Resolved v i = ground arith

  pub apply_unary-Resolved : (op : UnaryOp) (v : Json) → Resolved (apply_unary lib op v)
  unfolding apply_unary require_number
  apply_unary-Resolved op v = ground arith

  numeric-Resolved :
      (op : BinaryOp) (left right : Json) (o : Option (Double × Double))
      → Resolved (numeric lib op left right o)
  unfolding numeric calculated divided ordered
  numeric-Resolved op left right o = ground arith

  pub apply_binary-Resolved : (op : BinaryOp) (v w : Json) → Resolved (apply_binary lib op v w)
  unfolding apply_binary matched
  apply_binary-Resolved op v w =
      ground (arith, numeric-Resolved op v w (both_number (to_number lib v) (to_number lib w)))
