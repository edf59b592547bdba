-- ===== src/Examples/Evaluations.antt =====
-- Evaluations by src/runtime/expressions/Sel.cpp, over a small library whose doubles are natural
-- numbers.
use sapo_engine.Prelude.{
  ℕ, ◌+◌, ◌-◌, ◌*◌, ◌/◌, ◌%◌, String, ◌≡◌, refl, ap, subst, ◌⊎◌, Bool, true, false, inr, Option,
  none, some, List, [], ◌∷◌, if◌then◌else◌, ltb, ◌==◌, str_eq,
}
use sapo_engine.Prelude.Map.{lookup}
use sapo_engine.Prelude.Int.{ℤ, pos, negsuc}
use sapo_engine.Json.{Json, null, number_integer, number_float, string}
use sapo_engine.Sel.Syntax.{
  eq_op, Expr, literal, variable, call, binary, ternary, coalesce, no_exprs, expr,
}
use sapo_engine.Sel.Library.{Library}
use sapo_engine.Sel.Operators.{returned, apply_binary}
use sapo_engine.Sel.Evaluator.{Eval, Argument, eval}
use sapo_engine.Sel.Errors.{is_unresolved}
use sapo_engine.Sel.Strictness.{CallsRelaxed, CallRelaxedAll, eval-relaxed}
use sapo_engine.Sel.Agreement.{AllRelax, Relaxes, strictly, relaxed}
use sapo_engine.Sel.Sorts.{sort, sort_of, text_sort}
use sapo_engine.Sel.SortSafety.{eval-sort}

abbrev small_integer : ℤ → ℕ
small_integer (pos n) = n
small_integer (negsuc n) = 0

abbrev small : Library
small = record {
  of_integer = small_integer;
  to_integer = pos;
  is_finite = λ x. true;
  equal = λ x y. x == y;
  less = λ x y. ltb x y;
  negate = λ x. 0;
  sum = λ x y. x + y;
  difference = λ x y. x - y;
  product = λ x y. x * y;
  quotient = λ x y. x / y;
  fmod = λ x y. x % y;
  abs = λ x. x;
  floor = λ x. x;
  round = λ x. x;
  log10 = λ x. 0;
  pow = λ x y. 1;
  quadrillion = 1000;
  billionth = 0;
  stod = λ s. none;
  stoi = λ s. none;
  to_string = λ i. "number";
  size = λ s. 1;
  byte_at = λ s n. s;
  is_space = λ s n. false;
  comes_before = λ s t. false;
  concat = λ s t. s;
  contains_text = λ s t. true;
  pop_back = λ s. s;
  ends_with = λ s t. false;
  regex_search = λ s t. some true;
  same = λ v w. true;
  dump = λ v. "document";
  merge_patch = λ v w. w;
}

abbrev known_names : String → Option Json
known_names name = if str_eq name "count" then some (number_float 3) else none

-- One function, which evaluates its first argument.
abbrev first_argument : List Argument → Eval
first_argument [] st = returned (null, st.locals)
first_argument ((e, f) ∷ args) st = f st

abbrev where_named : Bool → Option (List Argument → Eval)
where_named true = some first_argument
where_named false = none

abbrev one_function : String → Option (List Argument → Eval)
one_function name = where_named (str_eq name "same")

abbrev or_first : Option (List Argument → Eval) → List Argument → Eval
or_first (some f) = f
or_first none = first_argument

first_argument-Relaxes : (args : List Argument) → AllRelax args → Relaxes (first_argument args)
first_argument-Relaxes [] h locals = (inr refl, refl)
first_argument-Relaxes ((e, f) ∷ args) (h, hs) locals = h locals

where_named-Relaxes :
    (b : Bool) (f : List Argument → Eval) (args : List Argument)
    → where_named b ≡ some f
    → AllRelax args
    → Relaxes (f args)
where_named-Relaxes true f args e h =
    subst (λ g. Relaxes (g args)) (ap or_first e) (first_argument-Relaxes args h)
where_named-Relaxes false f args e h = absurd (cc e)

one_function-Relaxes :
    (name : String) (f : List Argument → Eval) (args : List Argument)
    → one_function name ≡ some f
    → AllRelax args
    → Relaxes (f args)
one_function-Relaxes name = where_named-Relaxes (str_eq name "same")

-- `same(missing) ?? count`
abbrev fallback : Expr
fallback =
    coalesce (call "same" (expr (variable false "missing") no_exprs)) (variable false "count")

-- `missing ?? other`
abbrev unknown : Expr
unknown = coalesce (variable false "missing") (variable false "other")

fallback-CallsRelaxed : CallsRelaxed small known_names one_function fallback
unfolding CallsRelaxed CallRelaxedAll
fallback-CallsRelaxed = ((one_function-Relaxes "same", (tt, tt)), tt)

eval-relaxed_example :
    ((is_unresolved (eval small known_names one_function fallback (strictly [])) ≡ true)
      ⊎ (eval small known_names one_function fallback (strictly [])
          ≡ eval small known_names one_function fallback (relaxed [])))
    × (is_unresolved (eval small known_names one_function fallback (relaxed [])) ≡ false)
eval-relaxed_example = eval-relaxed small known_names one_function fallback [] fallback-CallsRelaxed

fallback_value :
    eval small known_names one_function fallback (strictly []) ≡ returned (number_float 3, [])
unfolding eval lookup
fallback_value = refl

-- `count == 3 ? "yes" : "no"`
abbrev answer : Expr
answer =
    ternary (binary eq_op (variable false "count") (literal (number_integer (pos 3))))
      (literal (string "yes")) (literal (string "no"))

eval-sort_example : sort (string "yes") ≡ text_sort
unfolding eval sort_of lookup apply_binary
eval-sort_example =
    eval-sort small known_names one_function answer text_sort (strictly []) (string "yes") [] refl
      refl
