-- ===== src/Sel/Sorts.antt =====
-- The kinds of value that an expression of src/runtime/expressions/Sel.cpp can have, read off its
-- nodes, and that evaluation keeps to them.
use sapo_engine.Prelude.{
  ℕ, zero, suc, ◌==◌, ==_iff, if_both, ◌≡◌, refl, sym, ap, ◌∙◌, subst, true, false, arith, Option,
  none, some, if◌then◌else◌,
}
use sapo_engine.Json.{Json, null, boolean, number_integer, number_float, string, array, object}
use sapo_engine.Sel.Syntax.{
  negation, BinaryOp, add_op, sub_op, mul_op, div_op, mod_op, Expr, literal, unary, binary, ternary,
  coalesce, array_literal, object_literal,
}
use sapo_engine.Sel.Operators.{Checked, returned, thrown, ◌>>=◌}
use sapo_engine.Sel.Evaluator.{Locals, Evaluated, is_null}

pub data Sort : Type 0 where
  null_sort boolean_sort integer_sort double_sort text_sort array_sort object_sort : Sort

abbrev pub sort : Json → Sort
sort null = null_sort
sort (boolean b) = boolean_sort
sort (number_integer i) = integer_sort
sort (number_float x) = double_sort
sort (string s) = text_sort
sort (array es) = array_sort
sort (object fs) = object_sort

abbrev tag : Sort → ℕ
tag null_sort = 0
tag boolean_sort = 1
tag integer_sort = 2
tag double_sort = 3
tag text_sort = 4
tag array_sort = 5
tag object_sort = 6

abbrev tagged : ℕ → Sort
tagged zero = null_sort
tagged (suc zero) = boolean_sort
tagged (suc (suc zero)) = integer_sort
tagged (suc (suc (suc zero))) = double_sort
tagged (suc (suc (suc (suc zero)))) = text_sort
tagged (suc (suc (suc (suc (suc zero))))) = array_sort
tagged _ = object_sort

tagged-tag : (s : Sort) → tagged (tag s) ≡ s
tagged-tag null_sort = refl
tagged-tag boolean_sort = refl
tagged-tag integer_sort = refl
tagged-tag double_sort = refl
tagged-tag text_sort = refl
tagged-tag array_sort = refl
tagged-tag object_sort = refl

-- The sort both have.
abbrev pub same_sort : Option Sort → Option Sort → Option Sort
same_sort (some s) (some t) = if tag s == tag t then some s else none
same_sort _ _ = none

-- A sum that has a text is one, two arrays are joined, and numbers are added as doubles.
abbrev pub sort_of_sum : Option Sort → Option Sort → Option Sort
sort_of_sum (some text_sort) t = some text_sort
sort_of_sum s (some text_sort) = some text_sort
sort_of_sum (some array_sort) (some array_sort) = some array_sort
sort_of_sum (some integer_sort) (some integer_sort) = some double_sort
sort_of_sum (some integer_sort) (some double_sort) = some double_sort
sort_of_sum (some double_sort) (some integer_sort) = some double_sort
sort_of_sum (some double_sort) (some double_sort) = some double_sort
sort_of_sum _ _ = none

abbrev pub sort_of_coalesce : Option Sort → Option Sort → Option Sort
sort_of_coalesce none t = none
sort_of_coalesce (some null_sort) t = t
sort_of_coalesce s t = s

abbrev pub sort_of_binary : BinaryOp → Option Sort → Option Sort → Option Sort
sort_of_binary add_op s t = sort_of_sum s t
sort_of_binary sub_op s t = some double_sort
sort_of_binary mul_op s t = some double_sort
sort_of_binary div_op s t = some double_sort
sort_of_binary mod_op s t = some double_sort
sort_of_binary op s t = some boolean_sort

unfoldable pub sort_of : Expr → Option Sort
sort_of (literal v) = some (sort v)
sort_of (unary negation e) = some boolean_sort
sort_of (unary op e) = some double_sort
sort_of (binary op l r) = sort_of_binary op (sort_of l) (sort_of r)
sort_of (ternary c t e) = same_sort (sort_of t) (sort_of e)
sort_of (coalesce l r) = sort_of_coalesce (sort_of l) (sort_of r)
sort_of (array_literal es) = some array_sort
sort_of (object_literal es) = some object_sort
sort_of e = none

-- A value of the sort, where one is known.
abbrev pub Fits : Option Sort → Json → Type 0
Fits none v = Unit
Fits (some s) v = sort v ≡ s

-- Whatever it returns fits.
abbrev pub Keeps : Option Sort → Checked (Json × Locals) → Type 0
Keeps s (returned (v, locals)) = Fits s v
Keeps s (thrown e) = Unit

module _ (s : Option Sort) where
  pub bind-Keeps :
      {A : Type 0} (r : Checked A) (f : A → Evaluated Json)
      → ((a : A) → Keeps s (f a))
      → Keeps s (r >>= f)
  bind-Keeps (returned a) f h = h a
  bind-Keeps (thrown e) f h = tt

-- The same, knowing the sort of what goes in.
pub bind-Keeps_from :
    (s t : Option Sort) (r : Evaluated Json) (f : Json × Locals → Evaluated Json)
    → Keeps s r
    → ((v : Json) (locals : Locals) → Fits s v → Keeps t (f (v, locals)))
    → Keeps t (r >>= f)
bind-Keeps_from s t (returned (v, locals)) f h k = k v locals h
bind-Keeps_from s t (thrown e) f h k = tt

same_tag : (s t : Sort) → (tag s == tag t) ≡ true → s ≡ t
same_tag s t h = sym (tagged-tag s) ∙ ap tagged ((==_iff (tag s) (tag t)).0 h) ∙ tagged-tag t

pub same_sort-Fits_left : (s t : Option Sort) (v : Json) → Fits s v → Fits (same_sort s t) v
same_sort-Fits_left none t v h = tt
same_sort-Fits_left (some s) none v h = tt
same_sort-Fits_left (some s) (some t) v h =
    if_both (λ o. Fits o v) (tag s == tag t) (some s) none (λ e. h) (λ e. tt)

pub same_sort-Fits_right : (s t : Option Sort) (v : Json) → Fits t v → Fits (same_sort s t) v
same_sort-Fits_right none t v h = tt
same_sort-Fits_right (some s) none v h = tt
same_sort-Fits_right (some s) (some t) v h =
    if_both (λ o. Fits o v) (tag s == tag t) (some s) none (λ e. h ∙ sym (same_tag s t e)) (λ e. tt)

pub Keeps-mono :
    (s t : Option Sort) (r : Evaluated Json)
    → ((v : Json) → Fits s v → Fits t v)
    → Keeps s r
    → Keeps t r
Keeps-mono s t (returned (v, locals)) k h = k v h
Keeps-mono s t (thrown e) k h = tt

pub sort_of_coalesce-Fits_right :
    (s t : Option Sort) (v w : Json)
    → Fits s v
    → is_null v ≡ true
    → Fits t w
    → Fits (sort_of_coalesce s t) w
unfolding is_null
sort_of_coalesce-Fits_right none t v w h e k = tt
sort_of_coalesce-Fits_right (some s) t null w h e k =
    subst (λ s. Fits (sort_of_coalesce (some s) t) w) h k
sort_of_coalesce-Fits_right (some s) t (boolean b) w h e k = absurd (cc e)
sort_of_coalesce-Fits_right (some s) t (number_integer i) w h e k = absurd (cc e)
sort_of_coalesce-Fits_right (some s) t (number_float x) w h e k = absurd (cc e)
sort_of_coalesce-Fits_right (some s) t (string x) w h e k = absurd (cc e)
sort_of_coalesce-Fits_right (some s) t (array es) w h e k = absurd (cc e)
sort_of_coalesce-Fits_right (some s) t (object es) w h e k = absurd (cc e)

pub sort_of_coalesce-Fits_left :
    (s t : Option Sort) (v : Json) → Fits s v → is_null v ≡ false → Fits (sort_of_coalesce s t) v
unfolding is_null
sort_of_coalesce-Fits_left none t v h e = tt
sort_of_coalesce-Fits_left (some null_sort) t v h e = absurd (ground (arith, h, e))
sort_of_coalesce-Fits_left (some s) t v h e = h

pub Keeps-none : (r : Evaluated Json) → Keeps none r
Keeps-none (returned (v, locals)) = tt
Keeps-none (thrown e) = tt
