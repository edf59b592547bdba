-- ===== src/Sel/Agreement.antt =====
-- Two runs of a step of src/runtime/expressions/Sel.cpp, strict and relaxed, that agree.
use sapo_engine.Prelude.{◌≡◌, refl, sym, subst, ◌⊎◌, true, false, inl, inr, List, [], ◌∷◌}
use sapo_engine.Sel.Operators.{Checked, returned, thrown, ◌>>=◌}
use sapo_engine.Sel.Errors.{is_unresolved, Resolved}
use sapo_engine.Sel.Evaluator.{Locals, EvalState, Evaluated, Argument}

-- A result, and one that is the same or stands for an unresolved reference; the second is no
-- unresolved reference.
abbrev pub Agrees : {A : Type 0} → Checked A → Checked A → Type 0
Agrees r s = ((is_unresolved r ≡ true) ⊎ (r ≡ s)) × Resolved s

abbrev pub strictly : Locals → EvalState
strictly locals = record { strict = true; locals = locals }

abbrev pub relaxed : Locals → EvalState
relaxed locals = record { strict = false; locals = locals }

-- A step that does as well relaxed as strict.
abbrev pub Relaxes : {A : Type 0} → (EvalState → Evaluated A) → Type 0
Relaxes f = (locals : Locals) → Agrees (f (strictly locals)) (f (relaxed locals))

abbrev pub AllRelax : List Argument → Type 0
AllRelax [] = Unit
AllRelax ((e, f) ∷ args) = Relaxes f × AllRelax args

module _ {A : Type 0} where
  pub same-Agrees : (r : Checked A) → Resolved r → Agrees r r
  same-Agrees r h = (inr refl, h)

module _ {A B : Type 0} where
  pub same_bind :
      (r : Checked A) (f g : A → Checked B)
      → Resolved r
      → ((a : A) → Agrees (f a) (g a))
      → Agrees (r >>= f) (r >>= g)
  same_bind (returned a) f g h k = k a
  same_bind (thrown x) f g h k = (inr refl, h)

  pub Resolved-bind :
      (r : Checked A) (f : A → Checked B)
      → Resolved r
      → ((a : A) → Resolved (f a))
      → Resolved (r >>= f)
  Resolved-bind (returned a) f h k = k a
  Resolved-bind (thrown x) f h k = h

  pub bind-Agrees :
      (r s : Checked A) (f g : A → Checked B)
      → Agrees r s
      → ((a : A) → Agrees (f a) (g a))
      → Agrees (r >>= f) (s >>= g)
  bind-Agrees r s f g (inr e, h) k =
      subst (λ r. Agrees (r >>= f) (s >>= g)) (sym e) (same_bind s f g h k)
  bind-Agrees (returned a) s f g (inl u, h) k = absurd (cc u)
  bind-Agrees (thrown x) s f g (inl u, h) k = (inl u, Resolved-bind s g h (λ a. (k a).1))
