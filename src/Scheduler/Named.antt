-- ===== src/Scheduler/Named.antt =====
-- Lists of things with ids, as src/runtime/Scheduler.cpp keeps its timers and jobs: the first
-- thing with an id, after a removal and an addition.
use sapo_engine.Prelude.{
  String, ◌≡◌, refl, none, some, List, [], ◌∷◌, ◌++◌, if◌then◌else◌, str_eq, eq_iff, arith,
  Bool-cases, inl, inr,
}
use sapo_engine.Scheduler.{named, without, first_named}

module _ {A : Type 0} (id_of : A → String) where
  -- No two things of the list have one id.
  abbrev pub IsUnique : List A → Type 0
  IsUnique [] = Unit
  IsUnique (x ∷ xs) = (first_named id_of (id_of x) xs ≡ none) × IsUnique xs

  pub first_named-without :
      (id j : String) (xs : List A)
      → first_named id_of j (without id_of id xs)
        ≡ (if str_eq id j then none else first_named id_of j xs)
  unfolding first_named without named
  first_named-without id j [] = ground arith
  first_named-without id j (x ∷ xs) =
      ground
        (arith, first_named-without id j xs, eq_iff (id_of x) id, eq_iff (id_of x) j, eq_iff id j)

  pub without-IsUnique : (id : String) (xs : List A) → IsUnique xs → IsUnique (without id_of id xs)
  unfolding without named
  without-IsUnique id [] u = tt
  without-IsUnique id (x ∷ xs) u = elim (Bool-cases (str_eq (id_of x) id)) [
    | inl same ↦ rw same (without-IsUnique id xs u.1)
    | inr other ↦ rw other (
      ground (arith, first_named-without id (id_of x) xs, u.0, eq_iff id (id_of x)),
      without-IsUnique id xs u.1,
    )
  ]

  pub first_named-snoc :
      (id : String) (x : A) (xs : List A)
      → first_named id_of (id_of x) xs ≡ none
      → first_named id_of id (xs ++ x ∷ [])
        ≡ (if str_eq (id_of x) id then some x else first_named id_of id xs)
  unfolding first_named
  first_named-snoc id x [] absent = ground arith
  first_named-snoc id x (y ∷ ys) absent = ground (
    arith,
    absent,
    first_named-snoc id x ys,
    eq_iff (id_of x) id,
    eq_iff (id_of y) id,
    eq_iff (id_of y) (id_of x),
  )

  pub snoc-IsUnique :
      (x : A) (xs : List A)
      → first_named id_of (id_of x) xs ≡ none
      → IsUnique xs
      → IsUnique (xs ++ x ∷ [])
  unfolding first_named
  snoc-IsUnique x [] absent u = (refl, tt)
  snoc-IsUnique x (y ∷ ys) absent u = (
    ground (
      arith,
      absent,
      u.0,
      first_named-snoc (id_of y) x ys,
      eq_iff (id_of y) (id_of x),
      eq_iff (id_of x) (id_of y),
    ),
    snoc-IsUnique x ys (ground (arith, absent)) u.1,
  )
