-- ===== src/EventBus/Patterns.antt =====
-- What the patterns of src/runtime/EventBus.cpp match.
use sapo_engine.Prelude.{
  ℕ, ◌+◌, ◌≤◌, ◌-◌, String, ◌≡◌, refl, sym, ap, ◌∙◌, ◌↔◌, Bool, true, false, ◌&&◌, ◌||◌, arith,
  str_eq, ltb, lt→ltb, eq_iff, if◌then◌else◌, Bool-cases, inl, inr,
}
use Prim.Native.String.{len, slice, ◌++◌}
use text.Mathlib.Text.{starts_with}
use text.Mathlib.TextEquality.{starts_with_iff}
use text.Mathlib.TextPositions.{len-append, slice-append_left, slice-append_right}
use sapo_engine.EventBus.{matches}

-- The last test of `matches`.
abbrev by_prefix : String → ℕ → String → Bool
by_prefix pattern n name =
    if ltb 2 n && str_eq (slice pattern (n - 1) n) "*"
    then starts_with name (slice pattern 0 (n - 1))
    else false

by_prefix-star :
    (p name : String) → 2 ≤ len p → by_prefix (p ++ "*") (len (p ++ "*")) name ≡ starts_with name p
by_prefix-star p name h =
    let longer : len (p ++ "*") ≡ len p + 1 = len-append p "*" in
    let less : (len p + 1) - 1 ≡ len p = omega arith in
    let test : ltb 2 (len p + 1) ≡ true = lt→ltb 2 (len p + 1) (omega (arith, h)) in
    let star : slice (p ++ "*") (len p) (len p + 1) ≡ "*" = slice-append_right p "*" in
    rw (longer, less, test, star, slice-append_left p "*") refl

star_is_longer : (p : String) → 2 ≤ len p → (p ++ "*") ≡ "*" → ⊥
star_is_longer p h e =
    let longer : len (p ++ "*") ≡ len p + 1 = len-append p "*" in
    let short : len (p ++ "*") ≡ 1 = ap len e in omega (arith, longer, short, h)

-- A prefix of two bytes or more with a star behind it matches the names that begin with the prefix.
pub matches_wildcard :
    (p name : String) → 2 ≤ len p → (matches (p ++ "*") name ≡ true) ↔ (starts_with name p ≡ true)
unfolding matches
matches_wildcard p name h = elim (Bool-cases (str_eq (p ++ "*") "*" || str_eq (p ++ "*") name)) [
  | inl same ↦ rw same (
    λ e. elim (Bool-cases (str_eq (p ++ "*") "*")) [
      | inl star ↦ absurd (star_is_longer p h ((eq_iff (p ++ "*") "*").0 star))
      | inr longer ↦
          (starts_with_iff name p).1
            ("*", (eq_iff (p ++ "*") name).0 (ground (arith, same, longer)))
    ],
    λ e. refl,
  )
  | inr other ↦
      let tested = by_prefix-star p name h in rw other (λ e. sym tested ∙ e, λ e. tested ∙ e)
]
