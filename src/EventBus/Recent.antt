-- ===== src/EventBus/Recent.antt =====
-- The recent events of src/runtime/EventBus.cpp, as the last of all that were published.
use sapo_engine.Prelude.{
  ℕ, zero, suc, ◌+◌, ◌≤◌, ◌-◌, min, ◌≡◌, refl, sym, ap, ◌∙◌, arith, ltb, Bool-cases, inl, inr, List,
  [], ◌∷◌, ◌++◌, length, drop, length-append, length-drop,
}
use sapo_engine.EventBus.{Event, trim, EventBus, remember, recent_events}

abbrev pub last : {A : Type 0} → ℕ → List A → List A
last n xs = drop (length xs - n) xs

module _ {A : Type 0} where
  drop-nil : (n : ℕ) → drop {A = A} n [] ≡ []
  drop-nil zero = refl
  drop-nil (suc n) = refl

  drop-drop : (m n : ℕ) (xs : List A) → drop m (drop n xs) ≡ drop (n + m) xs
  drop-drop m zero xs = ap (λ k. drop k xs) (omega arith)
  drop-drop m (suc n) [] = drop-nil m ∙ sym (drop-nil (suc n + m))
  drop-drop m (suc n) (x ∷ xs) =
      let sum : suc (n + m) ≡ suc n + m = omega arith in
      drop-drop m n xs ∙ ap (λ k. drop k (x ∷ xs)) sum

  drop-append : (n : ℕ) (xs ys : List A) → n ≤ length xs → drop n (xs ++ ys) ≡ drop n xs ++ ys
  drop-append zero xs ys h = refl
  drop-append (suc n) [] ys h = absurd (omega (arith, h))
  drop-append (suc n) (x ∷ xs) ys h = drop-append n xs ys (omega (arith, h))

  append_assoc : (xs ys zs : List A) → (xs ++ ys) ++ zs ≡ xs ++ (ys ++ zs)
  append_assoc [] ys zs = refl
  append_assoc (x ∷ xs) ys zs = ap (λ l. x ∷ l) (append_assoc xs ys zs)

  last-last : (m n : ℕ) (xs : List A) → last m (last n xs) ≡ last (min m n) xs
  last-last m n xs =
      drop-drop (length (last n xs) - m) (length xs - n) xs
      ∙ ap (λ k. drop k xs) (omega (arith, length-drop (length xs - n) xs))

  -- What is dropped already would be dropped later.
  last-append : (n : ℕ) (xs ys : List A) → last n (last n xs ++ ys) ≡ last n (xs ++ ys)
  last-append n xs ys =
      let kept = length-drop (length xs - n) xs in
      let whole = length-append (last n xs) ys in
      let all = length-append xs ys in
      ap (λ l. drop (length (last n xs ++ ys) - n) l)
        (sym (drop-append (length xs - n) xs ys (omega arith)))
      ∙ drop-drop (length (last n xs ++ ys) - n) (length xs - n) (xs ++ ys)
      ∙ ap (λ k. drop k (xs ++ ys)) (omega (arith, kept, whole, all))

append_nil : {A : Type 0} (xs : List A) → xs ++ [] ≡ xs
append_nil [] = refl
append_nil (x ∷ xs) = ap (λ l. x ∷ l) (append_nil xs)

last_whole : {A : Type 0} (n : ℕ) (xs : List A) → length xs ≤ n → last n xs ≡ xs
last_whole n xs h =
    let nothing : length xs - n ≡ 0 = omega (arith, h) in ap (λ k. drop k xs) nothing

pub trim-last : (capacity : ℕ) (es : List Event) → trim capacity es ≡ last capacity es
unfolding trim
trim-last capacity [] = sym (drop-nil (0 - capacity))
trim-last capacity (e ∷ es) = elim (Bool-cases (ltb capacity (length (e ∷ es)))) [
  | inl full ↦
      let one_more : suc (length es - capacity) ≡ suc (length es) - capacity =
        ground (arith, full) in
      rw full (trim-last capacity es ∙ ap (λ k. drop k (e ∷ es)) one_more)
  | inr room ↦
      let nothing : 0 ≡ suc (length es) - capacity = ground (arith, room) in
      rw room (ap (λ k. drop k (e ∷ es)) nothing)
]

module _ (World : Type 0) where
  -- Publishing one event after the other, as far as the recent events go.
  abbrev pub remember_all : List Event → EventBus World → EventBus World
  remember_all [] bus = bus
  remember_all (e ∷ es) bus = remember_all es (remember World e bus)

  recent-remember_all :
      (es : List Event) (bus : EventBus World)
      → length bus.recent ≤ bus.recent_capacity
      → (remember_all es bus).recent ≡ last bus.recent_capacity (bus.recent ++ es)
  recent-remember_all [] bus h = sym (
      ap (λ l. last bus.recent_capacity l) (append_nil bus.recent)
      ∙ last_whole bus.recent_capacity bus.recent h)
  recent-remember_all (e ∷ es) bus h =
      let now = bus.recent ++ (e ∷ []) in
      let n = bus.recent_capacity in
      let kept = trim-last n now in
      let size = ap length kept in
      let left = length-drop (length now - n) now in
      recent-remember_all es (remember World e bus) (omega (arith, size, left))
      ∙ ap (λ l. last n (l ++ es)) kept
      ∙ last-append n now es
      ∙ ap (λ l. last n l) (append_assoc bus.recent (e ∷ []) es)

  recent_events-last :
      (limit : ℕ) (bus : EventBus World) → recent_events World limit bus ≡ last limit bus.recent
  recent_events-last limit bus = ap (λ k. drop k bus.recent) (ground arith)

-- After events are published on a bus that holds no more than its capacity, `recent` gives the last
-- of all that it held and was given: as many as the limit and the capacity allow.
pub recent_events-remember_all :
    (World : Type 0) (es : List Event) (bus : EventBus World) (limit : ℕ)
    → length bus.recent ≤ bus.recent_capacity
    → recent_events World limit (remember_all World es bus)
      ≡ last (min limit bus.recent_capacity) (bus.recent ++ es)
recent_events-remember_all World es bus limit h =
    recent_events-last World limit (remember_all World es bus)
    ∙ ap (λ l. last limit l) (recent-remember_all World es bus h)
    ∙ last-last limit bus.recent_capacity (bus.recent ++ es)
