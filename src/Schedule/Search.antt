-- ===== src/Schedule/Search.antt =====
-- The search for the next time of a schedule, src/runtime/Scheduler.cpp: what it finds.
use sapo_engine.Prelude.{
  ℕ, zero, suc, ◌+◌, ◌*◌, ◌≤◌, ◌≡◌, Bool, true, false, some, List, [], ◌∷◌, arith, Bool-cases,
  Option-cases, inl, inr,
}
use sapo_engine.Prelude.Int.{ℤ, pos, ◌+ℤ◌}
use sapo_engine.Schedule.{
  CronExpression, Calendar, has, minute_length, first_in_hour, or_later, first_in_day, minute_of,
  passed, day_at, day_is_past, day_is_legal, search,
}

module _ (skip : ℕ → Bool) where
  pub first_in_hour-some :
      (hour m : ℕ) (minutes : List ℕ)
      → first_in_hour skip hour minutes ≡ some m
      → (minute : ℕ) × (has minutes minute ≡ true) × (m ≡ hour * 60 + minute) × (skip m ≡ false)
  unfolding first_in_hour has
  first_in_hour-some hour m [] e = absurd (ground arith)
  first_in_hour-some hour m (x ∷ xs) e = elim (Bool-cases (skip (hour * 60 + x))) [
    | inl skipped ↦
        let (minute, member, at, kept) =
          first_in_hour-some hour m xs (ground (arith, skipped, e)) in
        (minute, ground (arith, member), at, kept)
    | inr kept ↦ (x, ground arith, ground (arith, kept, e), ground (arith, kept, e))
  ]

  pub first_in_day-some :
      (m : ℕ) (hours minutes : List ℕ)
      → first_in_day skip hours minutes ≡ some m
      → (hour : ℕ) × (minute : ℕ) × (has hours hour ≡ true)
        × (has minutes minute ≡ true)
        × (m ≡ hour * 60 + minute)
        × (skip m ≡ false)
  unfolding first_in_day has or_later
  first_in_day-some m [] minutes e = absurd (ground arith)
  first_in_day-some m (h ∷ hs) minutes e = elim (Option-cases (first_in_hour skip h minutes)) [
    | inl nothing ↦
        let (hour, minute, in_hours, in_minutes, at, kept) =
          first_in_day-some m hs minutes (ground (arith, nothing, e)) in
        (hour, minute, ground (arith, in_hours), in_minutes, at, kept)
    | inr (m', found) ↦
        let (minute, in_minutes, at, kept) =
          first_in_hour-some h m minutes (ground (arith, found, e)) in
        (h, minute, ground arith, in_minutes, at, kept)
  ]

module _ (cal : Calendar) (c : CronExpression) (offset : ℤ) where
  -- What the search over the days from `d` on has found.
  pub record Found (day_start first_minute t : ℤ) (d : ℕ) : Type 0 where
    pub day : ℕ
    pub minute : ℕ
    pub not_before : d ≤ day
    pub legal : day_is_legal cal c offset (day_at day_start day) ≡ true
    pub first : first_in_day (passed day first_minute) c.hour c.minute ≡ some minute
    pub time : t ≡ day_at day_start day +ℤ pos (minute * minute_length)

  Found-later :
      (day_start first_minute t : ℤ) (d : ℕ)
      → Found day_start first_minute t (suc d)
      → Found day_start first_minute t d
  Found-later day_start first_minute t d f = record {
    day = f.day;
    minute = f.minute;
    not_before = omega (arith, f.not_before);
    legal = f.legal;
    first = f.first;
    time = f.time;
  }

  pub search-Found :
      (day_start first_minute t : ℤ) (n d : ℕ)
      → search cal c offset day_start first_minute n d ≡ some t
      → Found day_start first_minute t d
  unfolding search or_later minute_of
  search-Found s f t zero d e = absurd (ground arith)
  search-Found s f t (suc n) d e = elim (Bool-cases (day_is_past cal c offset (day_at s d))) [
    | inl past ↦ absurd (ground (arith, past, e))
    | inr not_past ↦ elim (Bool-cases (day_is_legal cal c offset (day_at s d))) [
      | inl legal ↦ elim (Option-cases (first_in_day (passed d f) c.hour c.minute)) [
        | inl nothing ↦
            Found-later s f t d
              (search-Found s f t n (suc d) (ground (arith, not_past, legal, nothing, e)))
        | inr (m, found) ↦ record {
          day = d;
          minute = m;
          not_before = omega arith;
          legal = legal;
          first = found;
          time = ground (arith, not_past, legal, found, e);
        }
      ]
      | inr illegal ↦
          Found-later s f t d (search-Found s f t n (suc d) (ground (arith, not_past, illegal, e)))
    ]
  ]
