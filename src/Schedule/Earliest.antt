-- ===== src/Schedule/Earliest.antt =====
-- The next time of a schedule, `nextAfter` of src/runtime/Scheduler.cpp, among all the times that
-- the schedule matches.
use sapo_engine.Prelude.{
  ℕ, zero, suc, ◌+◌, ◌*◌, ◌/◌, ◌%◌, ◌≤◌, ◌<◌, ◌≡◌, refl, ap, sym, ◌∙◌, subst, Bool, true, false,
  some, List, [], ◌∷◌, ◌==◌, arith, Bool-cases, Option-cases, ◌⊎◌, inl, inr, ==_iff,
}
use sapo_engine.Prelude.Int.{
  ℤ, pos, pos_part, neg_part, ◌+ℤ◌, ◌-ℤ◌, ◌≤ℤ◌, ◌<ℤ◌, leb_ℤ, +ℤ_parts, -ℤ_parts,
}
use sapo_engine.Schedule.{
  break_down, scale, cron, CronExpression, Calendar, has, matches, day_matches, minute_length,
  day_length, div_ℤ, first_in_hour, or_later, first_in_day, minute_of, passed, day_at, day_is_past,
  day_is_legal, search, day_start_of, first_minute_of, horizon, next_on, next_after,
}
use sapo_engine.Schedule.Due.{IsSorted, IsBelow, IsWellFormed, IsDue, IsDue-matches}
use sapo_engine.Schedule.Civil.{IsCivil, day_start-before, minute-broken}
use sapo_engine.Schedule.Search.{first_in_hour-some, first_in_day-some}
use sapo_engine.Schedule.Next.{div_pos, MatchesOn}

has_tail : (x y : ℕ) (xs : List ℕ) → has xs y ≡ true → has (x ∷ xs) y ≡ true
unfolding has
has_tail x y xs h = ground (arith, h)

has_head : (x : ℕ) (xs : List ℕ) → has (x ∷ xs) x ≡ true
unfolding has
has_head x xs = ground arith

-- What is in a set with an element removed from its front.
has_cases : (x y : ℕ) (xs : List ℕ) → has (x ∷ xs) y ≡ true → (x ≡ y) ⊎ (has xs y ≡ true)
unfolding has
has_cases x y xs h = ground (arith, h)

module _ (skip : ℕ → Bool) where
  first_in_hour-earliest :
      (hour minute : ℕ) (minutes : List ℕ)
      → IsSorted minutes
      → has minutes minute ≡ true
      → skip (hour * 60 + minute) ≡ false
      → (m : ℕ) × (first_in_hour skip hour minutes ≡ some m) × (m ≤ hour * 60 + minute)
  unfolding first_in_hour has
  first_in_hour-earliest hour minute [] sorted h kept = absurd (ground (arith, h))
  first_in_hour-earliest hour minute (x ∷ xs) sorted h kept =
      elim (Bool-cases (skip (hour * 60 + x))) [
        | inl skipped ↦ elim (has_cases x minute xs h) [
          | inl same ↦ absurd (ground (arith, same, skipped, kept))
          | inr later ↦
              let (m, found, le) = first_in_hour-earliest hour minute xs sorted.1 later kept in
              (m, ground (arith, skipped, found), le)
        ]
        | inr first ↦ elim (has_cases x minute xs h) [
          | inl same ↦ (hour * 60 + x, ground (arith, first), omega (arith, same))
          | inr later ↦ (hour * 60 + x, ground (arith, first), omega (arith, sorted.0 minute later))
        ]
      ]

  pub first_in_day-earliest :
      (hour minute : ℕ) (hours minutes : List ℕ)
      → IsSorted hours
      → IsSorted minutes
      → IsBelow 60 minutes
      → has hours hour ≡ true
      → has minutes minute ≡ true
      → skip (hour * 60 + minute) ≡ false
      → (m : ℕ) × (first_in_day skip hours minutes ≡ some m) × (m ≤ hour * 60 + minute)
  unfolding first_in_day has or_later
  first_in_day-earliest hour minute [] minutes hs ms below h k kept = absurd (ground (arith, h))
  first_in_day-earliest hour minute (x ∷ xs) minutes hs ms below h k kept =
      elim (has_cases x hour xs h) [
        | inl same ↦
            let (m, found, le) =
              first_in_hour-earliest x minute minutes ms k
                (subst (λ z. skip (z * 60 + minute) ≡ false) (sym same) kept) in
            (m, ground (arith, found), omega (arith, same, le))
        | inr later ↦ elim (Option-cases (first_in_hour skip x minutes)) [
          | inl nothing ↦
              let (m, found, le) =
                first_in_day-earliest hour minute xs minutes hs.1 ms below later k kept in
              (m, ground (arith, nothing, found), le)
          | inr (m, found) ↦
              let (minute', member, at, kept') = first_in_hour-some skip x m minutes found in
              (m, ground (arith, found), omega (arith, at, below minute' member, hs.0 hour later))
        ]
      ]

matches-has :
    (c : CronExpression) (year : ℤ) (month day weekday hour minute : ℕ)
    → matches c year month day weekday hour minute ≡ true
    → (day_matches c year month day weekday ≡ true)
      × (has c.hour hour ≡ true)
      × (has c.minute minute ≡ true)
unfolding day_matches matches
matches-has c year month day weekday hour minute h = ground (arith, h)

earlier_day :
    (s : ℤ) (d day m m' : ℕ)
    → d < day
    → m < 24 * 60
    → (day_at s d +ℤ pos (m * minute_length)) ≤ℤ (day_at s day +ℤ pos (m' * minute_length))
unfolding day_at
earlier_day s d day m m' h below = omega (
  arith,
  h,
  below,
  +ℤ_parts s (pos (d * day_length)),
  +ℤ_parts s (pos (day * day_length)),
  +ℤ_parts (s +ℤ pos (d * day_length)) (pos (m * minute_length)),
  +ℤ_parts (s +ℤ pos (day * day_length)) (pos (m' * minute_length)),
)

not_reached : (n m : ℕ) → n < m * minute_length → leb_ℤ (pos m) (pos (n / minute_length)) ≡ false
not_reached n m h = ground (arith, h)

unpassed :
    (epoch start : ℤ) (d m : ℕ)
    → start ≤ℤ epoch
    → epoch <ℤ (day_at start d +ℤ pos (m * minute_length))
    → passed d (div_ℤ (epoch -ℤ start) minute_length) m ≡ false
unfolding passed day_at
unpassed epoch start zero m from h =
    let (n, gap, quotient) =
      div_pos (epoch -ℤ start) minute_length (omega (arith, from, -ℤ_parts epoch start)) in
    subst (λ q. leb_ℤ (pos m) q ≡ false) (sym quotient)
      (not_reached n m (
        omega (
          arith,
          h,
          ap pos_part gap,
          ap neg_part gap,
          -ℤ_parts epoch start,
          +ℤ_parts start (pos 0),
          +ℤ_parts (start +ℤ pos 0) (pos (m * minute_length)),
        )))
unpassed epoch start (suc d) m from h = refl

module _ (cal : Calendar) (c : CronExpression) (offset : ℤ) (wf : IsWellFormed c) where
  first_in_day-below :
      (skip : ℕ → Bool) (m : ℕ) → first_in_day skip c.hour c.minute ≡ some m → m < 24 * 60
  first_in_day-below skip m e =
      let (hour, minute, in_hours, in_minutes, at, kept) =
        first_in_day-some skip m c.hour c.minute e in
      omega (arith, at, wf.hours_below hour in_hours, wf.minutes_below minute in_minutes)

  search-earliest :
      (s f : ℤ) (n d day m : ℕ)
      → d ≤ day
      → day < d + n
      → ((d' : ℕ) → d' ≤ day → day_is_past cal c offset (day_at s d') ≡ false)
      → day_is_legal cal c offset (day_at s day) ≡ true
      → first_in_day (passed day f) c.hour c.minute ≡ some m
      → (t : ℤ) × (search cal c offset s f n d ≡ some t)
        × (t ≤ℤ (day_at s day +ℤ pos (m * minute_length)))
  unfolding search or_later minute_of
  search-earliest s f zero d day m lo hi ahead legal first = absurd (omega (arith, lo, hi))
  search-earliest s f (suc n) d day m lo hi ahead legal first = elim (Bool-cases (d == day)) [
    | inl same ↦
        let e = (==_iff d day).0 same in
        (
          day_at s day +ℤ pos (m * minute_length),
          rw e (rw (ahead day (omega arith), legal, first) refl),
          omega arith,
        )
    | inr other ↦
        let before : d < day = ground (arith, lo, other) in
        let (t, found, le) =
          search-earliest s f n (suc d) day m before (omega (arith, hi)) ahead legal first in
        elim (Bool-cases (day_is_legal cal c offset (day_at s d))) [
          | inr illegal ↦ (t, rw (ahead d lo, illegal) found, le)
          | inl legal' ↦ elim (Option-cases (first_in_day (passed d f) c.hour c.minute)) [
            | inl nothing ↦ (t, rw (ahead d lo, legal', nothing) found, le)
            | inr (m', found') ↦ (
              day_at s d +ℤ pos (m' * minute_length),
              rw (ahead d lo, legal', found') refl,
              earlier_day s d day m' m before (first_in_day-below (passed d f) m' found'),
            )
          ]
        ]
  ]

  earliest_minute :
      (epoch : ℤ) (d hour minute : ℕ)
      → c.kind ≡ cron
      → day_start_of cal c offset epoch ≤ℤ epoch
      → d < horizon
      → ((d' : ℕ)
          → d' ≤ d
          → day_is_past cal c offset (day_at (day_start_of cal c offset epoch) d') ≡ false)
      → MatchesOn cal c offset (day_at (day_start_of cal c offset epoch) d) hour minute
      → epoch <ℤ (
          day_at (day_start_of cal c offset epoch) d +ℤ pos ((hour * 60 + minute) * minute_length))
      → (t : ℤ) × (next_after cal c offset epoch ≡ some t)
        × (t ≤ℤ (
            day_at (day_start_of cal c offset epoch) d
            +ℤ pos ((hour * 60 + minute) * minute_length)))
  unfolding next_after next_on first_minute_of day_is_legal
  earliest_minute epoch d hour minute is_cron from near ahead matching after =
      let start = day_start_of cal c offset epoch in
      let (legal, in_hours, in_minutes) = matches-has c _ _ _ _ hour minute matching in
      let (m, first, le) =
        first_in_day-earliest (passed d (first_minute_of cal c offset epoch)) hour minute c.hour
          c.minute wf.hours_sorted wf.minutes_sorted wf.minutes_below in_hours in_minutes
          (unpassed epoch start d (hour * 60 + minute) from after) in
      let (t, found, before) =
        search-earliest start (first_minute_of cal c offset epoch) horizon 0 d m (omega arith) near
          ahead legal first in
      (
        t,
        ap (λ k. next_on cal c offset k epoch) is_cron ∙ found,
        omega (
          arith,
          le,
          before,
          +ℤ_parts (day_at start d) (pos (m * minute_length)),
          +ℤ_parts (day_at start d) (pos ((hour * 60 + minute) * minute_length)),
        ),
      )

  local_minute :
      (epoch : ℤ) (local d m : ℕ)
      → IsCivil cal
      → epoch +ℤ scale offset 1000 ≡ pos local
      → m < 1440
      → IsDue c (
          break_down cal
            (day_at (day_start_of cal c offset epoch) d +ℤ pos (m * minute_length))
            offset)
      → MatchesOn cal c offset (day_at (day_start_of cal c offset epoch) d) (m / 60) (m % 60)
  local_minute epoch local d m civil shown h due =
      let at = minute-broken cal c offset epoch civil local shown d m h in
      IsDue-matches c _ (subst (IsDue c) at due)

  -- The next time of a calendar schedule is the earliest local minute that it names after an
  -- instant: where it names a minute of the local clock after the instant, the minute `m` of one of
  -- the 1500 days after the instant's or of that day itself, and no day up to then is past the last
  -- of its years, a time is found, and one that is not after that minute. The fields of the schedule
  -- are sorted and within their ranges, the C library counts days as POSIX says, and the instant is
  -- not before 1970 on the local clock.
  pub next_after-earliest :
      (epoch : ℤ) (local d m : ℕ)
      → IsCivil cal
      → c.kind ≡ cron
      → epoch +ℤ scale offset 1000 ≡ pos local
      → d < horizon
      → m < 1440
      → ((d' : ℕ)
          → d' ≤ d
          → day_is_past cal c offset (day_at (day_start_of cal c offset epoch) d') ≡ false)
      → IsDue c (
          break_down cal
            (day_at (day_start_of cal c offset epoch) d +ℤ pos (m * minute_length))
            offset)
      → epoch <ℤ (day_at (day_start_of cal c offset epoch) d +ℤ pos (m * minute_length))
      → (t : ℤ) × (next_after cal c offset epoch ≡ some t)
        × (t ≤ℤ (day_at (day_start_of cal c offset epoch) d +ℤ pos (m * minute_length)))
  next_after-earliest epoch local d m civil is_cron shown near below ahead due after =
      let minutes : m / 60 * 60 + m % 60 ≡ m = omega arith in
      let day = day_at (day_start_of cal c offset epoch) d in
      let (t, found, le) =
        earliest_minute epoch d (m / 60) (m % 60) is_cron
          (day_start-before cal c offset epoch civil local shown) near ahead
          (local_minute epoch local d m civil shown below due)
          (subst (λ n. epoch <ℤ (day +ℤ pos (n * minute_length))) (sym minutes) after) in
      (t, found, subst (λ n. t ≤ℤ (day +ℤ pos (n * minute_length))) minutes le)
