-- ===== src/Schedule/Next.antt =====
-- The next time of a schedule, `nextAfter` of src/runtime/Scheduler.cpp: when it lies, and that
-- the schedule matches it.
use sapo_engine.Prelude.{
  ℕ, zero, suc, ◌+◌, ◌*◌, ◌/◌, ◌%◌, ◌<◌, ◌≡◌, refl, ap, sym, ◌∙◌, subst, true, false, some, arith,
}
use sapo_engine.Prelude.Int.{
  ℤ, pos, negsuc, pos_part, neg_part, ◌+ℤ◌, ◌-ℤ◌, ◌≤ℤ◌, ◌<ℤ◌, leb_ℤ, +ℤ_parts, -ℤ_parts,
}
use sapo_engine.Schedule.{
  scale, Kind, cron, relative, CronExpression, Calendar, break_down, has, matches, day_matches,
  minute_length, day_length, div_ℤ, passed, day_at, day_is_legal, day_start_of, first_minute_of,
  horizon, next_on, next_after,
}
use sapo_engine.Schedule.Due.{IsWellFormed, IsDue, matches-IsDue}
use sapo_engine.Schedule.Civil.{IsCivil, day_start-before, day_start-after, minute-broken}
use sapo_engine.Schedule.Search.{first_in_day-some, Found, search-Found}

is_pos : (a : ℤ) → pos 0 ≤ℤ a → (n : ℕ) × (a ≡ pos n)
is_pos (pos n) h = (n, refl)
is_pos (negsuc n) h = absurd (omega (arith, h))

pub div_pos : (a : ℤ) (k : ℕ) → pos 0 ≤ℤ a → (n : ℕ) × (a ≡ pos n) × (div_ℤ a k ≡ pos (n / k))
unfolding div_ℤ
div_pos (pos n) k h = (n, refl, refl)
div_pos (negsuc n) k h = absurd (omega (arith, h))

-- A minute of the first day that has not passed lies after the instant that was asked about.
after_first : (n m : ℕ) → leb_ℤ (pos m) (pos (n / minute_length)) ≡ false → n < m * minute_length
after_first n m h = ground (arith, h)

first_day :
    (epoch start : ℤ) (m : ℕ)
    → start ≤ℤ epoch
    → leb_ℤ (pos m) (div_ℤ (epoch -ℤ start) minute_length) ≡ false
    → epoch <ℤ (start +ℤ pos 0 +ℤ pos (m * minute_length))
first_day epoch start m from kept =
    let (n, gap, quotient) =
      div_pos (epoch -ℤ start) minute_length (omega (arith, from, -ℤ_parts epoch start)) in
    let past = after_first n m (subst (λ q. leb_ℤ (pos m) q ≡ false) quotient kept) in
    omega (
      arith,
      past,
      ap pos_part gap,
      ap neg_part gap,
      -ℤ_parts epoch start,
      +ℤ_parts start (pos 0),
      +ℤ_parts (start +ℤ pos 0) (pos (m * minute_length)),
    )

later_day :
    (epoch start : ℤ) (d m : ℕ)
    → epoch <ℤ (start +ℤ pos day_length)
    → epoch <ℤ (start +ℤ pos (suc d * day_length) +ℤ pos (m * minute_length))
later_day epoch start d m h = omega (
  arith,
  h,
  +ℤ_parts start (pos day_length),
  +ℤ_parts start (pos (suc d * day_length)),
  +ℤ_parts (start +ℤ pos (suc d * day_length)) (pos (m * minute_length)),
)

-- A day that matches has all the minutes that are listed.
day_matches-matches :
    (c : CronExpression) (year : ℤ) (month day weekday hour minute : ℕ)
    → day_matches c year month day weekday ≡ true
    → has c.hour hour ≡ true
    → has c.minute minute ≡ true
    → matches c year month day weekday hour minute ≡ true
unfolding day_matches matches
day_matches-matches c year month day weekday hour minute h in_hours in_minutes =
    ground (arith, h, in_hours, in_minutes)

module _ (cal : Calendar) (c : CronExpression) (offset : ℤ) where
  -- The schedule matches a minute of the day that holds an instant.
  abbrev pub MatchesOn : ℤ → ℕ → ℕ → Type 0
  MatchesOn day hour minute =
      let b = break_down cal day offset in
      matches c b.year b.month b.day b.weekday hour minute ≡ true

  found_after :
      (epoch t : ℤ)
      → day_start_of cal c offset epoch ≤ℤ epoch
      → epoch <ℤ (day_start_of cal c offset epoch +ℤ pos day_length)
      → (f : Found cal c offset
          (day_start_of cal c offset epoch)
          (first_minute_of cal c offset epoch)
          t
          0)
      → passed f.day (first_minute_of cal c offset epoch) f.minute ≡ false
      → epoch <ℤ t
  unfolding passed first_minute_of day_at
  found_after epoch t from until f kept = by_day f.day f.time kept
    where
      by_day :
          (d : ℕ)
          → t ≡ day_at (day_start_of cal c offset epoch) d +ℤ pos (f.minute * minute_length)
          → passed d (first_minute_of cal c offset epoch) f.minute ≡ false
          → epoch <ℤ t
      by_day zero at kept' =
          subst (λ x. epoch <ℤ x) (sym at)
            (first_day epoch (day_start_of cal c offset epoch) f.minute from kept')
      by_day (suc d) at kept' =
          subst (λ x. epoch <ℤ x) (sym at)
            (later_day epoch (day_start_of cal c offset epoch) d f.minute until)

  -- The next time of a calendar schedule after an instant, for a calendar that puts the instant
  -- into the day it gives the start of: it lies after the instant, and it is a minute that the
  -- schedule matches, of that day or a later one.
  next_after-found :
      (epoch t : ℤ)
      → c.kind ≡ cron
      → day_start_of cal c offset epoch ≤ℤ epoch
      → epoch <ℤ (day_start_of cal c offset epoch +ℤ pos day_length)
      → next_after cal c offset epoch ≡ some t
      → (epoch <ℤ t)
        × ((d : ℕ) × (hour : ℕ) × (minute : ℕ) × (t
              ≡ day_at (day_start_of cal c offset epoch) d
                +ℤ pos ((hour * 60 + minute) * minute_length))
            × MatchesOn (day_at (day_start_of cal c offset epoch) d) hour minute)
  unfolding next_after next_on day_is_legal
  next_after-found epoch t is_cron from until e =
      let f =
        search-Found cal c offset (day_start_of cal c offset epoch)
          (first_minute_of cal c offset epoch) t horizon 0
          (sym (ap (λ k. next_on cal c offset k epoch) is_cron) ∙ e) in
      let (hour, minute, in_hours, in_minutes, at, kept) =
        first_in_day-some (passed f.day (first_minute_of cal c offset epoch)) f.minute c.hour
          c.minute f.first in
      (
        found_after epoch t from until f kept,
        (
          f.day,
          hour,
          minute,
          subst (λ m. t ≡ day_at (day_start_of cal c offset epoch) f.day +ℤ pos (m * minute_length))
              at f.time,
          day_matches-matches c _ _ _ _ hour minute f.legal in_hours in_minutes,
        ),
      )

  later_by :
      (k : Kind) (epoch t : ℤ)
      → c.kind ≡ k
      → (c.kind ≡ relative → pos 0 <ℤ c.interval_ms)
      → day_start_of cal c offset epoch ≤ℤ epoch
      → epoch <ℤ (day_start_of cal c offset epoch +ℤ pos day_length)
      → next_after cal c offset epoch ≡ some t
      → epoch <ℤ t
  unfolding next_after next_on
  later_by cron epoch t is_cron positive from until e =
      (next_after-found epoch t is_cron from until e).0
  later_by relative epoch t is_relative positive from until e =
      let at : some (epoch +ℤ c.interval_ms) ≡ some t =
        sym (ap (λ k. next_on cal c offset k epoch) is_relative) ∙ e in
      later_than (positive is_relative) (ground (arith, at))
    where
      later_than : pos 0 <ℤ c.interval_ms → epoch +ℤ c.interval_ms ≡ t → epoch <ℤ t
      later_than p at = subst (λ x. epoch <ℤ x) at (omega (arith, p, +ℤ_parts epoch c.interval_ms))

  -- The next time of any schedule lies after the instant, where a fixed delay is positive and the
  -- calendar puts the instant into the day it gives the start of.
  pub next_after-later :
      (epoch t : ℤ)
      → (c.kind ≡ relative → pos 0 <ℤ c.interval_ms)
      → day_start_of cal c offset epoch ≤ℤ epoch
      → epoch <ℤ (day_start_of cal c offset epoch +ℤ pos day_length)
      → next_after cal c offset epoch ≡ some t
      → epoch <ℤ t
  next_after-later epoch t positive from until e =
      later_by c.kind epoch t refl positive from until e

  matches-has_time :
      (year : ℤ) (month day weekday hour minute : ℕ)
      → matches c year month day weekday hour minute ≡ true
      → (has c.hour hour ≡ true) × (has c.minute minute ≡ true)
  unfolding matches
  matches-has_time year month day weekday hour minute h = (ground (arith, h), ground (arith, h))

  minute-IsDue :
      (epoch : ℤ) (local d hour minute : ℕ)
      → IsCivil cal
      → IsWellFormed c
      → epoch +ℤ scale offset 1000 ≡ pos local
      → MatchesOn (day_at (day_start_of cal c offset epoch) d) hour minute
      → let u =
          day_at (day_start_of cal c offset epoch) d
          +ℤ pos ((hour * 60 + minute) * minute_length) in
        IsDue c (break_down cal u offset) × ((break_down cal u offset).second ≡ 0)
  minute-IsDue epoch local d hour minute civil wf shown matching =
      let (in_hours, in_minutes) = matches-has_time _ _ _ _ hour minute matching in
      let h = wf.hours_below hour in_hours in
      let n = wf.minutes_below minute in_minutes in
      let hours : (hour * 60 + minute) / 60 ≡ hour = omega (arith, n) in
      let minutes : (hour * 60 + minute) % 60 ≡ minute = omega (arith, n) in
      let at =
        minute-broken cal c offset epoch civil local shown d (hour * 60 + minute)
          (omega (arith, h, n)) in
      rw (at, hours, minutes) (matches-IsDue c _ matching, refl)

  -- The next time of a calendar schedule after an instant lies after it, and it is the beginning of
  -- a minute that the schedule names: the local clock shows a year, a month, an hour and a minute of
  -- the schedule then, and a day of the month or a day of the week where the schedule restricts
  -- both, else both of these. The fields of the schedule are within their ranges, the C library
  -- counts days as POSIX says, and the instant is not before 1970 on the local clock.
  pub next_after-matches :
      (epoch t : ℤ) (local : ℕ)
      → IsCivil cal
      → IsWellFormed c
      → c.kind ≡ cron
      → epoch +ℤ scale offset 1000 ≡ pos local
      → next_after cal c offset epoch ≡ some t
      → (epoch <ℤ t) × IsDue c (break_down cal t offset) × ((break_down cal t offset).second ≡ 0)
  next_after-matches epoch t local civil wf is_cron shown e =
      let (later, (d, hour, minute, at, matching)) =
        next_after-found epoch t is_cron (day_start-before cal c offset epoch civil local shown)
          (day_start-after cal c offset epoch civil local shown) e in
      let (due, whole) =
        subst (λ u. IsDue c (break_down cal u offset) × ((break_down cal u offset).second ≡ 0))
          (sym at) (minute-IsDue epoch local d hour minute civil wf shown matching) in
      (later, due, whole)

  -- The next time of any schedule lies after an instant that is not before 1970 on the local clock,
  -- where a fixed delay is positive and the C library counts days as POSIX says.
  pub next_after-moves :
      (epoch t : ℤ)
      → IsCivil cal
      → (c.kind ≡ relative → pos 0 <ℤ c.interval_ms)
      → pos 0 ≤ℤ (epoch +ℤ scale offset 1000)
      → next_after cal c offset epoch ≡ some t
      → epoch <ℤ t
  next_after-moves epoch t civil positive since e =
      let (local, shown) = is_pos (epoch +ℤ scale offset 1000) since in
      next_after-later epoch t positive (day_start-before cal c offset epoch civil local shown)
        (day_start-after cal c offset epoch civil local shown) e
