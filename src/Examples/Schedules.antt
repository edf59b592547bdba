-- ===== src/Examples/Schedules.antt =====
-- Schedules of src/runtime/Scheduler.cpp on a calendar of January 1970, an hour east of UTC.
use sapo_engine.Prelude.{
  ℕ, ◌+◌, ◌-◌, ◌*◌, ◌/◌, ◌%◌, ◌≡◌, ◌<◌, refl, ap, inl, true, false, some, [], ◌∷◌, arith,
}
use sapo_engine.Prelude.Int.{ℤ, pos, pos_part, ◌+ℤ◌, ◌-ℤ◌, ◌≤ℤ◌, ◌<ℤ◌}
use sapo_engine.Schedule.{
  CronExpression, cron, Calendar, BrokenDownTime, break_down, compose, scale, has, days_agree,
  day_matches, has_year, is_empty, ends_before, day_is_past, day_is_legal, day_start_of, day_at,
  next_after, next_on, search, first_minute_of, minute_length, first_in_day, first_in_hour,
  or_later, minute_of, passed, div_ℤ,
}
use sapo_engine.Schedule.Civil.{IsCivil}
use sapo_engine.Schedule.Due.{IsDue, IsWellFormed}
use sapo_engine.Schedule.Next.{next_after-matches}
use sapo_engine.Schedule.Earliest.{next_after-earliest}

abbrev broken : ℕ → BrokenDownTime
broken n = record {
  year = pos 1970;
  month = 1;
  day = n / 86400 + 1;
  hour = n % 86400 / 3600;
  minute = n % 3600 / 60;
  second = n % 60;
  weekday = (n / 86400 + 4) % 7;
}

abbrev pub january : Calendar
january = record {
  gmtime = λ t. broken (pos_part t);
  timegm = λ b. pos ((b.day - 1) * 86400 + b.hour * 3600 + b.minute * 60 + b.second);
}

-- "30 9 1-3 1 1-5"
abbrev pub work_days : CronExpression
work_days = record {
  kind = cron;
  text = "30 9 1-3 1 1-5";
  minute = 30 ∷ [];
  hour = 9 ∷ [];
  dom = 1 ∷ 2 ∷ 3 ∷ [];
  month = 1 ∷ [];
  dow = 1 ∷ 2 ∷ 3 ∷ 4 ∷ 5 ∷ [];
  year = [];
  dom_restricted = true;
  dow_restricted = true;
  interval_ms = pos 0;
  one_shot = false;
}

pub civil : IsCivil january
civil = record {
  clock = λ day second h. january_day day second h;
  midnight = λ n. ap pos (omega arith);
}
  where
    january_day :
        (day second : ℕ)
        → second < 86400
        → broken (day * 86400 + second) ≡ record (broken (day * 86400)) {
          hour = second / 3600;
          minute = second % 3600 / 60;
          second = second % 60;
        }
    january_day day second h =
        let days : (day * 86400 + second) / 86400 ≡ day * 86400 / 86400 = omega (arith, h) in
        let hours : (day * 86400 + second) % 86400 / 3600 ≡ second / 3600 = omega (arith, h) in
        let minutes : (day * 86400 + second) % 3600 / 60 ≡ second % 3600 / 60 = omega (arith, h) in
        let seconds : (day * 86400 + second) % 60 ≡ second % 60 = omega (arith, h) in
        rw (days, hours, minutes, seconds) refl

-- One second into 1970, an hour east of UTC.
shown : pos 1000 +ℤ scale (pos 3600) 1000 ≡ pos 3601000
unfolding scale ◌+ℤ◌
shown = refl

first_time : next_after january work_days (pos 3600) (pos 1000) ≡ some (pos 30600000)
unfolding next_after next_on search day_start_of break_down compose scale first_minute_of
    day_is_past day_is_legal day_matches has has_year is_empty ends_before days_agree first_in_day
    first_in_hour or_later minute_of passed div_ℤ day_at ◌+ℤ◌ ◌-ℤ◌
first_time = refl

well_formed : IsWellFormed work_days
unfolding has
well_formed = record {
  hours_sorted = (λ y h. ground (arith, h), tt);
  minutes_sorted = (λ y h. ground (arith, h), tt);
  hours_below = λ y h. ground (arith, h);
  minutes_below = λ y h. ground (arith, h);
}

next_after-matches_example :
    (pos 1000 <ℤ pos 30600000)
    × IsDue work_days (break_down january (pos 30600000) (pos 3600))
    × ((break_down january (pos 30600000) (pos 3600)).second ≡ 0)
next_after-matches_example =
    next_after-matches january work_days (pos 3600) (pos 1000) (pos 30600000) 3601000 civil
      well_formed refl shown first_time

no_last_year :
    (d : ℕ)
    → day_is_past january work_days
        (pos 3600)
        (day_at (day_start_of january work_days (pos 3600) (pos 1000)) d)
      ≡ false
unfolding day_is_past is_empty
no_last_year d = refl

second_day : IsDue work_days (
    break_down january
      (day_at (day_start_of january work_days (pos 3600) (pos 1000)) 1 +ℤ pos (570 * minute_length))
      (pos 3600))
unfolding has has_year day_start_of break_down compose scale div_ℤ ◌-ℤ◌ day_at ◌+ℤ◌
second_day = record {
  year = inl refl;
  month = refl;
  day = (λ a b. inl refl, λ free. absurd (ground (arith, free)));
  hour = refl;
  minute = refl;
}

still_ahead : pos 1000 <ℤ (
    day_at (day_start_of january work_days (pos 3600) (pos 1000)) 1 +ℤ pos (570 * minute_length))
unfolding day_start_of break_down compose scale div_ℤ ◌-ℤ◌ day_at ◌+ℤ◌
still_ahead = omega arith

next_after-earliest_example :
    (t : ℤ) × (next_after january work_days (pos 3600) (pos 1000) ≡ some t)
    × (t ≤ℤ (
        day_at (day_start_of january work_days (pos 3600) (pos 1000)) 1
        +ℤ pos (570 * minute_length)))
next_after-earliest_example =
    next_after-earliest january work_days (pos 3600) well_formed (pos 1000) 3601000 1 570 civil refl
      shown (omega arith) (omega arith) (λ d le. no_last_year d) second_day still_ahead
