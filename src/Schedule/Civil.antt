-- ===== src/Schedule/Civil.antt =====
-- Local times of src/util/TimeUtils.cpp on a C library that counts days of 86400 seconds: the start
-- of a day, `day_start_ms` of src/runtime/Scheduler.cpp, and the minutes of the days after it.
use sapo_engine.Prelude.{ℕ, ◌+◌, ◌*◌, ◌/◌, ◌%◌, ◌<◌, ◌≡◌, refl, ap, ◌∙◌, arith}
use sapo_engine.Prelude.Int.{
  ℤ, pos, negsuc, pos_part, neg_part, ◌+ℤ◌, ◌-ℤ◌, ◌≤ℤ◌, ◌<ℤ◌, +ℤ_parts, -ℤ_parts, eq_of_parts,
}
use sapo_engine.Schedule.{
  CronExpression, Calendar, break_down, compose, scale, div_ℤ, day_length, minute_length, day_at,
  day_start_of,
}

-- What POSIX says of `gmtime_r` and `timegm` on the seconds since the epoch: a day has 86400
-- seconds, within a day only the clock moves, and a date at midnight stands for the day's start.
pub record IsCivil (cal : Calendar) : Type 0 where
  pub clock :
      (day second : ℕ)
      → second < 86400
      → cal.gmtime (pos (day * 86400 + second)) ≡ record (cal.gmtime (pos (day * 86400))) {
        hour = second / 3600;
        minute = second % 3600 / 60;
        second = second % 60;
      }
  pub midnight :
      (n : ℕ)
      → cal.timegm (record (cal.gmtime (pos n)) { hour = 0; minute = 0; second = 0; weekday = 4 })
        ≡ pos (n / 86400 * 86400)

scale_parts :
    (a : ℤ) (k : ℕ) → pos_part (scale a k) + neg_part a * k ≡ neg_part (scale a k) + pos_part a * k
unfolding scale
scale_parts (pos n) k = ground arith
scale_parts (negsuc n) k = ground arith

local_ms :
    (a x : ℕ) (offset : ℤ)
    → scale (pos a -ℤ offset) 1000 +ℤ pos x +ℤ scale offset 1000 ≡ pos (a * 1000 + x)
local_ms a x offset =
    let start = scale (pos a -ℤ offset) 1000 in
    eq_of_parts _ _ (
      omega (
        arith,
        scale_parts (pos a -ℤ offset) 1000,
        -ℤ_parts (pos a) offset,
        scale_parts offset 1000,
        +ℤ_parts start (pos x),
        +ℤ_parts (start +ℤ pos x) (scale offset 1000),
      ))

seconds_of : (n : ℕ) → div_ℤ (pos (n * 1000)) 1000 ≡ pos n
unfolding div_ℤ
seconds_of n = ap pos (omega arith)

-- The instant is not before 1970 on the local clock: that shows `local` milliseconds.
module _ (cal : Calendar) (c : CronExpression) (offset epoch : ℤ) (civil : IsCivil cal) (local : ℕ)
    (shown : epoch +ℤ scale offset 1000 ≡ pos local) where
  abbrev today : ℕ
  today = local / 1000 / 86400

  day_start-at : day_start_of cal c offset epoch ≡ scale (pos (today * 86400) -ℤ offset) 1000
  unfolding day_start_of compose break_down div_ℤ
  day_start-at =
      ap
        (λ t.
          let start = cal.gmtime (div_ℤ t 1000) in
          scale
            (cal.timegm (record start { hour = 0; minute = 0; second = 0; weekday = 4 }) -ℤ offset)
            1000)
        shown
      ∙ ap (λ t. scale (t -ℤ offset) 1000) (civil.midnight (local / 1000))

  -- The day that the search begins with holds the instant.
  pub day_start-before : day_start_of cal c offset epoch ≤ℤ epoch
  day_start-before = rw day_start-at (
      omega (
        arith,
        scale_parts (pos (today * 86400) -ℤ offset) 1000,
        -ℤ_parts (pos (today * 86400)) offset,
        scale_parts offset 1000,
        +ℤ_parts epoch (scale offset 1000),
        ap pos_part shown,
        ap neg_part shown,
      ))

  pub day_start-after : epoch <ℤ (day_start_of cal c offset epoch +ℤ pos day_length)
  day_start-after = rw day_start-at (
      omega (
        arith,
        scale_parts (pos (today * 86400) -ℤ offset) 1000,
        -ℤ_parts (pos (today * 86400)) offset,
        scale_parts offset 1000,
        +ℤ_parts (scale (pos (today * 86400) -ℤ offset) 1000) (pos day_length),
        +ℤ_parts epoch (scale offset 1000),
        ap pos_part shown,
        ap neg_part shown,
      ))

  abbrev day_of : ℕ → ℤ
  day_of d = day_at (day_start_of cal c offset epoch) d

  day_ms : (d : ℕ) → day_of d +ℤ scale offset 1000 ≡ pos ((today + d) * 86400 * 1000)
  unfolding day_at
  day_ms d =
      ap (λ s. s +ℤ pos (d * day_length) +ℤ scale offset 1000) day_start-at
      ∙ local_ms (today * 86400) (d * day_length) offset
      ∙ ap pos (omega arith)

  minute_ms :
      (d m : ℕ)
      → day_of d +ℤ pos (m * minute_length) +ℤ scale offset 1000
        ≡ pos (((today + d) * 86400 + m * 60) * 1000)
  minute_ms d m = eq_of_parts _ _ (
      omega (
        arith,
        ap pos_part (day_ms d),
        ap neg_part (day_ms d),
        +ℤ_parts (day_of d) (scale offset 1000),
        +ℤ_parts (day_of d) (pos (m * minute_length)),
        +ℤ_parts (day_of d +ℤ pos (m * minute_length)) (scale offset 1000),
      ))

  day-broken : (d : ℕ) → break_down cal (day_of d) offset ≡ cal.gmtime (pos ((today + d) * 86400))
  unfolding break_down
  day-broken d =
      ap (λ t. cal.gmtime (div_ℤ t 1000)) (day_ms d)
      ∙ ap cal.gmtime (seconds_of ((today + d) * 86400))

  at_second :
      (d m : ℕ)
      → m < 1440
      → break_down cal (day_of d +ℤ pos (m * minute_length)) offset
        ≡ record (cal.gmtime (pos ((today + d) * 86400))) {
          hour = m * 60 / 3600;
          minute = m * 60 % 3600 / 60;
          second = m * 60 % 60;
        }
  unfolding break_down
  at_second d m h =
      ap (λ t. cal.gmtime (div_ℤ t 1000)) (minute_ms d m)
      ∙ ap cal.gmtime (seconds_of ((today + d) * 86400 + m * 60))
      ∙ civil.clock (today + d) (m * 60) (omega (arith, h))

  -- A minute of a day after the instant's is on the local clock what its number says.
  pub minute-broken :
      (d m : ℕ)
      → m < 1440
      → break_down cal (day_of d +ℤ pos (m * minute_length)) offset
        ≡ record (break_down cal (day_of d) offset) { hour = m / 60; minute = m % 60; second = 0 }
  minute-broken d m h =
      let hours : m * 60 / 3600 ≡ m / 60 = omega arith in
      let minutes : m * 60 % 3600 / 60 ≡ m % 60 = omega arith in
      let seconds : m * 60 % 60 ≡ 0 = omega arith in
      at_second d m h ∙ rw (day-broken d, hours, minutes, seconds) refl
