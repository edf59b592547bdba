-- ===== src/Schedule.antt =====
-- Schedules, `CronExpression` of src/runtime/Scheduler.hpp and src/runtime/Scheduler.cpp: what a
-- parsed schedule matches, and the search for its next time. With the calendar of
-- src/util/TimeUtils.cpp, `breakDown` and `compose`, over the C library's.
use sapo_engine.Prelude.{
  ℕ, zero, suc, ◌+◌, ◌*◌, ◌/◌, String, Bool, true, false, not, ◌&&◌, ◌||◌, Option, none, some, List,
  [], ◌∷◌, if◌then◌else◌, ◌==◌,
}
use sapo_engine.Prelude.Int.{ℤ, pos, negsuc, sub_ℕ, ◌+ℤ◌, ◌-ℤ◌, ltb_ℤ, leb_ℤ, eqb_ℤ}
pub mod Search
pub mod Due
pub mod Civil
pub mod Next
pub mod Earliest

pub data Kind : Type 0 where
  cron relative : Kind

-- A `std::set<int>` is the list of its elements in their order.
pub record CronExpression : Type 0 where
  pub kind : Kind
  pub text : String
  pub minute : List ℕ
  pub hour : List ℕ
  pub dom : List ℕ
  pub month : List ℕ
  pub dow : List ℕ
  pub year : List ℕ
  pub dom_restricted : Bool
  pub dow_restricted : Bool
  pub interval_ms : ℤ
  pub one_shot : Bool

pub record BrokenDownTime : Type 0 where
  pub year : ℤ
  pub month : ℕ
  pub day : ℕ
  pub hour : ℕ
  pub minute : ℕ
  pub second : ℕ
  pub weekday : ℕ

-- `gmtime_r` and `timegm` of the C library, on seconds since the epoch; the fields count as those
-- of `BrokenDownTime` do.
pub record Calendar : Type 0 where
  pub gmtime : ℤ → BrokenDownTime
  pub timegm : BrokenDownTime → ℤ

-- The division of signed integers, which rounds towards zero.
unfoldable pub div_ℤ : ℤ → ℕ → ℤ
div_ℤ (pos n) k = pos (n / k)
div_ℤ (negsuc n) k = sub_ℕ 0 (suc n / k)

unfoldable pub scale : ℤ → ℕ → ℤ
scale (pos n) k = pos (n * k)
scale (negsuc n) k = sub_ℕ 0 (suc n * k)

unfoldable pub break_down : Calendar → ℤ → ℤ → BrokenDownTime
break_down cal epoch_ms offset = cal.gmtime (div_ℤ (epoch_ms +ℤ scale offset 1000) 1000)

unfoldable pub compose : Calendar → BrokenDownTime → ℤ → ℤ
compose cal tm offset = scale (cal.timegm tm -ℤ offset) 1000

-- `std::set::count`
unfoldable pub has : List ℕ → ℕ → Bool
has [] x = false
has (y ∷ ys) x = let rest = has ys x in if y == x then true else rest

unfoldable pub has_year : List ℕ → ℤ → Bool
has_year [] x = false
has_year (y ∷ ys) x = let rest = has_year ys x in if eqb_ℤ (pos y) x then true else rest

unfoldable pub is_empty : List ℕ → Bool
is_empty [] = true
is_empty (x ∷ xs) = false

-- `*m_year.rbegin()` is before a year; never where the set is empty.
unfoldable pub ends_before : List ℕ → ℤ → Bool
ends_before [] y = false
ends_before (x ∷ []) y = ltb_ℤ (pos x) y
ends_before (x ∷ z ∷ zs) y = ends_before (z ∷ zs) y

-- The rule of Vixie cron for the two day fields.
unfoldable pub days_agree : CronExpression → ℕ → ℕ → Bool
days_agree c day weekday =
    let dom_ok = has c.dom day in
    let dow_ok = has c.dow weekday in
    if c.dom_restricted && c.dow_restricted then dom_ok || dow_ok else dom_ok && dow_ok

unfoldable pub matches : CronExpression → ℤ → ℕ → ℕ → ℕ → ℕ → ℕ → Bool
matches c year month day weekday hour minute =
    if not (is_empty c.year) && not (has_year c.year year)
    then false
    else if not (has c.month month)
    then false
    else if not (has c.hour hour)
    then false
    else if not (has c.minute minute)
    then false
    else days_agree c day weekday

unfoldable pub day_matches : CronExpression → ℤ → ℕ → ℕ → ℕ → Bool
day_matches c year month day weekday =
    if not (has c.month month)
    then false
    else if not (is_empty c.year) && not (has_year c.year year)
    then false
    else days_agree c day weekday

abbrev pub minute_length : ℕ
minute_length = 60 * 1000

abbrev pub day_length : ℕ
day_length = 24 * 60 * 60 * 1000

-- The days that the search looks at, 0 to 1500.
abbrev pub horizon : ℕ
horizon = 1501

-- The first minute of the day in an hour, and in all hours, that is not skipped.
unfoldable pub first_in_hour : (ℕ → Bool) → ℕ → List ℕ → Option ℕ
first_in_hour skip hour [] = none
first_in_hour skip hour (minute ∷ minutes) =
    let rest = first_in_hour skip hour minutes in
    if skip (hour * 60 + minute) then rest else some (hour * 60 + minute)

unfoldable pub or_later {ℓ} : {A : Type ℓ} → Option A → Option A → Option A
or_later (some m) rest = some m
or_later none rest = rest

unfoldable pub first_in_day : (ℕ → Bool) → List ℕ → List ℕ → Option ℕ
first_in_day skip [] minutes = none
first_in_day skip (hour ∷ hours) minutes =
    or_later (first_in_hour skip hour minutes) (first_in_day skip hours minutes)

unfoldable pub minute_of : ℤ → Option ℕ → Option ℤ
minute_of day none = none
minute_of day (some m) = some (day +ℤ pos (m * minute_length))

unfoldable pub passed : ℕ → ℤ → ℕ → Bool
passed zero first_minute m = leb_ℤ (pos m) first_minute
passed (suc d) first_minute m = false

unfoldable pub day_at : ℤ → ℕ → ℤ
day_at day_start d = day_start +ℤ pos (d * day_length)

module _ (cal : Calendar) (c : CronExpression) (offset : ℤ) where
  unfoldable pub day_is_past : ℤ → Bool
  day_is_past day =
      let broken = break_down cal day offset in
      not (is_empty c.year) && ends_before c.year broken.year

  unfoldable pub day_is_legal : ℤ → Bool
  day_is_legal day =
      let broken = break_down cal day offset in
      day_matches c broken.year broken.month broken.day broken.weekday

  -- The days from the day number `d` on, as many as the fuel says.
  unfoldable pub search : ℤ → ℤ → ℕ → ℕ → Option ℤ
  search day_start first_minute zero d = none
  search day_start first_minute (suc n) d =
      let rest = search day_start first_minute n (suc d) in
      let day = day_at day_start d in
      if day_is_past day
      then none
      else if day_is_legal day
      then or_later (minute_of day (first_in_day (passed d first_minute) c.hour c.minute)) rest
      else rest

  unfoldable pub day_start_of : ℤ → ℤ
  day_start_of epoch_ms =
      let start = break_down cal epoch_ms offset in
      compose cal (record start { hour = 0; minute = 0; second = 0; weekday = 4 }) offset

  unfoldable pub first_minute_of : ℤ → ℤ
  first_minute_of epoch_ms = div_ℤ (epoch_ms -ℤ day_start_of epoch_ms) minute_length

  unfoldable pub next_on : Kind → ℤ → Option ℤ
  next_on relative epoch_ms = some (epoch_ms +ℤ c.interval_ms)
  next_on cron epoch_ms = search (day_start_of epoch_ms) (first_minute_of epoch_ms) horizon 0

  unfoldable pub next_after : ℤ → Option ℤ
  next_after epoch_ms = next_on c.kind epoch_ms
