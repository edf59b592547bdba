-- ===== src/Schedule/Due.antt =====
-- What it is for a schedule of src/runtime/Scheduler.cpp to name a local time, and for its fields
-- to be as the source's sets and their ranges make them.
use sapo_engine.Prelude.{ℕ, ◌<◌, ◌≡◌, refl, true, false, List, [], ◌∷◌, arith, ◌⊎◌, inl, inr}
use sapo_engine.Prelude.Int.{ℤ}
use sapo_engine.Schedule.{
  CronExpression, BrokenDownTime, has, has_year, is_empty, days_agree, matches,
}

-- The order in which `std::set<int>` lists its elements.
abbrev pub IsSorted : List ℕ → Type 0
IsSorted [] = Unit
IsSorted (x ∷ xs) = ((y : ℕ) → has xs y ≡ true → x < y) × IsSorted xs

abbrev pub IsBelow : ℕ → List ℕ → Type 0
IsBelow n xs = (x : ℕ) → has xs x ≡ true → x < n

-- Hours and minutes in their order and ranges.
pub record IsWellFormed (c : CronExpression) : Type 0 where
  pub hours_sorted : IsSorted c.hour
  pub minutes_sorted : IsSorted c.minute
  pub hours_below : IsBelow 24 c.hour
  pub minutes_below : IsBelow 60 c.minute

-- A year of the schedule: any, where it names none.
abbrev pub IsYear : CronExpression → ℤ → Type 0
IsYear c year = (c.year ≡ []) ⊎ (has_year c.year year ≡ true)

-- A day of the schedule: where both day fields are restricted either may name it, else both do.
abbrev pub IsDay : CronExpression → ℕ → ℕ → Type 0
IsDay c day weekday =
    (c.dom_restricted ≡ true
      → c.dow_restricted ≡ true
      → (has c.dom day ≡ true) ⊎ (has c.dow weekday ≡ true))
    × ((c.dom_restricted ≡ false) ⊎ (c.dow_restricted ≡ false)
        → (has c.dom day ≡ true) × (has c.dow weekday ≡ true))

-- The schedule names the minute of a local time.
pub record IsDue (c : CronExpression) (b : BrokenDownTime) : Type 0 where
  pub year : IsYear c b.year
  pub month : has c.month b.month ≡ true
  pub day : IsDay c b.day b.weekday
  pub hour : has c.hour b.hour ≡ true
  pub minute : has c.minute b.minute ≡ true

is_empty-none : (xs : List ℕ) → is_empty xs ≡ true → xs ≡ []
unfolding is_empty
is_empty-none [] h = refl
is_empty-none (x ∷ xs) h = absurd (ground (arith, h))

days_agree-IsDay :
    (c : CronExpression) (day weekday : ℕ) → days_agree c day weekday ≡ true → IsDay c day weekday
unfolding days_agree
days_agree-IsDay c day weekday h =
    (λ dom dow. ground (arith, h, dom, dow), λ free. ground (arith, h, free))

IsDay-days_agree :
    (c : CronExpression) (day weekday : ℕ) → IsDay c day weekday → days_agree c day weekday ≡ true
unfolding days_agree
IsDay-days_agree c day weekday (both, free) = ground (arith, both, free)

year_test :
    (c : CronExpression) (year : ℤ) (month day weekday hour minute : ℕ)
    → matches c year month day weekday hour minute ≡ true
    → (is_empty c.year ≡ true) ⊎ (has_year c.year year ≡ true)
unfolding matches
year_test c year month day weekday hour minute h = ground (arith, h)

tested-IsYear :
    (c : CronExpression) (year : ℤ)
    → (is_empty c.year ≡ true) ⊎ (has_year c.year year ≡ true)
    → IsYear c year
tested-IsYear c year (inl empty) = inl (is_empty-none c.year empty)
tested-IsYear c year (inr named) = inr named

module _ (c : CronExpression) (b : BrokenDownTime) where
  pub matches-IsDue : matches c b.year b.month b.day b.weekday b.hour b.minute ≡ true → IsDue c b
  unfolding matches
  matches-IsDue h = record {
    year = tested-IsYear c b.year (year_test c _ _ _ _ _ _ h);
    month = ground (arith, h);
    day = days_agree-IsDay c b.day b.weekday (ground (arith, h));
    hour = ground (arith, h);
    minute = ground (arith, h);
  }

  named_year : IsYear c b.year → (is_empty c.year ≡ true) ⊎ (has_year c.year b.year ≡ true)
  unfolding is_empty
  named_year (inl empty) = inl (rw empty refl)
  named_year (inr named) = inr named

  pub IsDue-matches : IsDue c b → matches c b.year b.month b.day b.weekday b.hour b.minute ≡ true
  unfolding matches
  IsDue-matches due = ground (
    arith,
    named_year due.year,
    due.month,
    due.hour,
    due.minute,
    IsDay-days_agree c b.day b.weekday due.day,
  )
