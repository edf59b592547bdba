-- ===== src/Scheduler/Wake.antt =====
-- The wake time of src/runtime/Scheduler.cpp, `nextWakeMs`, and the ticks before it.
use sapo_engine.Prelude.{
  ◌≡◌, refl, ap, Bool, true, false, not, ◌||◌, List, [], ◌∷◌, if◌then◌else◌, select, arith,
  Bool-cases, inl, inr,
}
use sapo_engine.Prelude.Int.{ℤ, pos, ◌<ℤ◌, leb_ℤ, ltb_ℤ, eqb_ℤ}
use sapo_engine.Timer.{Timer}
use sapo_engine.Scheduler.{ScheduledJob, Scheduler, Schedules}
use sapo_engine.Scheduler.Ticks.{
  is_due, timer_is_due, fire_jobs, tick_until, earlier_of, wake_for_jobs, wake_for_timers,
  next_wake_ms,
}
use sapo_engine.Scheduler.Settled.{fire_job-idle}

-- The scheduler needs no tick at an instant: there is no wake time, or it is later.
unfoldable pub is_quiet : ℤ → ℤ → Bool
is_quiet now wake = eqb_ℤ wake (pos 0) || ltb_ℤ now wake

-- Every timer has a time after the epoch.
abbrev pub HasTimes : List Timer → Type 0
HasTimes [] = Unit
HasTimes (t ∷ ts) = (pos 0 <ℤ t.due_ms) × HasTimes ts

earlier_of-is_quiet :
    (now next t : ℤ)
    → pos 0 <ℤ t
    → is_quiet now (earlier_of next t) ≡ true
    → (is_quiet now next ≡ true) × (now <ℤ t)
unfolding earlier_of is_quiet
earlier_of-is_quiet now next t positive h = ground (arith, positive, h)

armed_job-is_quiet :
    (now next : ℤ) (j : ScheduledJob)
    → is_quiet now (
        if not j.enabled || leb_ℤ j.next_fire_ms (pos 0)
        then next
        else earlier_of next j.next_fire_ms)
      ≡ true
    → (is_quiet now next ≡ true) × (is_due now j ≡ false)
unfolding is_due
armed_job-is_quiet now next j quiet =
    elim (Bool-cases (not j.enabled || leb_ℤ j.next_fire_ms (pos 0))) [
      | inl resting ↦ ground (arith, resting, quiet)
      | inr armed ↦
          let (before, later) =
            earlier_of-is_quiet now next j.next_fire_ms (ground (arith, armed))
              (ground (arith, armed, quiet)) in
          (before, ground (arith, armed, later))
    ]

module _ (env : Schedules) (now : ℤ) where
  wake_for_jobs-is_quiet :
      (next : ℤ) (js : List ScheduledJob)
      → is_quiet now (wake_for_jobs next js) ≡ true
      → (is_quiet now next ≡ true) × (fire_jobs env now js ≡ (js, []))
  unfolding wake_for_jobs fire_jobs
  wake_for_jobs-is_quiet next [] h = (h, refl)
  wake_for_jobs-is_quiet next (j ∷ js) h =
      let resting = not j.enabled || leb_ℤ j.next_fire_ms (pos 0) in
      let (quiet, rest) =
        wake_for_jobs-is_quiet (if resting then next else earlier_of next j.next_fire_ms) js h in
      let (before, not_due) = armed_job-is_quiet now next j quiet in
      (before, rw (fire_job-idle env now j not_due, rest) refl)

  wake_for_timers-is_quiet :
      (next : ℤ) (ts : List Timer)
      → HasTimes ts
      → is_quiet now (wake_for_timers next ts) ≡ true
      → (is_quiet now next ≡ true)
        × (select (timer_is_due now) ts ≡ [])
        × (select (λ t. not (timer_is_due now t)) ts ≡ ts)
  unfolding wake_for_timers timer_is_due
  wake_for_timers-is_quiet next [] times h = (h, refl, refl)
  wake_for_timers-is_quiet next (t ∷ ts) times h =
      let (quiet, no_due, all_kept) =
        wake_for_timers-is_quiet (earlier_of next t.due_ms) ts times.1 h in
      let (before, later) = earlier_of-is_quiet now next t.due_ms times.0 quiet in
      let late : leb_ℤ t.due_ms now ≡ false = ground (arith, later) in
      (before, rw late no_due, rw late (ap (λ us. t ∷ us) all_kept))

  -- A tick before the wake time, or with no wake time, fires nothing and changes nothing, where
  -- every timer has a time after the epoch.
  pub tick_until-is_quiet :
      (s : Scheduler)
      → HasTimes s.timers
      → is_quiet now (next_wake_ms s) ≡ true
      → tick_until env now s ≡ (s, record { jobs = []; timers = [] })
  unfolding tick_until next_wake_ms
  tick_until-is_quiet s times h =
      let (quiet, no_due, all_kept) =
        wake_for_timers-is_quiet (wake_for_jobs (pos 0) s.jobs) s.timers times h in
      let (start, resting) = wake_for_jobs-is_quiet (pos 0) s.jobs quiet in
      rw (resting, no_due, all_kept) refl
