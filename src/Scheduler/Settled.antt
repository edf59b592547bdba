-- ===== src/Scheduler/Settled.antt =====
-- What a tick of src/runtime/Scheduler.cpp leaves behind, and what fires for a job that is due.
use sapo_engine.Prelude.{
  ◌+◌, String, ◌≡◌, refl, ap, false, not, Option, none, some, List, [], ◌∷◌, select, arith,
  Bool-cases, inl, inr,
}
use sapo_engine.Prelude.Int.{ℤ, ◌<ℤ◌}
use sapo_engine.Timer.{Timer}
use sapo_engine.Schedule.{CronExpression, next_after}
use sapo_engine.Scheduler.{ScheduledJob, Scheduler, Schedules}
use sapo_engine.Scheduler.Jobs.{next_of_job, disable, at_next, reschedule_by, reschedule}
use sapo_engine.Scheduler.Ticks.{is_due, timer_is_due, fire_parsed, fire_job, fire_jobs, tick_until}

-- The next time of a schedule that was read lies after the instant that it is asked about.
abbrev pub MovesOn : Schedules → ℤ → Type 0
MovesOn env from =
    (text timezone : String) (e : CronExpression) (t : ℤ)
    → env.parse text ≡ some e
    → next_after env.calendar e (env.offset_for timezone) from ≡ some t
    → from <ℤ t

pub fire_job-idle :
    (env : Schedules) (now : ℤ) (j : ScheduledJob)
    → is_due now j ≡ false
    → fire_job env now j ≡ (j, [])
unfolding fire_job
fire_job-idle env now j not_due = rw not_due refl

module _ (env : Schedules) (now : ℤ) (forward : MovesOn env now) where
  at_next-not_due :
      (j : ScheduledJob) (e : CronExpression) (o : Option ℤ)
      → env.parse j.schedule ≡ some e
      → next_of_job env j e now ≡ o
      → is_due now (at_next env j o) ≡ false
  unfolding is_due at_next disable next_of_job
  at_next-not_due j e none parsed next = ground arith
  at_next-not_due j e (some t) parsed next =
      ground (arith, forward j.schedule j.timezone e t parsed next)

  reschedule_by-not_due :
      (j : ScheduledJob) (o : Option CronExpression)
      → env.parse j.schedule ≡ o
      → is_due now (reschedule_by env j now o) ≡ false
  unfolding reschedule_by is_due disable
  reschedule_by-not_due j none parsed = ground arith
  reschedule_by-not_due j (some e) parsed =
      at_next-not_due j e (next_of_job env j e now) parsed refl

  fire_parsed-not_due :
      (j : ScheduledJob) (o : Option CronExpression)
      → is_due now (fire_parsed env now j o).0 ≡ false
  unfolding fire_parsed reschedule is_due
  fire_parsed-not_due j none = ground arith
  fire_parsed-not_due j (some e) =
      reschedule_by-not_due (record j { last_fire_ms = now; fire_count = j.fire_count + 1 }) _ refl

  fire_job-not_due : (j : ScheduledJob) → is_due now (fire_job env now j).0 ≡ false
  unfolding fire_job
  fire_job-not_due j = elim (Bool-cases (is_due now j)) [
    | inl due ↦ rw due (fire_parsed-not_due j (env.parse j.schedule))
    | inr not_due ↦ rw not_due not_due
  ]

  fire_jobs-idle :
      (js : List ScheduledJob)
      → fire_jobs env now (fire_jobs env now js).0 ≡ ((fire_jobs env now js).0, [])
  unfolding fire_jobs
  fire_jobs-idle [] = refl
  fire_jobs-idle (j ∷ js) =
      rw (fire_job-idle env now (fire_job env now j).0 (fire_job-not_due j), fire_jobs-idle js) refl

  kept-idle :
      (ts : List Timer)
      → (select (timer_is_due now) (select (λ t. not (timer_is_due now t)) ts) ≡ [])
        × (select (λ t. not (timer_is_due now t)) (select (λ t. not (timer_is_due now t)) ts)
            ≡ select (λ t. not (timer_is_due now t)) ts)
  kept-idle [] = (refl, refl)
  kept-idle (t ∷ ts) =
      let (no_due, all_kept) = kept-idle ts in
      elim (Bool-cases (timer_is_due now t)) [
        | inl due ↦ rw due (no_due, all_kept)
        | inr late ↦ rw late (rw late no_due, rw late (ap (λ us. t ∷ us) all_kept))
      ]

  -- A tick leaves nothing due: a second tick at the same instant fires nothing and changes
  -- nothing, where the next time of a schedule lies after the instant that it is asked about.
  pub tick_until-idle :
      (s : Scheduler)
      → tick_until env now (tick_until env now s).0
        ≡ ((tick_until env now s).0, record { jobs = []; timers = [] })
  unfolding tick_until
  tick_until-idle s =
      let (no_due, all_kept) = kept-idle s.timers in
      rw (fire_jobs-idle s.jobs, no_due, all_kept) refl
