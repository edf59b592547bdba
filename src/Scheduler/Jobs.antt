-- ===== src/Scheduler/Jobs.antt =====
-- The jobs of src/runtime/Scheduler.cpp: addJob, removeJob, enableJob, the lookup, and
-- rescheduleLocked.
use sapo_engine.Prelude.{
  String, Bool, true, false, not, Option, none, some, List, [], ◌∷◌, ◌++◌, if◌then◌else◌, str_eq,
  length, ◌==◌,
}
use sapo_engine.Prelude.Int.{ℤ, pos, leb_ℤ}
use sapo_engine.Schedule.{CronExpression, next_after}
use sapo_engine.Scheduler.{ScheduledJob, Scheduler, Schedules, without, first_named}

abbrev pub job_id : ScheduledJob → String
job_id j = j.id

unfoldable pub job : String → Scheduler → Option ScheduledJob
job id s = first_named job_id id s.jobs

unfoldable pub remove_job : String → Scheduler → Scheduler × Bool
remove_job id s =
    let rest = without job_id id s.jobs in
    (record s { jobs = rest }, not (length rest == length s.jobs))

module _ (env : Schedules) where
  unfoldable pub next_of_job : ScheduledJob → CronExpression → ℤ → Option ℤ
  next_of_job j e from_ms = next_after env.calendar e (env.offset_for j.timezone) from_ms

  unfoldable pub disable : ScheduledJob → ScheduledJob
  disable j = record j { enabled = false; next_fire_ms = pos 0 }

  unfoldable pub at_next : ScheduledJob → Option ℤ → ScheduledJob
  unfolding disable
  at_next j none = disable j
  at_next j (some t) = record j { next_fire_ms = t }

  unfoldable pub reschedule_by : ScheduledJob → ℤ → Option CronExpression → ScheduledJob
  reschedule_by j from_ms none = disable j
  reschedule_by j from_ms (some e) = at_next j (next_of_job j e from_ms)

  unfoldable pub reschedule : ScheduledJob → ℤ → ScheduledJob
  reschedule j from_ms = reschedule_by j from_ms (env.parse j.schedule)

  unfoldable pub admit_job : ℤ → ScheduledJob → ScheduledJob
  admit_job now j = if leb_ℤ j.next_fire_ms now then reschedule j now else j

  -- `none` is the error for a schedule that does not parse.
  unfoldable pub add_parsed :
      Option CronExpression → String → ℤ → ScheduledJob → Scheduler → Option (Scheduler × String)
  add_parsed none fresh now j s = none
  add_parsed (some e) fresh now j s =
      let j' = admit_job now (if str_eq j.id "" then record j { id = fresh } else j) in
      some (record s { jobs = without job_id j'.id s.jobs ++ j' ∷ [] }, j'.id)

  unfoldable pub add_job : String → ℤ → ScheduledJob → Scheduler → Option (Scheduler × String)
  add_job fresh now j s = add_parsed (env.parse j.schedule) fresh now j s

  unfoldable pub set_enabled : ℤ → Bool → ScheduledJob → ScheduledJob
  set_enabled now true j = reschedule (record j { enabled = true }) now
  set_enabled now false j = record j { enabled = false }

  unfoldable pub enable_first : String → Bool → ℤ → List ScheduledJob → List ScheduledJob × Bool
  enable_first id enabled now [] = ([], false)
  enable_first id enabled now (j ∷ js) =
      let (js', found) = enable_first id enabled now js in
      if str_eq j.id id then (set_enabled now enabled j ∷ js, true) else (j ∷ js', found)

  unfoldable pub enable_job : String → Bool → ℤ → Scheduler → Scheduler × Bool
  enable_job id enabled now s =
      let (js, found) = enable_first id enabled now s.jobs in (record s { jobs = js }, found)
