-- ===== src/Scheduler/Ticks.antt =====
-- A tick of src/runtime/Scheduler.cpp: tickUntil, nextWakeMs and pendingCount.
use sapo_engine.Prelude.{
  ℕ, zero, suc, ◌+◌, max, Bool, false, not, ◌&&◌, ◌||◌, Option, none, some, List, [], ◌∷◌, ◌++◌,
  map, if◌then◌else◌, length, select,
}
use sapo_engine.Prelude.Int.{ℤ, pos, negsuc, ltb_ℤ, leb_ℤ, eqb_ℤ}
use sapo_engine.Timer.{Timer}
use sapo_engine.Schedule.{CronExpression}
use sapo_engine.Scheduler.{ScheduledJob, Scheduler, Schedules, Fired}
use sapo_engine.Scheduler.Jobs.{next_of_job, reschedule}

unfoldable pub is_due : ℤ → ScheduledJob → Bool
is_due now j = j.enabled && ltb_ℤ (pos 0) j.next_fire_ms && leb_ℤ j.next_fire_ms now

unfoldable pub limit_of : ScheduledJob → ℤ → ℕ
limit_of j (pos n) = if j.catch_up then max 1 n else 1
limit_of j (negsuc n) = 1

unfoldable pub go_on_at : ℤ → (ℤ → List ℤ) → Option ℤ → List ℤ
go_on_at now again none = []
go_on_at now again (some cursor) = if ltb_ℤ now cursor then [] else again cursor

-- The times at which a due job fires, as many as the limit allows.
unfoldable pub occurrences : ℕ → (ℤ → Option ℤ) → ℤ → ℤ → List ℤ
occurrences zero next now cursor = []
occurrences (suc n) next now cursor = cursor ∷ go_on_at now (occurrences n next now) (next cursor)

unfoldable pub timer_is_due : ℤ → Timer → Bool
timer_is_due now t = leb_ℤ t.due_ms now

module _ (env : Schedules) where
  unfoldable pub fire_parsed :
      ℤ → ScheduledJob → Option CronExpression → ScheduledJob × List (ScheduledJob × ℤ)
  fire_parsed now j none = (record j { enabled = false }, [])
  fire_parsed now j (some e) = (
    reschedule env (record j { last_fire_ms = now; fire_count = j.fire_count + 1 }) now,
    map (λ t. (j, t))
        (occurrences (limit_of j j.max_catch_up) (next_of_job env j e) now j.next_fire_ms),
  )

  unfoldable pub fire_job : ℤ → ScheduledJob → ScheduledJob × List (ScheduledJob × ℤ)
  fire_job now j = if is_due now j then fire_parsed now j (env.parse j.schedule) else (j, [])

  unfoldable pub fire_jobs : ℤ → List ScheduledJob → List ScheduledJob × List (ScheduledJob × ℤ)
  fire_jobs now [] = ([], [])
  fire_jobs now (j ∷ js) =
      let (j', fired) = fire_job now j in
      let (js', later) = fire_jobs now js in (j' ∷ js', fired ++ later)

  unfoldable pub tick_until : ℤ → Scheduler → Scheduler × Fired
  tick_until now s =
      let (js, fired) = fire_jobs now s.jobs in
      (
        record { jobs = js; timers = select (λ t. not (timer_is_due now t)) s.timers },
        record { jobs = fired; timers = select (timer_is_due now) s.timers },
      )

unfoldable pub fired_count : Fired → ℕ
fired_count f = length f.jobs + length f.timers

unfoldable pub earlier_of : ℤ → ℤ → ℤ
earlier_of next t = if eqb_ℤ next (pos 0) || ltb_ℤ t next then t else next

unfoldable pub wake_for_jobs : ℤ → List ScheduledJob → ℤ
wake_for_jobs next [] = next
wake_for_jobs next (j ∷ js) =
    wake_for_jobs
      (if not j.enabled || leb_ℤ j.next_fire_ms (pos 0)
        then next
        else earlier_of next j.next_fire_ms)
      js

unfoldable pub wake_for_timers : ℤ → List Timer → ℤ
wake_for_timers next [] = next
wake_for_timers next (t ∷ ts) = wake_for_timers (earlier_of next t.due_ms) ts

unfoldable pub next_wake_ms : Scheduler → ℤ
next_wake_ms s = wake_for_timers (wake_for_jobs (pos 0) s.jobs) s.timers

unfoldable pub pending_count : Scheduler → ℕ
pending_count s = length s.timers + length (select (λ j. j.enabled) s.jobs)
