-- ===== src/Examples/Schedulers.antt =====
-- A scheduler of src/runtime/Scheduler.cpp with one repeated job and two timers.
use sapo_engine.Prelude.{
  suc, ◌≤◌, String, ◌≡◌, refl, sym, subst, true, false, some, List, [], ◌∷◌, ◌++◌, map, length,
  if◌then◌else◌, arith, str_eq,
}
use sapo_engine.Prelude.Int.{ℤ, pos, ◌+ℤ◌, ◌<ℤ◌, ◌≤ℤ◌, +ℤ_parts}
use sapo_engine.Json.{null}
use sapo_engine.Timer.{Timer}
use sapo_engine.Schedule.{CronExpression, relative, next_after, next_on, scale}
use sapo_engine.Scheduler.{ScheduledJob, Scheduler, Schedules, first_named, without, named}
use sapo_engine.Scheduler.Timers.{
  timer_id, with_id, add_timer, timer, last_id, sort_timers, insert_timer,
}
use sapo_engine.Scheduler.Ticks.{
  is_due, limit_of, fire_job, tick_until, next_wake_ms, wake_for_jobs, wake_for_timers, earlier_of,
}
use sapo_engine.Scheduler.Named.{IsUnique}
use sapo_engine.Scheduler.TimerTable.{IsByDue, AllDue, add_timer-timer, tick_until-timers}
use sapo_engine.Scheduler.Settled.{MovesOn, tick_until-idle}
use sapo_engine.Scheduler.CatchUp.{Rises, fire_job-Rises}
use sapo_engine.Scheduler.Wake.{is_quiet, tick_until-is_quiet}
use sapo_engine.Examples.Schedules.{january, work_days, civil}

abbrev every_ten : CronExpression
every_ten = record work_days { kind = relative; text = "every 10ms"; interval_ms = pos 10 }

abbrev schedules : Schedules
schedules = record {
  parse = λ text. some every_ten;
  offset_for = λ timezone. pos 0;
  calendar = january;
}

abbrev polling : ScheduledJob
polling = record {
  id = "poll";
  schedule = "every 10ms";
  timezone = "UTC";
  workflow = "w";
  node_id = "";
  entry_node = "";
  input = null;
  enabled = true;
  catch_up = true;
  max_catch_up = pos 3;
  next_fire_ms = pos 100;
  last_fire_ms = pos 0;
  fire_count = 0;
}

abbrev waiting_until : String → ℤ → Timer
waiting_until id due = record {
  id = id;
  session_id = "s1";
  due_ms = due;
  resume_node = "n";
  reason = "wait";
  context_checkpoint_key = "s1";
}

abbrev two_timers : Scheduler
two_timers = record {
  jobs = polling ∷ [];
  timers = waiting_until "a" (pos 120) ∷ waiting_until "b" (pos 200) ∷ [];
}

only_reading : (e : CronExpression) → some every_ten ≡ some e → every_ten ≡ e
only_reading e p = ground (arith, p)

after_ten :
    (from t : ℤ) (e : CronExpression)
    → every_ten ≡ e
    → next_after january e (pos 0) from ≡ some t
    → from <ℤ t
unfolding next_after next_on
after_ten from t e p n = later t (subst (λ x. next_after january x (pos 0) from ≡ some t) (sym p) n)
  where
    later : (t : ℤ) → some (from +ℤ pos 10) ≡ some t → from <ℤ t
    later t n = ground (arith, n, +ℤ_parts from (pos 10))

moves_on : (from : ℤ) → MovesOn schedules from
moves_on from text timezone e t parsed next = after_ten from t e (only_reading e parsed) next

no_double : IsUnique timer_id two_timers.timers
unfolding first_named
no_double = (refl, (refl, tt))

in_order : IsByDue two_timers.timers
in_order = ((omega arith, tt), (tt, tt))

add_timer-timer_example :
    IsByDue (add_timer "f" (waiting_until "" (pos 150)) two_timers).0.timers
    × IsUnique timer_id (add_timer "f" (waiting_until "" (pos 150)) two_timers).0.timers
    × ((id : String)
        → timer id (add_timer "f" (waiting_until "" (pos 150)) two_timers).0 ≡ (
            if str_eq (with_id "f" (waiting_until "" (pos 150))).id id
            then some (with_id "f" (waiting_until "" (pos 150)))
            else timer id two_timers))
add_timer-timer_example = add_timer-timer "f" (waiting_until "" (pos 150)) two_timers no_double

tick_until-timers_example :
    (two_timers.timers
      ≡ (tick_until schedules (pos 125) two_timers).1.timers
        ++ (tick_until schedules (pos 125) two_timers).0.timers)
    × AllDue true (pos 125) (tick_until schedules (pos 125) two_timers).1.timers
    × AllDue false (pos 125) (tick_until schedules (pos 125) two_timers).0.timers
tick_until-timers_example = tick_until-timers schedules (pos 125) two_timers in_order

tick_until-idle_example :
    tick_until schedules (pos 125) (tick_until schedules (pos 125) two_timers).0
    ≡ ((tick_until schedules (pos 125) two_timers).0, record { jobs = []; timers = [] })
tick_until-idle_example = tick_until-idle schedules (pos 125) (moves_on (pos 125)) two_timers

not_before_1970 : pos 0 ≤ℤ (polling.next_fire_ms +ℤ scale (pos 0) 1000)
unfolding scale ◌+ℤ◌
not_before_1970 = omega arith

fires_now : is_due (pos 125) polling ≡ true
unfolding is_due
fires_now = refl

fire_job-Rises_example :
    (later : List ℤ) × ((fire_job schedules (pos 125) polling).1
      ≡ map (λ t. (polling, t)) (pos 100 ∷ later))
    × Rises (pos 100) (pos 125) later
    × (suc (length later) ≤ limit_of polling (pos 3))
fire_job-Rises_example =
    fire_job-Rises schedules (pos 125) polling every_ten civil refl (λ r. omega arith)
      not_before_1970 fires_now

wakes_at_100 : is_quiet (pos 60) (next_wake_ms two_timers) ≡ true
unfolding is_quiet next_wake_ms wake_for_jobs wake_for_timers earlier_of
wakes_at_100 = refl

tick_until-is_quiet_example :
    tick_until schedules (pos 60) two_timers ≡ (two_timers, record { jobs = []; timers = [] })
tick_until-is_quiet_example =
    tick_until-is_quiet schedules (pos 60) two_timers (omega arith, (omega arith, tt)) wakes_at_100

names_b : (add_timer "f" (waiting_until "c" (pos 150)) two_timers).1 ≡ "b"
unfolding add_timer last_id sort_timers insert_timer with_id without named
names_b = refl
