-- ===== src/Scheduler.antt =====
-- The scheduler, src/runtime/Scheduler.hpp and src/runtime/Scheduler.cpp: jobs that fire on
-- schedules, and timers of suspended sessions. Each method holds the scheduler's lock while it
-- changes the two lists; the callbacks of a tick run after that, on the list of what has fired.
-- The reading of a schedule's text and of a time zone, and the calendar, are parameters; the clock
-- and the random part of a new id are arguments.
use sapo_engine.Prelude.{
  ℕ, zero, suc, ◌+◌, max, String, Bool, true, false, not, ◌&&◌, ◌||◌, Option, none, some, List, [],
  ◌∷◌, ◌++◌, map, if◌then◌else◌, str_eq, length, select, ◌==◌,
}
use sapo_engine.Prelude.Int.{ℤ, pos, negsuc, ltb_ℤ, leb_ℤ, eqb_ℤ}
use sapo_engine.Json.{Json}
use sapo_engine.Timer.{Timer}
use sapo_engine.Schedule.{CronExpression, Calendar}
pub mod Timers
pub mod Jobs
pub mod Ticks
pub mod Named
pub mod TimerTable
pub mod Settled
pub mod CatchUp
pub mod Wake
pub mod ReturnedId

pub record ScheduledJob : Type 0 where
  pub id : String
  pub schedule : String
  pub timezone : String
  pub workflow : String
  pub node_id : String
  pub entry_node : String
  pub input : Json
  pub enabled : Bool
  pub catch_up : Bool
  pub max_catch_up : ℤ
  pub next_fire_ms : ℤ
  pub last_fire_ms : ℤ
  pub fire_count : ℕ

pub record Scheduler : Type 0 where
  pub jobs : List ScheduledJob
  pub timers : List Timer

-- `CronExpression::parse`, `offsetFor`, and the calendar.
pub record Schedules : Type 0 where
  pub parse : String → Option CronExpression
  pub offset_for : String → ℤ
  pub calendar : Calendar

pub record Fired : Type 0 where
  pub jobs : List (ScheduledJob × ℤ)
  pub timers : List Timer

unfoldable pub named {ℓ} : {A : Type ℓ} → (A → String) → String → A → Bool
named id_of id x = str_eq (id_of x) id

unfoldable pub without {ℓ} : {A : Type ℓ} → (A → String) → String → List A → List A
unfolding named
without id_of id xs = select (λ x. not (named id_of id x)) xs

unfoldable pub first_named {ℓ} : {A : Type ℓ} → (A → String) → String → List A → Option A
first_named id_of id [] = none
first_named id_of id (x ∷ xs) =
    let rest = first_named id_of id xs in if str_eq (id_of x) id then some x else rest
