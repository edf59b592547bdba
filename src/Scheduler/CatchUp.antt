-- ===== src/Scheduler/CatchUp.antt =====
-- The times at which a due job fires in a tick of src/runtime/Scheduler.cpp.
use sapo_engine.Prelude.{
  ℕ, zero, suc, ◌-◌, ◌≤◌, max, ◌≡◌, refl, true, Option, none, some, List, [], ◌∷◌, map, length,
  arith, Bool-cases, inl, inr, if_both,
}
use sapo_engine.Prelude.Int.{ℤ, pos, negsuc, ◌≤ℤ◌, ◌<ℤ◌, ◌+ℤ◌, ltb_ℤ, +ℤ_parts}
use sapo_engine.Schedule.{CronExpression, relative, scale}
use sapo_engine.Schedule.Civil.{IsCivil}
use sapo_engine.Schedule.Next.{next_after-moves}
use sapo_engine.Scheduler.{ScheduledJob, Schedules}
use sapo_engine.Scheduler.Jobs.{next_of_job}
use sapo_engine.Scheduler.Ticks.{is_due, limit_of, go_on_at, occurrences, fire_parsed, fire_job}

-- Times that rise from a time on, none of them after another time.
abbrev pub Rises : ℤ → ℤ → List ℤ → Type 0
Rises from now [] = Unit
Rises from now (t ∷ ts) = (from <ℤ t) × (t ≤ℤ now) × Rises t now ts

module _ (next : ℤ → Option ℤ) (now start : ℤ)
    (forward : (from t : ℤ) → start ≤ℤ from → next from ≡ some t → from <ℤ t) where
  go_on_at-Rises :
      (n : ℕ) (cursor : ℤ) (o : Option ℤ)
      → start ≤ℤ cursor
      → next cursor ≡ o
      → Rises cursor now (go_on_at now (occurrences n next now) o)
        × (length (go_on_at now (occurrences n next now) o) ≤ n)
  unfolding go_on_at occurrences
  go_on_at-Rises n cursor none begun e = (tt, omega arith)
  go_on_at-Rises zero cursor (some t) begun e =
      if_both (λ ts. Rises cursor now ts × (length ts ≤ zero)) (ltb_ℤ now t) _ _
        (λ _. (tt, omega arith)) (λ _. (tt, omega arith))
  go_on_at-Rises (suc n) cursor (some t) begun e =
      let up = forward cursor t begun e in
      let (rises, few) = go_on_at-Rises n t (next t) (omega (arith, begun, up)) refl in
      if_both (λ ts. Rises cursor now ts × (length ts ≤ suc n)) (ltb_ℤ now t) _ _
        (λ _. (tt, omega arith))
        (λ reached. ((up, ground (arith, reached), rises), omega (arith, few)))

limit_of-positive : (j : ScheduledJob) (m : ℤ) → (n : ℕ) × (limit_of j m ≡ suc n)
unfolding limit_of
limit_of-positive j (pos m) = elim (Bool-cases j.catch_up) [
  | inl catches ↦ (max 1 m - 1, rw catches (omega arith))
  | inr skips ↦ (0, rw skips refl)
]
limit_of-positive j (negsuc m) = (0, refl)

-- A due job whose schedule can be read fires at the time that was set for it, and then at times
-- that rise from there, none of them after the tick, together no more than its limit. A fixed delay
-- of the schedule is positive, the C library counts days as POSIX says, and the time that was set is
-- not before 1970 on the clock of the job's time zone.
pub fire_job-Rises :
    (env : Schedules) (now : ℤ) (j : ScheduledJob) (e : CronExpression)
    → IsCivil env.calendar
    → env.parse j.schedule ≡ some e
    → (e.kind ≡ relative → pos 0 <ℤ e.interval_ms)
    → pos 0 ≤ℤ (j.next_fire_ms +ℤ scale (env.offset_for j.timezone) 1000)
    → is_due now j ≡ true
    → (later : List ℤ) × ((fire_job env now j).1 ≡ map (λ t. (j, t)) (j.next_fire_ms ∷ later))
      × Rises j.next_fire_ms now later
      × (suc (length later) ≤ limit_of j j.max_catch_up)
unfolding fire_job fire_parsed occurrences next_of_job
fire_job-Rises env now j e civil parsed positive since due =
    let (n, limit) = limit_of-positive j j.max_catch_up in
    let next = next_of_job env j e in
    let offset = scale (env.offset_for j.timezone) 1000 in
    let (rises, few) =
      go_on_at-Rises next now j.next_fire_ms
        (λ from t begun at.
          next_after-moves env.calendar e (env.offset_for j.timezone) from t civil positive
            (omega (arith, since, begun, +ℤ_parts from offset, +ℤ_parts j.next_fire_ms offset)) at)
        n j.next_fire_ms (next j.next_fire_ms) (omega arith) refl in
    (
      go_on_at now (occurrences n next now) (next j.next_fire_ms),
      rw (due, parsed, limit) refl,
      rises,
      omega (arith, few, limit),
    )
