-- ===== src/Scheduler/ReturnedId.antt =====
-- The id that `addTimer` of src/runtime/Scheduler.cpp returns.
use sapo_engine.Prelude.{
  String, ◌≡◌, refl, sym, subst, List, [], ◌∷◌, ◌++◌, arith, ◌⊎◌, inl, inr, Bool-cases,
}
use sapo_engine.Prelude.Int.{ℤ, ◌≤ℤ◌, leb_ℤ}
use sapo_engine.Timer.{Timer}
use sapo_engine.Scheduler.{Scheduler, without}
use sapo_engine.Scheduler.Timers.{insert_timer, sort_timers, timer_id, with_id, last_id, add_timer}
use sapo_engine.Scheduler.TimerTable.{IsByDue, sort_timers-IsByDue}

abbrev pub IsIn : Timer → List Timer → Type 0
IsIn u [] = ⊥
IsIn u (t ∷ ts) = (t ≡ u) ⊎ IsIn u ts

-- No timer is after a time.
abbrev pub IsUntil : ℤ → List Timer → Type 0
IsUntil d [] = Unit
IsUntil d (t ∷ ts) = (t.due_ms ≤ℤ d) × IsUntil d ts

-- A timer of a table, with the last id, and not before any other.
abbrev pub Latest : List Timer → String → Type 0
Latest ts id = (u : Timer) × IsIn u ts × (id ≡ u.id) × IsUntil u.due_ms ts

last_id-Latest :
    (t : Timer) (ts : List Timer) → IsByDue (t ∷ ts) → Latest (t ∷ ts) (last_id (t ∷ ts))
unfolding last_id
last_id-Latest t [] h = (t, inl refl, refl, (omega arith, tt))
last_id-Latest t (v ∷ vs) h =
    let (u, member, e, until) = last_id-Latest v vs h.1 in
    (u, inr member, e, (omega (arith, h.0.0, until.0), until))

insert_timer-cons :
    (t : Timer) (ts : List Timer) → (h : Timer) × (tl : List Timer) × (insert_timer t ts ≡ h ∷ tl)
unfolding insert_timer
insert_timer-cons t [] = (t, [], refl)
insert_timer-cons t (u ∷ us) = elim (Bool-cases (leb_ℤ t.due_ms u.due_ms)) [
  | inl first ↦ (t, u ∷ us, rw first refl)
  | inr later ↦ (u, insert_timer t us, rw later refl)
]

sort_timers-cons :
    (t : Timer) (xs : List Timer)
    → (h : Timer) × (tl : List Timer) × (sort_timers (xs ++ t ∷ []) ≡ h ∷ tl)
unfolding sort_timers
sort_timers-cons t [] = insert_timer-cons t []
sort_timers-cons t (x ∷ xs) = insert_timer-cons x (sort_timers (xs ++ t ∷ []))

-- `addTimer` returns the id of a timer of the new table that no timer of it is after, whichever
-- timer was added.
pub add_timer-Latest :
    (fresh : String) (t : Timer) (s : Scheduler)
    → Latest (add_timer fresh t s).0.timers (add_timer fresh t s).1
unfolding add_timer
add_timer-Latest fresh t s =
    let t' = with_id fresh t in
    let rest = without timer_id t'.id s.timers in
    let (h, tl, e) = sort_timers-cons t' rest in
    subst (λ ts. Latest ts (last_id ts)) (sym e)
      (last_id-Latest h tl (subst IsByDue e (sort_timers-IsByDue (rest ++ t' ∷ []))))
