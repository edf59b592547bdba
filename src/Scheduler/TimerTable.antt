-- ===== src/Scheduler/TimerTable.antt =====
-- The table of timers of src/runtime/Scheduler.cpp: its order, its ids, and what is found in it
-- after an addition or a cancellation.
use sapo_engine.Prelude.{
  String, ◌≡◌, refl, ◌∙◌, ap, Bool, true, false, not, none, some, List, [], ◌∷◌, ◌++◌,
  if◌then◌else◌, str_eq, eq_iff, select, arith, Bool-cases, inl, inr, if_both,
}
use sapo_engine.Prelude.Int.{ℤ, ◌≤ℤ◌, leb_ℤ}
use sapo_engine.Timer.{Timer}
use sapo_engine.Scheduler.{Scheduler, Schedules, named, without, first_named}
use sapo_engine.Scheduler.Timers.{
  insert_timer, sort_timers, timer_id, with_id, add_timer, cancel_timer, timer,
}
use sapo_engine.Scheduler.Named.{
  IsUnique, first_named-without, without-IsUnique, first_named-snoc, snoc-IsUnique,
}
use sapo_engine.Scheduler.Ticks.{timer_is_due, tick_until}

-- No timer is before a time.
abbrev pub IsAfter : ℤ → List Timer → Type 0
IsAfter d [] = Unit
IsAfter d (t ∷ ts) = (d ≤ℤ t.due_ms) × IsAfter d ts

abbrev pub IsByDue : List Timer → Type 0
IsByDue [] = Unit
IsByDue (t ∷ ts) = IsAfter t.due_ms ts × IsByDue ts

earlier-IsAfter : (d e : ℤ) (ts : List Timer) → d ≤ℤ e → IsAfter e ts → IsAfter d ts
earlier-IsAfter d e [] le h = tt
earlier-IsAfter d e (t ∷ ts) le h = (omega (arith, le, h.0), earlier-IsAfter d e ts le h.1)

insert_timer-IsAfter :
    (d : ℤ) (t : Timer) (ts : List Timer)
    → d ≤ℤ t.due_ms
    → IsAfter d ts
    → IsAfter d (insert_timer t ts)
unfolding insert_timer
insert_timer-IsAfter d t [] le h = (le, tt)
insert_timer-IsAfter d t (u ∷ us) le h =
    if_both (IsAfter d) (leb_ℤ t.due_ms u.due_ms) _ _ (λ _. (le, h))
      (λ _. (h.0, insert_timer-IsAfter d t us le h.1))

insert_timer-IsByDue : (t : Timer) (ts : List Timer) → IsByDue ts → IsByDue (insert_timer t ts)
unfolding insert_timer
insert_timer-IsByDue t [] h = (tt, tt)
insert_timer-IsByDue t (u ∷ us) h =
    if_both IsByDue (leb_ℤ t.due_ms u.due_ms) _ _
      (λ le.
        let below : t.due_ms ≤ℤ u.due_ms = ground (arith, le) in
        ((below, earlier-IsAfter t.due_ms u.due_ms us below h.0), h))
      (λ gt. (
        insert_timer-IsAfter u.due_ms t us (ground (arith, gt)) h.0,
        insert_timer-IsByDue t us h.1,
      ))

pub sort_timers-IsByDue : (ts : List Timer) → IsByDue (sort_timers ts)
unfolding sort_timers
sort_timers-IsByDue [] = tt
sort_timers-IsByDue (t ∷ ts) = insert_timer-IsByDue t (sort_timers ts) (sort_timers-IsByDue ts)

first_named-insert_timer :
    (id : String) (t : Timer) (ts : List Timer)
    → first_named timer_id t.id ts ≡ none
    → first_named timer_id id (insert_timer t ts)
      ≡ (if str_eq t.id id then some t else first_named timer_id id ts)
unfolding insert_timer first_named
first_named-insert_timer id t [] absent = ground arith
first_named-insert_timer id t (u ∷ us) absent = ground (
  arith,
  absent,
  first_named-insert_timer id t us,
  eq_iff t.id id,
  eq_iff u.id id,
  eq_iff u.id t.id,
)

insert_timer-IsUnique :
    (t : Timer) (ts : List Timer)
    → first_named timer_id t.id ts ≡ none
    → IsUnique timer_id ts
    → IsUnique timer_id (insert_timer t ts)
unfolding insert_timer first_named
insert_timer-IsUnique t [] absent u = (refl, tt)
insert_timer-IsUnique t (x ∷ xs) absent u =
    if_both (IsUnique timer_id) (leb_ℤ t.due_ms x.due_ms) _ _ (λ _. (absent, u))
      (λ _. (
        ground (
          arith,
          absent,
          u.0,
          first_named-insert_timer x.id t xs,
          eq_iff x.id t.id,
          eq_iff t.id x.id,
        ),
        insert_timer-IsUnique t xs (ground (arith, absent)) u.1,
      ))

first_named-sort_timers :
    (id : String) (ts : List Timer)
    → IsUnique timer_id ts
    → first_named timer_id id (sort_timers ts) ≡ first_named timer_id id ts
unfolding sort_timers first_named
first_named-sort_timers id [] u = refl
first_named-sort_timers id (t ∷ ts) u =
    first_named-insert_timer id t (sort_timers ts) (first_named-sort_timers t.id ts u.1 ∙ u.0)
    ∙ ap (λ o. if str_eq t.id id then some t else o) (first_named-sort_timers id ts u.1)

sort_timers-IsUnique : (ts : List Timer) → IsUnique timer_id ts → IsUnique timer_id (sort_timers ts)
unfolding sort_timers
sort_timers-IsUnique [] u = tt
sort_timers-IsUnique (t ∷ ts) u =
    insert_timer-IsUnique t (sort_timers ts) (first_named-sort_timers t.id ts u.1 ∙ u.0)
      (sort_timers-IsUnique ts u.1)

-- The timers that a table holds beside the one that is added.
others_absent :
    (t : Timer) (s : Scheduler) → first_named timer_id t.id (without timer_id t.id s.timers) ≡ none
others_absent t s =
    ground (arith, first_named-without timer_id t.id t.id s.timers, eq_iff t.id t.id)

-- After `addTimer` on a table in which no id occurs twice, the table is in the order of its times,
-- no id occurs twice, and the timer is found under its id, or under the fresh one where it had
-- none, in place of what had that id; every other id finds what it found before.
pub add_timer-timer :
    (fresh : String) (t : Timer) (s : Scheduler)
    → IsUnique timer_id s.timers
    → IsByDue (add_timer fresh t s).0.timers
      × IsUnique timer_id (add_timer fresh t s).0.timers
      × ((id : String)
          → timer id (add_timer fresh t s).0
            ≡ (if str_eq (with_id fresh t).id id then some (with_id fresh t) else timer id s))
unfolding add_timer timer
add_timer-timer fresh t s u =
    let t' = with_id fresh t in
    let rest = without timer_id t'.id s.timers in
    let absent = others_absent t' s in
    let unique =
      snoc-IsUnique timer_id t' rest absent (without-IsUnique timer_id t'.id s.timers u) in
    (
      sort_timers-IsByDue (rest ++ t' ∷ []),
      sort_timers-IsUnique (rest ++ t' ∷ []) unique,
      λ id. ground (
        arith,
        first_named-sort_timers id (rest ++ t' ∷ []) unique,
        first_named-snoc timer_id id t' rest absent,
        first_named-without timer_id t'.id id s.timers,
      ),
    )

select-IsAfter :
    (p : Timer → Bool) (d : ℤ) (ts : List Timer) → IsAfter d ts → IsAfter d (select p ts)
select-IsAfter p d [] h = tt
select-IsAfter p d (t ∷ ts) h =
    if_both (IsAfter d) (p t) _ _ (λ _. (h.0, select-IsAfter p d ts h.1))
      (λ _. select-IsAfter p d ts h.1)

select-IsByDue : (p : Timer → Bool) (ts : List Timer) → IsByDue ts → IsByDue (select p ts)
select-IsByDue p [] h = tt
select-IsByDue p (t ∷ ts) h =
    if_both IsByDue (p t) _ _ (λ _. (select-IsAfter p t.due_ms ts h.0, select-IsByDue p ts h.1))
      (λ _. select-IsByDue p ts h.1)

-- After `cancelTimer` the id finds nothing, every other id finds what it found before, and a table
-- that was in the order of its times, or without double ids, still is.
pub cancel_timer-timer :
    (id : String) (s : Scheduler)
    → IsByDue s.timers
    → IsUnique timer_id s.timers
    → IsByDue (cancel_timer id s).0.timers
      × IsUnique timer_id (cancel_timer id s).0.timers
      × ((j : String) → timer j (cancel_timer id s).0 ≡ (if str_eq id j then none else timer j s))
unfolding cancel_timer timer without
cancel_timer-timer id s by_due unique = (
  select-IsByDue (λ t. not (named timer_id id t)) s.timers by_due,
  without-IsUnique timer_id id s.timers unique,
  λ j. first_named-without timer_id id j s.timers,
)

-- Every timer is due, or none is.
abbrev pub AllDue : Bool → ℤ → List Timer → Type 0
AllDue due now [] = Unit
AllDue due now (t ∷ ts) = (leb_ℤ t.due_ms now ≡ due) × AllDue due now ts

select-AllDue : (now : ℤ) (ts : List Timer) → AllDue true now (select (timer_is_due now) ts)
unfolding timer_is_due
select-AllDue now [] = tt
select-AllDue now (t ∷ ts) =
    if_both (AllDue true now) (leb_ℤ t.due_ms now) _ _ (λ due. (due, select-AllDue now ts))
      (λ _. select-AllDue now ts)

select-none_due :
    (now : ℤ) (ts : List Timer) → AllDue false now (select (λ t. not (timer_is_due now t)) ts)
unfolding timer_is_due
select-none_due now [] = tt
select-none_due now (t ∷ ts) = elim (Bool-cases (leb_ℤ t.due_ms now)) [
  | inl due ↦ rw due (select-none_due now ts)
  | inr late ↦ rw late (late, select-none_due now ts)
]

none_due :
    (now d : ℤ) (ts : List Timer)
    → leb_ℤ d now ≡ false
    → IsAfter d ts
    → (select (timer_is_due now) ts ≡ []) × (select (λ t. not (timer_is_due now t)) ts ≡ ts)
unfolding timer_is_due
none_due now d [] late h = (refl, refl)
none_due now d (t ∷ ts) late h =
    let (no_due, all_kept) = none_due now d ts late h.1 in
    let later : leb_ℤ t.due_ms now ≡ false = ground (arith, late, h.0) in
    (rw later no_due, rw later (ap (λ us. t ∷ us) all_kept))

-- What a tick does with the timers of a table in the order of its times: it takes timers off the
-- front, in that order, all of them due, and keeps the others, none of them due.
pub tick_until-timers :
    (env : Schedules) (now : ℤ) (s : Scheduler)
    → IsByDue s.timers
    → (s.timers ≡ (tick_until env now s).1.timers ++ (tick_until env now s).0.timers)
      × AllDue true now (tick_until env now s).1.timers
      × AllDue false now (tick_until env now s).0.timers
unfolding tick_until timer_is_due
tick_until-timers env now s by_due =
    (split s.timers by_due, select-AllDue now s.timers, select-none_due now s.timers)
  where
    split :
        (ts : List Timer)
        → IsByDue ts
        → ts ≡ select (timer_is_due now) ts ++ select (λ t. not (timer_is_due now t)) ts
    split [] h = refl
    split (t ∷ ts) h = elim (Bool-cases (leb_ℤ t.due_ms now)) [
      | inl due ↦ rw due (ap (λ us. t ∷ us) (split ts h.1))
      | inr late ↦
          let (no_due, all_kept) = none_due now t.due_ms ts late h.0 in
          rw (late, no_due, all_kept) refl
    ]
