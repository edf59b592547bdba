-- ===== src/Scheduler/Timers.antt =====
-- The timers of src/runtime/Scheduler.cpp: addTimer, cancelTimer, cancelTimersForSession and the
-- two lookups.
use sapo_engine.Prelude.{
  String, Bool, not, Option, List, [], ◌∷◌, ◌++◌, if◌then◌else◌, str_eq, length, select, ◌==◌,
}
use sapo_engine.Prelude.Int.{leb_ℤ}
use sapo_engine.Timer.{Timer}
use sapo_engine.Scheduler.{Scheduler, without, first_named}

-- Timers by their time. `std::sort` leaves the order of equal times open; here it is kept.
unfoldable pub insert_timer : Timer → List Timer → List Timer
insert_timer t [] = t ∷ []
insert_timer t (u ∷ us) =
    let rest = insert_timer t us in if leb_ℤ t.due_ms u.due_ms then t ∷ u ∷ us else u ∷ rest

unfoldable pub sort_timers : List Timer → List Timer
sort_timers [] = []
sort_timers (t ∷ ts) = insert_timer t (sort_timers ts)

abbrev pub timer_id : Timer → String
timer_id t = t.id

abbrev pub session_of : Timer → String
session_of t = t.session_id

unfoldable pub last_id : List Timer → String
last_id [] = ""
last_id (t ∷ []) = t.id
last_id (t ∷ u ∷ us) = last_id (u ∷ us)

-- `fresh` is the random id.
unfoldable pub with_id : String → Timer → Timer
with_id fresh t = if str_eq t.id "" then record t { id = fresh } else t

unfoldable pub add_timer : String → Timer → Scheduler → Scheduler × String
unfolding with_id
add_timer fresh timer s =
    let t = with_id fresh timer in
    let ts = sort_timers (without timer_id t.id s.timers ++ t ∷ []) in
    (record s { timers = ts }, last_id ts)

unfoldable pub cancel_timer : String → Scheduler → Scheduler × Bool
cancel_timer id s =
    let rest = without timer_id id s.timers in
    (record s { timers = rest }, not (length rest == length s.timers))

unfoldable pub cancel_timers_for_session : String → Scheduler → Scheduler × Bool
cancel_timers_for_session id s =
    let rest = without session_of id s.timers in
    (record s { timers = rest }, not (length rest == length s.timers))

unfoldable pub timer : String → Scheduler → Option Timer
timer id s = first_named timer_id id s.timers

unfoldable pub timers_for_session : String → Scheduler → List Timer
timers_for_session id s = select (λ t. str_eq t.session_id id) s.timers
