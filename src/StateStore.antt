-- ===== src/StateStore.antt =====
-- Durable session state, src/runtime/StateStore.hpp and src/runtime/StateStore.cpp: the
-- checkpoint of a session, and the process-lifetime store with its compare-and-swap.
-- A method that mutates the store returns the new store, and its result beside it. Each method
-- runs under the store's mutex, so a run of the program is a sequence of whole methods.
pub mod Cas
pub mod Documents
use sapo_engine.Prelude.{
  ℕ, suc, ◌+◌, String, Bool, true, false, not, Option, none, some, List, [], ◌∷◌, map,
  if◌then◌else◌, select, length, ◌==◌, str_eq,
}
use sapo_engine.Prelude.Map.{Assoc, lookup, insert, erase}
use sapo_engine.Prelude.Int.{ℤ, pos, negsuc, ◌+ℤ◌, eqb_ℤ}
use sapo_engine.Json.{Json, null, object, array, end, nil}
use sapo_engine.Timer.{Timer}

pub data SessionStatus : Type 0 where
  running awaiting_input waiting completed failed cancelled : SessionStatus

-- The index of a status in the enumeration.
abbrev pub index_of : SessionStatus → ℕ
index_of running = 0
index_of awaiting_input = 1
index_of waiting = 2
index_of completed = 3
index_of failed = 4
index_of cancelled = 5

unfoldable pub status_name : SessionStatus → String
status_name running = "running"
status_name awaiting_input = "awaiting_input"
status_name waiting = "waiting"
status_name completed = "completed"
status_name failed = "failed"
status_name cancelled = "cancelled"

-- `sessionStatusFromString`: the loop over the six names, then the two aliases.
abbrev find_status : List SessionStatus → String → Option SessionStatus
find_status [] text = none
find_status (s ∷ rest) text = if str_eq text (status_name s) then some s else find_status rest text

abbrev all_statuses : List SessionStatus
all_statuses = running ∷ awaiting_input ∷ waiting ∷ completed ∷ failed ∷ cancelled ∷ []

or_alias : String → Option SessionStatus → Option SessionStatus
or_alias text (some s) = some s
or_alias text none =
    if str_eq text "suspended"
    then some awaiting_input
    else if str_eq text "pending"
    then some running
    else none

unfoldable pub session_status_from_string : String → Option SessionStatus
unfolding or_alias status_name
session_status_from_string text = or_alias text (find_status all_statuses text)

pub record SessionCheckpoint : Type 0 where
  pub session_id : String
  pub execution_id : String
  pub blueprint_id : String
  pub blueprint_version : String
  pub correlation_id : String
  pub status : SessionStatus
  pub cursor : String
  pub context : Json
  pub frames : Json
  pub pending : Json
  pub timers : List Timer
  pub result : Json
  pub error : String
  pub parent_session : String
  pub depth : ℕ
  pub child_sessions : List String
  pub created_ms : ℤ
  pub updated_ms : ℤ
  pub node_visits : ℕ
  pub version : ℤ

-- The default member initialisers.
abbrev pub empty_checkpoint : SessionCheckpoint
empty_checkpoint = record {
  session_id = "";
  execution_id = "";
  blueprint_id = "";
  blueprint_version = "";
  correlation_id = "";
  status = running;
  cursor = "";
  context = object end;
  frames = array nil;
  pending = object end;
  timers = [];
  result = object end;
  error = "";
  parent_session = "";
  depth = 0;
  child_sessions = [];
  created_ms = pos 0;
  updated_ms = pos 0;
  node_visits = 0;
  version = pos 0;
}

pub data SaveResult : Type 0 where
  ok version_conflict gone : SaveResult

pub record SaveOutcome : Type 0 where
  pub result : SaveResult
  pub version : ℤ

-- `m_sessions` of `InMemoryStateStore`.
abbrev pub Store : Type 0
Store = Assoc SessionCheckpoint

-- The version of a session in the map, 0 for an absent one: what `m_sessions[id].version` and
-- `exists ? it->second.version : 0` read.
unfoldable pub version_in : Option SessionCheckpoint → ℤ
version_in none = pos 0
version_in (some c) = c.version

unfoldable pub current_version : Store → String → ℤ
unfolding version_in
current_version m id = version_in (lookup id m)

unfoldable pub is_some : Option SessionCheckpoint → Bool
is_some none = false
is_some (some c) = true

unfoldable pub save : Store → SessionCheckpoint → Store
unfolding current_version
save m c = insert c.session_id (record c { version = current_version m c.session_id +ℤ pos 1 }) m

unfoldable pub save_if : Store → SessionCheckpoint → ℤ → Store × SaveOutcome
unfolding current_version is_some
save_if m c expected =
    let found = lookup c.session_id m in
    let current = current_version m c.session_id in
    if not (eqb_ℤ current expected)
    then (
      m,
      record { result = if is_some found then version_conflict else gone; version = current },
    )
    else (
      insert c.session_id (record c { version = expected +ℤ pos 1 }) m,
      record { result = ok; version = expected +ℤ pos 1 },
    )

unfoldable pub load : Store → String → Option SessionCheckpoint
load m id = lookup id m

unfoldable pub remove : Store → String → Store × Bool
unfolding is_some
remove m id = (erase id m, is_some (lookup id m))

-- The loop of `count(status)`.
count_status : ℕ → SessionStatus → Store → ℕ
count_status total s [] = total
count_status total s ((id, c) ∷ m) =
    count_status (if index_of c.status == index_of s then suc total else total) s m

unfoldable pub count : Store → Option SessionStatus → ℕ
unfolding count_status
count m none = length m
count m (some s) = count_status 0 s m
