-- ===== src/EventBus.antt =====
-- The event bus, src/runtime/EventBus.cpp and EventBus.hpp beside it. A handler is a function of
-- the event and of the world that the handlers share, and may throw; none of them calls the bus.
-- Each method holds the lock for what it does to the bus, so that it is one step.
use sapo_engine.Prelude.{
  ℕ, zero, suc, ◌+◌, ◌-◌, String, Bool, true, false, not, ◌&&◌, ◌||◌, Option, none, some, List, [],
  ◌∷◌, ◌++◌, if◌then◌else◌, map, length, drop, select, ltb, ◌==◌, str_eq,
}
use Prim.Native.String.{len, slice}
use text.Mathlib.Text.{starts_with}
use sapo_engine.Prelude.Int.{ℤ, pos}
use sapo_engine.Json.{Json}
pub mod Patterns
pub mod Recent
pub mod Subscriptions

pub record Event : Type 0 where
  pub name : String
  pub payload : Json
  pub session_id : String
  pub execution_id : String
  pub correlation_id : String
  pub source_node : String
  pub timestamp_ms : ℤ

-- A pattern is a name, a prefix with a star behind it, or a star.
unfoldable pub matches : String → String → Bool
matches pattern name =
    if str_eq pattern "*" || str_eq pattern name
    then true
    else if ltb 2 (len pattern) && str_eq (slice pattern (len pattern - 1) (len pattern)) "*"
    then starts_with name (slice pattern 0 (len pattern - 1))
    else false

-- The loop that drops events from the front.
unfoldable pub trim : ℕ → List Event → List Event
trim capacity [] = []
trim capacity (e ∷ es) =
    let rest = trim capacity es in if ltb capacity (length (e ∷ es)) then rest else e ∷ es

module _ (World : Type 0) where
  -- The world after the handler, and the message of what it threw.
  abbrev pub Handler : Type 0
  Handler = Event → World → World × Option String

  pub record Subscriber : Type 0 where
    pub id : ℕ
    pub pattern : String
    pub handler : Handler

  pub record EventBus : Type 0 where
    pub subscribers : List Subscriber
    pub recent : List Event
    pub recent_capacity : ℕ
    pub next_id : ℕ

  abbrev pub new_bus : EventBus
  new_bus = record { subscribers = []; recent = []; recent_capacity = 256; next_id = 1 }

  abbrev pub subscribe : String → Handler → EventBus → EventBus × ℕ
  subscribe pattern handler bus =
      let subscriber : Subscriber = record {
        id = bus.next_id;
        pattern = pattern;
        handler = handler;
      } in
      (
        record bus {
          subscribers = bus.subscribers ++ (subscriber ∷ []);
          next_id = bus.next_id + 1;
        },
        bus.next_id,
      )

  abbrev pub is_other : ℕ → Subscriber → Bool
  is_other id s = not (s.id == id)

  abbrev pub unsubscribe : ℕ → EventBus → EventBus × Bool
  unsubscribe id bus =
      let kept = select (is_other id) bus.subscribers in
      (record bus { subscribers = kept }, not (length kept == length bus.subscribers))

  abbrev pub remember : Event → EventBus → EventBus
  remember event bus = record bus { recent = trim bus.recent_capacity (bus.recent ++ (event ∷ [])) }

  -- The handlers are called one after the other, whatever one throws; the messages are logged.
  unfoldable pub dispatch : Event → List Subscriber → World → World × List String
  dispatch event [] w = (w, [])
  dispatch event (s ∷ ss) w =
      let (after, problem) = s.handler event w in
      let (end, log) = dispatch event ss after in
      (end, elim problem [ some message ↦ message ∷ log | none ↦ log ])

  abbrev pub is_target : Event → Subscriber → Bool
  is_target event s = matches s.pattern event.name

  abbrev pub publish : Event → EventBus → World → EventBus × World × List String
  publish event bus w =
      let (after, log) = dispatch event (select (is_target event) bus.subscribers) w in
      (remember event bus, after, log)

  abbrev pub subscriber_count : EventBus → ℕ
  subscriber_count bus = length bus.subscribers

  abbrev pub patterns : EventBus → List String
  patterns bus = map (λ s. s.pattern) bus.subscribers

  abbrev pub recent_events : ℕ → EventBus → List Event
  recent_events limit bus =
      let size = length bus.recent in drop (if ltb limit size then size - limit else 0) bus.recent

  abbrev pub set_recent_capacity : ℕ → EventBus → EventBus
  set_recent_capacity capacity bus =
      let bound = if capacity == 0 then 1 else capacity in
      record bus { recent_capacity = bound; recent = trim bound bus.recent }

  abbrev pub clear_recent : EventBus → EventBus
  clear_recent bus = record bus { recent = [] }

  abbrev pub publish_named : String → Json → EventBus → World → EventBus × World × List String
  publish_named name payload = publish (record {
    name = name;
    payload = payload;
    session_id = "";
    execution_id = "";
    correlation_id = "";
    source_node = "";
    timestamp_ms = pos 0;
  })
