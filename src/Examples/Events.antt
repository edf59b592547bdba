-- ===== src/Examples/Events.antt =====
-- A bus of src/runtime/EventBus.cpp with two subscribers. The world is the list of the names of
-- those that were called.
use sapo_engine.Prelude.{
  min, String, ◌≡◌, refl, ◌↔◌, true, false, arith, inl, inr, ◌⊎◌, some, List, [], ◌∷◌,
}
use sapo_engine.Prelude.Int.{pos}
use sapo_engine.Json.{null}
use Prim.Native.String.{◌++◌ as text_append}
use text.Mathlib.Text.{starts_with}
use sapo_engine.EventBus.{
  Event, matches, Handler, Subscriber, EventBus, new_bus, subscribe, publish, recent_events,
}
use sapo_engine.EventBus.Patterns.{matches_wildcard}
use sapo_engine.EventBus.Recent.{last, remember_all, recent_events-remember_all}
use sapo_engine.EventBus.Subscriptions.{
  subscribed, Reaches, start, step, IsInOrder, Reaches-IsInOrder, publish-Serves,
}

abbrev paid : Event
paid = record {
  name = "payment.confirmed";
  payload = null;
  session_id = "";
  execution_id = "";
  correlation_id = "";
  source_node = "";
  timestamp_ms = pos 0;
}

abbrev World : Type 0
World = List String

-- Notes its name, and throws.
abbrev noting : String → Handler World
noting name event w = (name ∷ w, some "failed")

abbrev billing : Subscriber World
billing = record { id = 1; pattern = "payment.*"; handler = noting "billing" }

abbrev auditing : Subscriber World
auditing = record { id = 2; pattern = "*"; handler = noting "audit" }

abbrev bus : EventBus World
bus =
    (subscribe World "*" (noting "audit")
      (subscribe World "payment.*" (noting "billing") (new_bus World)).0).0

bus-Reaches : Reaches World (new_bus World) bus
bus-Reaches =
    step _ _ (step _ _ start (subscribed "payment.*" (noting "billing")))
      (subscribed "*" (noting "audit"))

Reaches-IsInOrder_example : IsInOrder World bus
Reaches-IsInOrder_example = Reaches-IsInOrder World bus bus-Reaches

matches_wildcard_example :
    (matches (text_append "payment." "*") "payment.confirmed" ≡ true)
    ↔ (starts_with "payment.confirmed" "payment." ≡ true)
matches_wildcard_example = matches_wildcard "payment." "payment.confirmed" (omega arith)

-- A prefix of one letter is no prefix.
short_prefix : matches "a*" "ab" ≡ false
unfolding matches
short_prefix = refl

recent_events-remember_all_example :
    recent_events World 1 (remember_all World (paid ∷ paid ∷ []) bus)
    ≡ last (min 1 256) (paid ∷ paid ∷ [])
recent_events-remember_all_example =
    recent_events-remember_all World (paid ∷ paid ∷ []) bus 1 (omega arith)

-- The world has a name in it.
abbrev Noted : World → Type 0
Noted [] = ⊥
Noted (n ∷ ns) = (n ≡ "audit") ⊎ Noted ns

publish-Serves_example : Noted ((publish World paid bus []).1)
unfolding matches
publish-Serves_example =
    publish-Serves World paid Noted bus auditing [] (inr (inl refl)) refl (λ w. inl refl)
      (λ w h. inr h, (λ w h. inr h, tt))
