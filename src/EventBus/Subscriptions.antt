-- ===== src/EventBus/Subscriptions.antt =====
-- The subscriptions of src/runtime/EventBus.cpp: their numbers, and that each is served.
use sapo_engine.Prelude.{
  ℕ, ◌+◌, ◌≤◌, ◌<◌, ◌-◌, String, ◌≡◌, refl, sym, ap, ◌∙◌, subst, ◌⊎◌, Bool, true, false, arith,
  ◌==◌, if◌then◌else◌, Bool-cases, if_both, inl, inr, List, [], ◌∷◌, ◌++◌, length, select,
  length-append, length-drop,
}
use sapo_engine.EventBus.{
  Event, matches, trim, Handler, Subscriber, EventBus, new_bus, subscribe, is_other, unsubscribe,
  dispatch, is_target, publish, set_recent_capacity, clear_recent,
}
use sapo_engine.EventBus.Recent.{trim-last}

module _ (World : Type 0) where
  abbrev pub AllBelow : ℕ → List (Subscriber World) → Type 0
  AllBelow n [] = Unit
  AllBelow n (s ∷ ss) = (s.id < n) × AllBelow n ss

  abbrev pub Among : Subscriber World → List (Subscriber World) → Type 0
  Among s [] = ⊥
  Among s (t ∷ ts) = (s ≡ t) ⊎ Among s ts

  AllBelow-mono : (m n : ℕ) (ss : List (Subscriber World)) → m ≤ n → AllBelow m ss → AllBelow n ss
  AllBelow-mono m n [] h b = tt
  AllBelow-mono m n (s ∷ ss) h (b, bs) = (omega (arith, h, b), AllBelow-mono m n ss h bs)

  AllBelow-append :
      (n : ℕ) (ss ts : List (Subscriber World))
      → AllBelow n ss
      → AllBelow n ts
      → AllBelow n (ss ++ ts)
  AllBelow-append n [] ts h k = k
  AllBelow-append n (s ∷ ss) ts (b, bs) k = (b, AllBelow-append n ss ts bs k)

  AllBelow-select :
      (n : ℕ) (p : Subscriber World → Bool) (ss : List (Subscriber World))
      → AllBelow n ss
      → AllBelow n (select p ss)
  AllBelow-select n p [] h = tt
  AllBelow-select n p (s ∷ ss) (b, bs) =
      let rest = AllBelow-select n p ss bs in
      if_both (AllBelow n) (p s) (s ∷ select p ss) (select p ss) (λ e. (b, rest)) (λ e. rest)

  -- A bus in order: numbers below the next, and no more recent events than the capacity, which is
  -- not zero.
  pub record IsInOrder (bus : EventBus World) : Type 0 where
    pub below : AllBelow bus.next_id bus.subscribers
    pub bounded : length bus.recent ≤ bus.recent_capacity
    pub room : 1 ≤ bus.recent_capacity

  -- What the calls of the methods make of a bus.
  pub data Step (bus : EventBus World) : EventBus World → Type 0 where
    subscribed :
        (pattern : String) (h : Handler World) → Step bus ((subscribe World pattern h bus).0)
    unsubscribed : (id : ℕ) → Step bus ((unsubscribe World id bus).0)
    published : (event : Event) (w : World) → Step bus ((publish World event bus w).0)
    resized : (capacity : ℕ) → Step bus (set_recent_capacity World capacity bus)
    cleared : Step bus (clear_recent World bus)

  pub data Reaches (bus : EventBus World) : EventBus World → Type 0 where
    start : Reaches bus bus
    step : (b c : EventBus World) → Reaches bus b → Step b c → Reaches bus c

  length-trim : (n : ℕ) (es : List Event) → length (trim n es) ≤ n
  length-trim n es =
      let size = ap length (trim-last n es) in
      let left = length-drop (length es - n) es in omega (arith, size, left)

  Step-IsInOrder : (b c : EventBus World) → IsInOrder b → Step b c → IsInOrder c
  Step-IsInOrder b _ o (subscribed pattern h) = record {
    below =
        AllBelow-append (b.next_id + 1) b.subscribers _
          (AllBelow-mono b.next_id (b.next_id + 1) b.subscribers (omega arith) o.below)
          (omega arith, tt);
    bounded = o.bounded;
    room = o.room;
  }
  Step-IsInOrder b _ o (unsubscribed id) = record {
    below = AllBelow-select b.next_id (is_other World id) b.subscribers o.below;
    bounded = o.bounded;
    room = o.room;
  }
  Step-IsInOrder b _ o (published event w) = record {
    below = o.below;
    bounded = length-trim b.recent_capacity (b.recent ++ (event ∷ []));
    room = o.room;
  }
  Step-IsInOrder b _ o (resized capacity) = record {
    below = o.below;
    bounded = length-trim (if capacity == 0 then 1 else capacity) b.recent;
    room = ground arith;
  }
  Step-IsInOrder b _ o cleared = record { below = o.below; bounded = omega arith; room = o.room }

-- Every bus that calls make of a new one is in order: the number of a subscription to come is above
-- those there are, the recent events are within the capacity, and the capacity is not zero.
pub Reaches-IsInOrder :
    (World : Type 0) (bus : EventBus World)
    → Reaches World (new_bus World) bus
    → IsInOrder World bus
Reaches-IsInOrder World _ start = record { below = tt; bounded = omega arith; room = omega arith }
Reaches-IsInOrder World bus (step b _ reaches s) =
    Step-IsInOrder World b bus (Reaches-IsInOrder World b reaches) s

module _ (World : Type 0) where
  select_others :
      (n : ℕ) (ss : List (Subscriber World)) (new : Subscriber World)
      → AllBelow World n ss
      → new.id ≡ n
      → select (is_other World n) (ss ++ (new ∷ [])) ≡ ss
  select_others n [] new h e = ground (arith, e)
  select_others n (s ∷ ss) new (b, bs) e =
      let rest = select_others n ss new bs e in
      let other : (s.id == n) ≡ false = ground (arith, b) in rw (other, rest) refl

-- A subscription to a bus in order that is cancelled at once leaves the subscriptions as they were,
-- and the cancelling says that there was one.
pub unsubscribe-subscribe :
    (World : Type 0) (bus : EventBus World) (pattern : String) (h : Handler World)
    → IsInOrder World bus
    → let (after, id) = subscribe World pattern h bus in
      ((unsubscribe World id after).0.subscribers ≡ bus.subscribers)
      × ((unsubscribe World id after).1 ≡ true)
unsubscribe-subscribe World bus pattern h o =
    let new : Subscriber World = record { id = bus.next_id; pattern = pattern; handler = h } in
    let same = select_others World bus.next_id bus.subscribers new o.below refl in
    let one_more = length-append bus.subscribers (new ∷ []) in
    let fewer = ap length same in (same, ground (arith, one_more, fewer))

module _ (World : Type 0) (event : Event) (Served : World → Type 0) where
  -- A handler call that leaves the world served that was.
  abbrev pub Keeps : Subscriber World → Type 0
  Keeps t = (w : World) → Served w → Served ((t.handler event w).0)

  abbrev pub AllKeep : List (Subscriber World) → Type 0
  AllKeep [] = Unit
  AllKeep (t ∷ ts) = Keeps t × AllKeep ts

  dispatch-Keeps :
      (ss : List (Subscriber World)) (w : World)
      → AllKeep ss
      → Served w
      → Served ((dispatch World event (select (is_target World event) ss) w).0)
  unfolding dispatch
  dispatch-Keeps [] w h served = served
  dispatch-Keeps (t ∷ ts) w (h, hs) served = elim (Bool-cases (is_target World event t)) [
    | inl wanted ↦ rw wanted (dispatch-Keeps ts ((t.handler event w).0) hs (h w served))
    | inr other ↦ rw other (dispatch-Keeps ts w hs served)
  ]

  dispatch-Serves :
      (s : Subscriber World) (ss : List (Subscriber World)) (w : World)
      → Among World s ss
      → is_target World event s ≡ true
      → ((w : World) → Served ((s.handler event w).0))
      → AllKeep ss
      → Served ((dispatch World event (select (is_target World event) ss) w).0)
  unfolding dispatch
  dispatch-Serves s [] w among wanted serves h = absurd among
  dispatch-Serves s (t ∷ ts) w (inl same) wanted serves (h, hs) =
      let wanted_here = ap (is_target World event) (sym same) ∙ wanted in
      rw wanted_here (
        dispatch-Keeps ts ((t.handler event w).0) hs
          (subst (λ s. Served ((s.handler event w).0)) same (serves w)))
  dispatch-Serves s (t ∷ ts) w (inr later) wanted serves (h, hs) =
      elim (Bool-cases (is_target World event t)) [
        | inl wanted_too ↦
            rw wanted_too (dispatch-Serves s ts ((t.handler event w).0) later wanted serves hs)
        | inr other ↦ rw other (dispatch-Serves s ts w later wanted serves hs)
      ]

-- A published event reaches each subscription whose pattern matches its name: where the handler of
-- one, whatever the world, brings something about that no handler undoes, it holds after the
-- publishing, whichever handlers throw.
pub publish-Serves :
    (World : Type 0) (event : Event) (Served : World → Type 0) (bus : EventBus World)
    (s : Subscriber World) (w : World)
    → Among World s bus.subscribers
    → matches s.pattern event.name ≡ true
    → ((w : World) → Served ((s.handler event w).0))
    → AllKeep World event Served bus.subscribers
    → Served ((publish World event bus w).1)
publish-Serves World event Served bus s w among wanted serves keep =
    dispatch-Serves World event Served s bus.subscribers w among wanted serves keep
