-- ===== src/StateStore/Documents.antt =====
-- Checkpoints and timers as JSON documents: `toJson` and `fromJson` of src/runtime/StateStore.cpp
-- and, for timers, src/runtime/Scheduler.cpp. How the JSON library converts a number to an integer
-- type is a parameter.
use sapo_engine.Prelude.{
  ℕ, String, ◌≡◌, refl, Option, none, some, List, [], ◌∷◌, if◌then◌else◌, str_eq, ap,
}
use sapo_engine.Prelude.Int.{ℤ, pos}
use sapo_engine.Json.{
  Json, Items, Fields, number_integer, string, array, object, nil, cons, end, field,
}
use sapo_engine.Timer.{Timer}
use sapo_engine.StateStore.{
  SessionCheckpoint, SessionStatus, running, awaiting_input, waiting, completed, failed, cancelled,
  status_name, session_status_from_string,
}

infixl 5 ◌>>=◌
abbrev pub ◌>>=◌ : {A B : Type 0} → Option A → (A → Option B) → Option B
none >>= k = none
some a >>= k = k a

-- The conversions of the JSON library, none where they throw.
pub record Numbers : Type 0 where
  pub to_int64 : Json → Option ℤ
  pub to_size : Json → Option ℕ

abbrev pub size_json : ℕ → Json
size_json n = number_integer (pos n)

unfoldable pub timer_to_json : Timer → Json
timer_to_json t = object (
    field "id" (string t.id) (
      field "session_id" (string t.session_id) (
        field "due_ms" (number_integer t.due_ms) (
          field "resume_node" (string t.resume_node) (
            field "reason" (string t.reason)
              (field "context_checkpoint_key" (string t.context_checkpoint_key) end))))))

unfoldable pub timers_to_items : List Timer → Items
unfolding timer_to_json
timers_to_items [] = nil
timers_to_items (t ∷ ts) = cons (timer_to_json t) (timers_to_items ts)

unfoldable pub texts_to_items : List String → Items
texts_to_items [] = nil
texts_to_items (s ∷ ss) = cons (string s) (texts_to_items ss)

unfoldable pub to_json : SessionCheckpoint → Json
unfolding timers_to_items texts_to_items status_name
to_json c = object (
    field "session_id" (string c.session_id) (
      field "execution_id" (string c.execution_id) (
        field "blueprint_id" (string c.blueprint_id) (
          field "blueprint_version" (string c.blueprint_version) (
            field "correlation_id" (string c.correlation_id) (
              field "status" (string (status_name c.status)) (
                field "cursor" (string c.cursor) (
                  field "context" c.context (
                    field "frames" c.frames (
                      field "pending" c.pending (
                        field "timers" (array (timers_to_items c.timers)) (
                          field "result" c.result (
                            field "error" (string c.error) (
                              field "parent_session" (string c.parent_session) (
                                field "depth" (size_json c.depth) (
                                  field "child_sessions" (array (texts_to_items c.child_sessions)) (
                                    field "created_ms" (number_integer c.created_ms) (
                                      field "updated_ms" (number_integer c.updated_ms) (
                                        field "node_visits" (size_json c.node_visits) (
                                          field "version" (number_integer c.version)
                                            end))))))))))))))))))))

unfoldable pub find_member : String → Fields → Option Json
find_member key end = none
find_member key (field k v rest) = if str_eq k key then some v else find_member key rest

abbrev pub or_default : Json → Option Json → Json
or_default d none = d
or_default d (some v) = v

-- `value.value(key, default)`, which throws on a value that is not an object.
unfoldable pub value_at : String → Json → Json → Option Json
unfolding find_member
value_at key d (object fs) = some (or_default d (find_member key fs))
value_at key d _ = none

abbrev pub as_text : Json → Option String
as_text (string s) = some s
as_text _ = none

unfoldable pub text_at : String → String → Json → Option String
unfolding value_at
text_at key d v = value_at key (string d) v >>= as_text

-- `value.contains(key) && value[key].is_array()`
abbrev pub items_of : Option Json → Items
items_of (some (array items)) = items
items_of _ = nil

unfoldable pub items_at : String → Json → Items
unfolding find_member
items_at key (object fs) = items_of (find_member key fs)
items_at key _ = nil

unfoldable pub only_texts : Items → List String
only_texts nil = []
only_texts (cons (string s) rest) = s ∷ only_texts rest
only_texts (cons _ rest) = only_texts rest

abbrev pub or_running : Option SessionStatus → SessionStatus
or_running none = running
or_running (some s) = s

module _ (numbers : Numbers) where
  unfoldable pub int_at : String → Json → Option ℤ
  unfolding value_at
  int_at key v = value_at key (number_integer (pos 0)) v >>= numbers.to_int64

  unfoldable pub size_at : String → Json → Option ℕ
  unfolding value_at
  size_at key v = value_at key (size_json 0) v >>= numbers.to_size

  unfoldable pub timer_from_json : Json → Option Timer
  unfolding text_at int_at
  timer_from_json v = do
    id ← text_at "id" "" v
    session_id ← text_at "session_id" "" v
    due_ms ← int_at "due_ms" v
    resume_node ← text_at "resume_node" "" v
    reason ← text_at "reason" "" v
    key ← text_at "context_checkpoint_key" "" v
    some (record {
      id = id;
      session_id = session_id;
      due_ms = due_ms;
      resume_node = resume_node;
      reason = reason;
      context_checkpoint_key = key;
    })

  unfoldable pub timers_from_items : Items → Option (List Timer)
  unfolding timer_from_json
  timers_from_items nil = some []
  timers_from_items (cons v rest) = do
    t ← timer_from_json v
    ts ← timers_from_items rest
    some (t ∷ ts)

  unfoldable pub from_json : Json → Option SessionCheckpoint
  unfolding text_at int_at size_at value_at timers_from_items only_texts items_at
      session_status_from_string
  from_json v = do
    session_id ← text_at "session_id" "" v
    execution_id ← text_at "execution_id" "" v
    blueprint_id ← text_at "blueprint_id" "" v
    blueprint_version ← text_at "blueprint_version" "" v
    correlation_id ← text_at "correlation_id" "" v
    status ← text_at "status" "running" v
    cursor ← text_at "cursor" "" v
    context ← value_at "context" (object end) v
    frames ← value_at "frames" (array nil) v
    pending ← value_at "pending" (object end) v
    timers ← timers_from_items (items_at "timers" v)
    result ← value_at "result" (object end) v
    error ← text_at "error" "" v
    parent_session ← text_at "parent_session" "" v
    depth ← size_at "depth" v
    created_ms ← int_at "created_ms" v
    updated_ms ← int_at "updated_ms" v
    node_visits ← size_at "node_visits" v
    version ← int_at "version" v
    some (record {
      session_id = session_id;
      execution_id = execution_id;
      blueprint_id = blueprint_id;
      blueprint_version = blueprint_version;
      correlation_id = correlation_id;
      status = or_running (session_status_from_string status);
      cursor = cursor;
      context = context;
      frames = frames;
      pending = pending;
      timers = timers;
      result = result;
      error = error;
      parent_session = parent_session;
      depth = depth;
      child_sessions = only_texts (items_at "child_sessions" v);
      created_ms = created_ms;
      updated_ms = updated_ms;
      node_visits = node_visits;
      version = version;
    })

only_texts-texts : (ss : List String) → only_texts (texts_to_items ss) ≡ ss
unfolding only_texts texts_to_items
only_texts-texts [] = refl
only_texts-texts (s ∷ ss) = ap (λ rest. s ∷ rest) (only_texts-texts ss)

status-name : (s : SessionStatus) → session_status_from_string (status_name s) ≡ some s
unfolding session_status_from_string status_name
status-name running = refl
status-name awaiting_input = refl
status-name waiting = refl
status-name completed = refl
status-name failed = refl
status-name cancelled = refl

-- What the JSON library does with the numbers that the program writes.
pub record ReadsNumbers (numbers : Numbers) : Type 0 where
  pub reads_int64 : (n : ℤ) → numbers.to_int64 (number_integer n) ≡ some n
  pub reads_size : (n : ℕ) → numbers.to_size (number_integer (pos n)) ≡ some n

module _ (numbers : Numbers) (reads : ReadsNumbers numbers) where
  timer_from_json-to_json : (t : Timer) → timer_from_json numbers (timer_to_json t) ≡ some t
  unfolding timer_from_json timer_to_json text_at int_at value_at find_member
  timer_from_json-to_json t = rw (reads.reads_int64 t.due_ms) refl

  timers_from_items-to_items :
      (ts : List Timer) → timers_from_items numbers (timers_to_items ts) ≡ some ts
  unfolding timers_from_items timers_to_items
  timers_from_items-to_items [] = refl
  timers_from_items-to_items (t ∷ ts) =
      rw (timer_from_json-to_json t, timers_from_items-to_items ts) refl

  -- Where the JSON library reads the numbers that the program writes, a checkpoint is read back from
  -- its document whole, whatever it holds.
  pub from_json-to_json : (c : SessionCheckpoint) → from_json numbers (to_json c) ≡ some c
  unfolding from_json to_json text_at int_at size_at value_at items_at find_member
  from_json-to_json c =
      rw
        (
          timers_from_items-to_items c.timers,
          reads.reads_size c.depth,
          reads.reads_int64 c.created_ms,
          reads.reads_int64 c.updated_ms,
          reads.reads_size c.node_visits,
          reads.reads_int64 c.version,
          only_texts-texts c.child_sessions,
          status-name c.status,
        )
        refl
