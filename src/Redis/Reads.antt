-- ===== src/Redis/Reads.antt =====
-- Reads of src/redis/RedisStateStore.cpp on the double: `load` has what the in-memory store has.
use sapo_engine.Prelude.{
  String, ◌≡◌, ◌≢◌, refl, ◌∙◌, ap, Option, none, some, List, [], ◌∷◌, if◌then◌else◌,
}
use sapo_engine.Prelude.Map.{lookup}
use sapo_engine.Prelude.Decimal.{parse_int-to_string}
use sapo_engine.StateStore
use sapo_engine.StateStore.{SessionCheckpoint}
use sapo_engine.Redis.Values.{
  RedisValue, array, Outcome, ◌>>=◌, throw_if_error, to_array, to_int, to_text, is_nil, is_error,
}
use sapo_engine.Redis.Keyspace.{Mock, Entry, find_live, is_hash}
use sapo_engine.Redis.Commands.{wrong_type}
use sapo_engine.Redis.Hashes.{hmget, fields_of, is_other_kind, bulk_or_nil}
use sapo_engine.Redis.Client.{mock_client, command, dispatch, replied}
use sapo_engine.Redis.Live.{
  live, find_live-found, live-find_live, controls-find_live, controls_trans, str_eq_ne,
}
use sapo_engine.Redis.Store.{load, read_session, read_blob}
use sapo_engine.Redis.Layout.{Options, JsonText, session_key}
use sapo_engine.Redis.Sessions.{IsUp-controls, ShowsBoth}
use sapo_engine.Redis.Calls.{logged, command-up}
use sapo_engine.Redis.Written.{controls-logged}
use sapo_engine.Redis.Refinement.{IsReady}

-- A look at a key of the double.
abbrev pub looked_up : Mock → List String → String → Mock
looked_up r args key = (find_live (logged r args) key).0

pub looked_up-IsReady :
    (json : JsonText) (o : Options) (r : Mock) (m : StateStore.Store) (args : List String)
    (key : String)
    → IsReady json o r m
    → IsReady json o (looked_up r args key) m
unfolding live
looked_up-IsReady json o r m args key ready = record {
  is_up =
      IsUp-controls
        (controls_trans (controls-logged r args) (controls-find_live (logged r args) key))
        ready.is_up;
  separate_keys = ready.separate_keys;
  atomic = ready.atomic;
  ttl_range = ready.ttl_range;
  reads_numbers = ready.reads_numbers;
  represents =
      λ id. rw (live-find_live (logged r args) key (session_key o id)) (ready.represents id);
}

abbrev load_call : Options → String → List String
load_call o id = "HMGET" ∷ session_key o id ∷ "blob" ∷ "version" ∷ []

abbrev load_reply : Option Entry → RedisValue
load_reply found =
    if is_other_kind is_hash found
    then wrong_type
    else array (fields_of found ("blob" ∷ "version" ∷ []))

dispatch-load :
    (o : Options) (r : Mock) (id : String)
    → dispatch r (load_call o id)
      ≡ ((find_live r (session_key o id)).0, load_reply (live r (session_key o id)))
unfolding dispatch hmget
dispatch-load o r id =
    ap (λ found. ((find_live r (session_key o id)).0, load_reply found))
      (find_live-found r (session_key o id))

-- What a load does with the reply to its command.
abbrev finish_load : JsonText → Outcome Mock RedisValue → Outcome Mock (Option SessionCheckpoint)
finish_load json reply = reply >>= throw_if_error >>= λ p. read_session json (p.0, to_array p.1)

load-named :
    (json : JsonText) (o : Options) (r : Mock) (id : String)
    → id ≢ ""
    → load mock_client json o r id ≡ finish_load json (command r (load_call o id))
unfolding load
load-named json o r id named = rw (str_eq_ne named) refl

finish_load-Shows :
    (json : JsonText) (r : Mock) (e : Option Entry) (c : Option SessionCheckpoint)
    → ShowsBoth json e c
    → finish_load json (replied (r, load_reply e)) ≡ (r, some c)
unfolding throw_if_error is_error to_array read_session read_blob is_nil to_text to_int
    is_other_kind fields_of bulk_or_nil
finish_load-Shows json r none none h = refl
finish_load-Shows json r (some e) (some c) h =
    let (b, (w, (blob, read))) = h.shows_blob in
    rw (h.shows_kind, blob, h.shows_version, read, parse_int-to_string c.version w h.shows_range)
      refl
finish_load-Shows json r none (some c) h = absurd h
finish_load-Shows json r (some e) none h = absurd h

-- On a store that is ready, a load of an identifier that is not empty returns what the in-memory
-- store has for it, a session or none, and leaves the sessions.
pub load-refines :
    (json : JsonText) (o : Options) (r : Mock) (m : StateStore.Store) (id : String)
    → IsReady json o r m
    → id ≢ ""
    → ((load mock_client json o r id).1 ≡ some (StateStore.load m id))
      × IsReady json o (load mock_client json o r id).0 m
unfolding StateStore.load live
load-refines json o r m id ready named =
    let called = logged r (load_call o id) in
    let key = session_key o id in
    rw
      (load-named json o r id named
        ∙ ap (finish_load json) (command-up r (load_call o id) ready.is_up)
        ∙ ap (λ p. finish_load json (replied p)) (dispatch-load o called id)
        ∙ finish_load-Shows json (find_live called key).0 (live r key) (lookup id m)
            (ready.represents id))
      (refl, looked_up-IsReady json o r m (load_call o id) key ready)
