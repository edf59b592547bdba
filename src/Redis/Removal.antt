-- ===== src/Redis/Removal.antt =====
-- Removal of a session, `remove` of src/redis/RedisStateStore.cpp, on the double: it does what the
-- in-memory store's does.
use sapo_engine.Prelude.{
  String, ◌≡◌, ◌≢◌, refl, ◌∙◌, ap, Bool, Option, none, some, List, ◌∷◌, map, if◌then◌else◌, str_eq,
}
use sapo_engine.Prelude.Map.{lookup, lookup-erase}
use sapo_engine.Prelude.Int.{pos, ltb_ℤ}
use sapo_engine.StateStore
use sapo_engine.StateStore.{
  SessionCheckpoint, SessionStatus, running, awaiting_input, waiting, completed, failed, cancelled,
  index_of, status_name, session_status_from_string,
}
use sapo_engine.Redis.Values.{
  RedisValue, integer, Outcome, ◌>>=◌, throw_if_error, to_int, to_text, is_error,
}
use sapo_engine.Redis.Keyspace.{Mock, Entry}
use sapo_engine.Redis.Scripts.{exists_entry}
use sapo_engine.Redis.Client.{mock_client, command, replied, pipeline}
use sapo_engine.Redis.Live.{live, controls_trans, str_eq_ne}
use sapo_engine.Redis.Store.{remove, remove_batch, status_of_text, first_is_positive}
use sapo_engine.Redis.Layout.{
  Options, JsonText, session_key, index_key, remove_from_every_index, status_index_keys,
}
use sapo_engine.Redis.Sessions.{IsUp-controls, ShowsBoth, Represents, session_key_eq}
use sapo_engine.Redis.Calls.{logged, command-up}
use sapo_engine.Redis.Written.{controls-logged}
use sapo_engine.Redis.Refinement.{IsReady}
use sapo_engine.Redis.Reads.{looked_up, looked_up-IsReady}
use sapo_engine.Redis.AfterWrite.{shows_if}
use sapo_engine.Redis.Batches.{Keeps-pipeline, zrem_call}
use sapo_engine.Redis.Deletion.{
  no_status, status_call, dispatch-status, delete_call, deleted, dispatch-delete, controls-deleted,
  live-deleted, indexes_off,
}

module _ (json : JsonText) (o : Options) (r : Mock) (m : StateStore.Store) (id : String)
    (ready : IsReady json o r m) (named : id ≢ "") where
  abbrev key : String
  key = session_key o id

  -- The state in which the deletion runs, and the one that it leaves.
  abbrev before_delete : Mock
  before_delete = looked_up r (status_call o id) key

  abbrev after : Mock
  after = deleted (logged before_delete (delete_call o id)) key (live before_delete key)

  before-IsReady : IsReady json o before_delete m
  before-IsReady = looked_up-IsReady json o r m (status_call o id) key ready

  abbrev finish_remove : Outcome Mock (List RedisValue) → Outcome Mock Bool
  finish_remove replies = replies >>= first_is_positive

  abbrev delete_batch : Outcome Mock RedisValue → Outcome Mock Bool
  delete_batch reply = reply >>= throw_if_error >>= λ p.
      finish_remove (pipeline p.0 (remove_batch o id (status_of_text (to_text p.1))))

  remove-named : remove mock_client json o r id ≡ delete_batch (command r (status_call o id))
  unfolding remove
  remove-named = rw (str_eq_ne named) refl

  abbrev index_keys : List String
  index_keys = index_key o none ∷ status_index_keys o

  abbrev was_there : RedisValue
  was_there = integer (pos (if exists_entry (live before_delete key) then 1 else 0))

  remove-batch :
      remove mock_client json o r id
      ≡ finish_remove (pipeline before_delete (delete_call o id ∷ map (zrem_call id) index_keys))
  unfolding throw_if_error remove_batch remove_from_every_index live
  remove-batch =
      let (nameless, fine) = no_status json (live r key) (lookup id m) (ready.represents id) in
      remove-named
      ∙ ap delete_batch (command-up r (status_call o id) ready.is_up)
      ∙ ap (λ p. delete_batch (replied p)) (dispatch-status o (logged r (status_call o id)) id)
      ∙ rw (fine, nameless) refl

  abbrev batch : Outcome Mock RedisValue → Outcome Mock (List RedisValue)
  batch reply =
      reply >>= λ p. pipeline p.0 (map (zrem_call id) index_keys) >>= λ q. (q.0, some (p.1 ∷ q.1))

  pipeline-delete :
      (r' : Mock) (replies : List RedisValue)
      → pipeline after (map (zrem_call id) index_keys) ≡ (r', some replies)
      → pipeline before_delete (delete_call o id ∷ map (zrem_call id) index_keys)
        ≡ (r', some (was_there ∷ replies))
  unfolding pipeline live
  pipeline-delete r' replies ran =
      ap batch (command-up before_delete (delete_call o id) before-IsReady.is_up)
      ∙ ap (λ p. batch (replied p)) (dispatch-delete o (logged before_delete (delete_call o id)) id)
      ∙ rw ran refl

  after-Represents : Represents json o after (StateStore.remove m id).0
  unfolding StateStore.remove live
  after-Represents j =
      rw
        (
          live-deleted (logged before_delete (delete_call o id)) key (session_key o j),
          session_key_eq o id j,
          lookup-erase id j m,
        )
        (shows_if json (str_eq id j) none (live before_delete (session_key o j)) none (lookup j m)
          tt (before-IsReady.represents j))

  removed_flag :
      (e : Option Entry) (c : Option SessionCheckpoint)
      → ShowsBoth json e c
      → some (ltb_ℤ (pos 0) (to_int (integer (pos (if exists_entry e then 1 else 0))) (pos 0)))
        ≡ some (StateStore.is_some c)
  unfolding exists_entry to_int StateStore.is_some
  removed_flag none none h = refl
  removed_flag (some e) (some c) h = refl
  removed_flag none (some c) h = absurd h
  removed_flag (some e) none h = absurd h

  -- A removal says whether the session was there, and leaves what the in-memory store's does.
  pub remove-refines :
      ((remove mock_client json o r id).1 ≡ some (StateStore.remove m id).1)
      × IsReady json o (remove mock_client json o r id).0 (StateStore.remove m id).0
  unfolding first_is_positive throw_if_error is_error StateStore.remove
  remove-refines =
      let up =
        IsUp-controls
          (controls_trans (controls-logged before_delete (delete_call o id)) (
            controls-deleted (logged before_delete (delete_call o id)) key
              (live before_delete key)))
          before-IsReady.is_up in
      let (r', (replies, (ran, kept))) =
        Keeps-pipeline (λ j. (id' : String) × (j ≡ session_key o id')) after id index_keys up
          (indexes_off o ready.separate_keys) in
      rw (remove-batch, pipeline-delete r' replies ran)
        (
          removed_flag (live before_delete key) (lookup id m) (before-IsReady.represents id),
          record {
            is_up = IsUp-controls kept.kept_controls up;
            separate_keys = ready.separate_keys;
            atomic = ready.atomic;
            ttl_range = ready.ttl_range;
            reads_numbers = ready.reads_numbers;
            represents = λ j. rw (kept.kept_live (session_key o j) (j, refl)) (after-Represents j);
          },
        )
