-- ===== src/Redis/Deletion.antt =====
-- The commands of a removal of src/redis/RedisStateStore.cpp on the double: the look at the status,
-- and the deletion of the session's key.
use sapo_engine.Prelude.{
  String, ◌≡◌, ◌≢◌, refl, sym, ◌∙◌, ap, Bool, true, false, Option, none, some, List, [], ◌∷◌,
  if◌then◌else◌, str_eq, eq_iff, if_both,
}
use sapo_engine.Prelude.Int.{pos}
use sapo_engine.Prelude.Decimal.{to_string}
use sapo_engine.StateStore.{
  SessionCheckpoint, SessionStatus, running, awaiting_input, waiting, completed, failed, cancelled,
  index_of, status_name, session_status_from_string,
}
use sapo_engine.Redis.Values.{integer, to_text, is_error}
use sapo_engine.Redis.Keyspace.{Mock, Entry, find_live, delete}
use sapo_engine.Redis.Scripts.{exists_entry}
use sapo_engine.Redis.Commands.{delete_each}
use sapo_engine.Redis.Hashes.{hget, hash_field, bulk_or_nil}
use sapo_engine.Redis.Client.{dispatch}
use sapo_engine.Redis.Live.{
  live, SameControls, controls_trans, find_live-found, live-find_live, controls-find_live,
  controls-delete, live-delete,
}
use sapo_engine.Redis.Store.{status_of_text}
use sapo_engine.Redis.Layout.{Options, JsonText, session_key, index_key, status_index_keys}
use sapo_engine.Redis.Sessions.{IsSeparate, ShowsBoth}
use sapo_engine.Redis.Batches.{AllOff}

-- The field `status` holds an index, which is not the name of a status.
pub index_is_no_name :
    (s : SessionStatus) → session_status_from_string (to_string (pos (index_of s))) ≡ none
unfolding session_status_from_string to_string
index_is_no_name running = refl
index_is_no_name awaiting_input = refl
index_is_no_name waiting = refl
index_is_no_name completed = refl
index_is_no_name failed = refl
index_is_no_name cancelled = refl

pub no_status :
    (json : JsonText) (e : Option Entry) (c : Option SessionCheckpoint)
    → ShowsBoth json e c
    → (status_of_text (to_text (hash_field e "status")) ≡ none)
      × (is_error (hash_field e "status") ≡ false)
unfolding to_text hash_field bulk_or_nil is_error
no_status json none none h = (refl, refl)
no_status json (some e) (some c) h =
    rw (h.shows_kind, h.shows_status) (index_is_no_name c.status, refl)
no_status json none (some c) h = absurd h
no_status json (some e) none h = absurd h

abbrev pub status_call : Options → String → List String
status_call o id = "HGET" ∷ session_key o id ∷ "status" ∷ []

pub dispatch-status :
    (o : Options) (r : Mock) (id : String)
    → dispatch r (status_call o id)
      ≡ ((find_live r (session_key o id)).0, hash_field (live r (session_key o id)) "status")
unfolding dispatch hget
dispatch-status o r id =
    ap (λ found. ((find_live r (session_key o id)).0, hash_field found "status"))
      (find_live-found r (session_key o id))

abbrev pub delete_call : Options → String → List String
delete_call o id = "DEL" ∷ session_key o id ∷ []

-- The state after a `DEL` of one key, and whether the key was there.
abbrev pub deleted : Mock → String → Option Entry → Mock
deleted r key found =
    if exists_entry found then delete (find_live r key).0 key else (find_live r key).0

pub dispatch-delete :
    (o : Options) (r : Mock) (id : String)
    → dispatch r (delete_call o id) ≡ (
      deleted r (session_key o id) (live r (session_key o id)),
      integer (pos (if exists_entry (live r (session_key o id)) then 1 else 0)),
    )
unfolding dispatch delete_each
dispatch-delete o r id =
    ap
      (λ found.
        (deleted r (session_key o id) found, integer (pos (if exists_entry found then 1 else 0))))
      (find_live-found r (session_key o id))

pub if_same : {A : Type 0} {x y : A} (b : Bool) → (b ≡ true → x ≡ y) → x ≡ (if b then y else x)
if_same true h = h refl
if_same false h = refl

pub controls-deleted :
    (r : Mock) (key : String) (found : Option Entry) → SameControls r (deleted r key found)
controls-deleted r key found =
    if_both (SameControls r) (exists_entry found) _ _
      (λ b. controls_trans (controls-find_live r key) (controls-delete (find_live r key).0 key))
      (λ b. controls-find_live r key)

pub live-deleted_of :
    (r : Mock) (key j : String) (found : Option Entry)
    → live r key ≡ found
    → live (deleted r key found) j ≡ (if str_eq key j then none else live r j)
unfolding exists_entry
live-deleted_of r key j none absent =
    live-find_live r key j
    ∙ if_same (str_eq key j) (λ e. ap (live r) (sym ((eq_iff key j).0 e)) ∙ absent)
live-deleted_of r key j (some e) found =
    live-delete (find_live r key).0 key j ∙ rw (live-find_live r key j) refl

pub live-deleted :
    (r : Mock) (key j : String)
    → live (deleted r key (live r key)) j ≡ (if str_eq key j then none else live r j)
live-deleted r key j = live-deleted_of r key j (live r key) refl

-- Every index key differs from every session's.
pub indexes_off :
    (o : Options)
    → IsSeparate o
    → AllOff (λ j. (id : String) × (j ≡ session_key o id)) (index_key o none ∷ status_index_keys o)
unfolding index_key status_name
indexes_off o separate = (
  off none,
  (
    off (some running),
    (
      off (some awaiting_input),
      (off (some waiting), (off (some completed), (off (some failed), (off (some cancelled), tt)))),
    ),
  ),
)
  where
    off :
        (wanted : Option SessionStatus) (j : String)
        → (id : String) × (j ≡ session_key o id)
        → index_key o wanted ≢ j
    off wanted j (id, e) same = separate id wanted (same ∙ e)
