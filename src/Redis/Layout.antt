-- ===== src/Redis/Layout.antt =====
-- The keys and the commands of `RedisStateStore`, src/redis/RedisStateStore.cpp and
-- src/redis/RedisStateStore.hpp. The JSON library is a parameter.
use Prim.Native.String.{◌++◌}
use sapo_engine.Prelude.{
  ℕ, String, Bool, true, not, ◌&&◌, Option, none, some, List, [], ◌∷◌, ◌++◌ as append, map,
  if◌then◌else◌, str_eq, length, ◌==◌,
}
use sapo_engine.Prelude.Int.{ℤ, pos, negsuc, leb_ℤ}
use sapo_engine.Prelude.Decimal.{to_string}
use sapo_engine.Json.{Json}
use sapo_engine.StateStore.{
  SessionCheckpoint, SessionStatus, running, awaiting_input, waiting, completed, failed, cancelled,
  index_of, status_name,
}
use sapo_engine.StateStore.Documents.{Numbers, to_json}
use sapo_engine.Redis.Values.{Replies, no_items, item, to_int}
use sapo_engine.Redis.Scripts.{save_script}

pub record Options : Type 0 where
  pub key_prefix : String
  pub index_prefix : String
  pub claim_prefix : String
  pub ttl_seconds : ℤ
  pub atomic_index : Bool
  pub max_list : ℕ
  pub compact_json : Bool

-- The default member initialisers.
abbrev pub default_options : Options
default_options = record {
  key_prefix = "sapo:session:";
  index_prefix = "sapo:idx:";
  claim_prefix = "sapo:claim:";
  ttl_seconds = pos 900;
  atomic_index = true;
  max_list = 1000;
  compact_json = true;
}

-- What the constructor refuses.
unfoldable pub accepts : Options → Bool
accepts o =
    not (str_eq o.key_prefix "")
    && not (str_eq o.index_prefix "")
    && not (str_eq o.claim_prefix "")
    && leb_ℤ (pos 0) o.ttl_seconds

abbrev pub status_names : List String
status_names = "running" ∷ "awaiting_input" ∷ "waiting" ∷ "completed" ∷ "failed" ∷ "cancelled" ∷ []

-- The JSON library: texts of documents, and reading one.
pub record JsonText : Type 0 where
  pub dump : Json → String
  pub dump_indented : Json → String
  pub parse : String → Option Json
  pub numbers : Numbers

unfoldable pub status_from_index : ℤ → Option SessionStatus
status_from_index (pos n) =
    if n == 0
    then some running
    else if n == 1
    then some awaiting_input
    else if n == 2
    then some waiting
    else if n == 3
    then some completed
    else if n == 4
    then some failed
    else if n == 5
    then some cancelled
    else none
status_from_index (negsuc n) = none

-- The keys, of an identifier that is not empty; the source throws on an empty one.
unfoldable pub session_key : Options → String → String
session_key o id = o.key_prefix ++ id

unfoldable pub claim_key : Options → String → String
claim_key o id = o.claim_prefix ++ id

unfoldable pub index_key : Options → Option SessionStatus → String
unfolding status_name
index_key o none = o.index_prefix ++ "all"
index_key o (some s) = o.index_prefix ++ status_name s

abbrev pub status_index_keys : Options → List String
status_index_keys o = map (λ name. o.index_prefix ++ name) status_names

unfoldable pub remove_from_every_index : Options → String → List (List String)
unfolding index_key
remove_from_every_index o id =
    ("ZREM" ∷ index_key o none ∷ id ∷ [])
    ∷ map (λ key. "ZREM" ∷ key ∷ id ∷ []) (status_index_keys o)

unfoldable pub serialize : JsonText → Options → SessionCheckpoint → String
unfolding to_json
serialize json o c =
    if o.compact_json then json.dump (to_json c) else json.dump_indented (to_json c)

unfoldable pub write_keys : Options → String → List String
unfolding session_key index_key
write_keys o id =
    session_key o id ∷ (if o.atomic_index then index_key o none ∷ status_index_keys o else [])

unfoldable pub write_command : JsonText → Options → SessionCheckpoint → ℤ → List String
unfolding write_keys serialize to_string
write_command json o c expected =
    let keys = write_keys o c.session_id in
    "EVAL"
    ∷ save_script
    ∷ to_string (pos (length keys))
    ∷ append keys (
        serialize json o c
        ∷ to_string expected
        ∷ to_string (pos (index_of c.status))
        ∷ to_string c.updated_ms
        ∷ to_string o.ttl_seconds
        ∷ c.session_id
        ∷ [])

-- The three numbers of a reply; `previous` is -1 where its item is not a number.
unfoldable pub three_ints : Replies → Option (ℤ × (ℤ × ℤ))
unfolding to_int
three_ints (item a (item b (item c no_items))) =
    some (to_int a (pos 0), (to_int b (pos 0), to_int c (negsuc 0)))
three_ints _ = none

abbrev pub same_status : SessionStatus → SessionStatus → Bool
same_status a b = index_of a == index_of b

unfoldable pub drop_previous :
    Options → String → Option SessionStatus → SessionStatus → List (List String)
unfolding index_key
drop_previous o id none next = []
drop_previous o id (some s) next =
    if same_status s next then [] else ("ZREM" ∷ index_key o (some s) ∷ id ∷ []) ∷ []

unfoldable pub index_batch :
    Options → String → Option SessionStatus → SessionStatus → ℤ → List (List String)
unfolding drop_previous index_key to_string
index_batch o id previous next updated_ms = append (drop_previous o id previous next) (
    ("ZADD" ∷ index_key o (some next) ∷ to_string updated_ms ∷ id ∷ [])
    ∷ ("ZADD" ∷ index_key o none ∷ to_string updated_ms ∷ id ∷ [])
    ∷ [])
