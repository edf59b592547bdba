-- ===== src/Redis/Batches.antt =====
-- A batch of `ZREM` commands on the double of src/redis/MockRedisClient.cpp, as
-- src/redis/RedisStateStore.cpp sends it to clear the indexes.
use sapo_engine.Prelude.{
  String, ◌≡◌, ◌≢◌, refl, ◌∙◌, Option, none, some, List, [], ◌∷◌, map, if_both,
}
use sapo_engine.Redis.Values.{RedisValue}
use sapo_engine.Redis.Keyspace.{Mock, Entry, find_live, is_zset}
use sapo_engine.Redis.SortedSets.{zrem_command, zrem_members, delete_members}
use sapo_engine.Redis.Client.{dispatch, pipeline}
use sapo_engine.Redis.Live.{
  live, SameControls, controls_refl, controls_trans, live-find_live, controls-find_live,
  controls-put_or_delete, live-put_or_delete_ne,
}
use sapo_engine.Redis.Sessions.{IsUp, IsUp-controls}
use sapo_engine.Redis.Calls.{logged, command-up}
use sapo_engine.Redis.Written.{controls-logged}

-- What one `ZREM` does to the other keys.
live-zrem_members :
    (r : Mock) (key id j : String) (o : Option Entry)
    → key ≢ j
    → live (zrem_members r o ("ZREM" ∷ key ∷ id ∷ [])).0 j ≡ live r j
unfolding zrem_members
live-zrem_members r key id j none h = refl
live-zrem_members r key id j (some e) h =
    if_both (λ (p : Mock × RedisValue). live p.0 j ≡ live r j) (is_zset e.kind) _ _
      (λ b.
        live-put_or_delete_ne r key j (record e { zset = (delete_members 0 e.zset (id ∷ [])).1 }) h)
      (λ b. refl)

controls-zrem_members :
    (r : Mock) (key id : String) (o : Option Entry)
    → SameControls r (zrem_members r o ("ZREM" ∷ key ∷ id ∷ [])).0
unfolding zrem_members
controls-zrem_members r key id none = controls_refl r
controls-zrem_members r key id (some e) =
    if_both (λ (p : Mock × RedisValue). SameControls r p.0) (is_zset e.kind) _ _
      (λ b.
        controls-put_or_delete r key (record e { zset = (delete_members 0 e.zset (id ∷ [])).1 }))
      (λ b. controls_refl r)

abbrev pub zrem_call : String → String → List String
zrem_call id key = "ZREM" ∷ key ∷ id ∷ []

-- A state reached from another by commands on other keys than the ones that `P` holds of.
pub record Keeps (P : String → Type 0) (r r' : Mock) : Type 0 where
  pub kept_controls : SameControls r r'
  pub kept_live : (j : String) → P j → live r' j ≡ live r j

pub Keeps-trans : (P : String → Type 0) {r s t : Mock} → Keeps P r s → Keeps P s t → Keeps P r t
Keeps-trans P p q = record {
  kept_controls = controls_trans p.kept_controls q.kept_controls;
  kept_live = λ j h. q.kept_live j h ∙ p.kept_live j h;
}

pub Keeps-logged : (P : String → Type 0) (r : Mock) (args : List String) → Keeps P r (logged r args)
unfolding live
Keeps-logged P r args = record { kept_controls = controls-logged r args; kept_live = λ j h. refl }

Keeps-zrem :
    (P : String → Type 0) (r : Mock) (id key : String)
    → ((j : String) → P j → key ≢ j)
    → Keeps P r (dispatch r (zrem_call id key)).0
unfolding dispatch zrem_command
Keeps-zrem P r id key off = record {
  kept_controls =
      controls_trans (controls-find_live r key)
        (controls-zrem_members (find_live r key).0 key id (find_live r key).1);
  kept_live = λ j h.
      live-zrem_members (find_live r key).0 key id j (find_live r key).1 (off j h)
      ∙ live-find_live r key j;
}

-- No key of the list is one that `P` holds of.
abbrev pub AllOff : (String → Type 0) → List String → Type 0
AllOff P [] = Unit
AllOff P (key ∷ keys) = ((j : String) → P j → key ≢ j) × AllOff P keys

-- A batch of removals answers each of its commands.
pub Keeps-pipeline :
    (P : String → Type 0) (r : Mock) (id : String) (keys : List String)
    → IsUp r
    → AllOff P keys
    → (r' : Mock) × ((replies : List RedisValue) × ((pipeline r (map (zrem_call id) keys)
            ≡ (r', some replies))
          × Keeps P r r'))
unfolding pipeline
Keeps-pipeline P r id [] up off =
    (r, ([], (refl, record { kept_controls = controls_refl r; kept_live = λ j h. refl })))
Keeps-pipeline P r id (key ∷ keys) up (off, rest) =
    let called = logged r (zrem_call id key) in
    let done = dispatch called (zrem_call id key) in
    let first =
      Keeps-trans P (Keeps-logged P r (zrem_call id key)) (Keeps-zrem P called id key off) in
    let (r', (replies, (ran, kept))) =
      Keeps-pipeline P done.0 id keys (IsUp-controls first.kept_controls up) rest in
    (
      r',
      (
        done.1 ∷ replies,
        (rw (command-up r (zrem_call id key) up) (rw ran refl), Keeps-trans P first kept),
      ),
    )
