-- ===== src/Redis/Reindex.antt =====
-- The index step of the save script of src/redis/RedisStateStore.cpp, on the double.
use sapo_engine.Prelude.{
  ℕ, ◌<◌, String, ◌≡◌, ◌≢◌, refl, ◌∙◌, ap, not, ◌&&◌, Option, none, some, if◌then◌else◌, ◌==◌,
  arith, if_both,
}
use sapo_engine.Prelude.Int.{ℤ, pos, negsuc, ◌+ℤ◌, eqb_ℤ, leb_ℤ}
use sapo_engine.Prelude.Decimal.{parse_int-to_string, IsInt64}
use sapo_engine.StateStore.{
  SessionCheckpoint, SessionStatus, index_of, status_name, running, awaiting_input, waiting,
  completed, failed, cancelled,
}
use sapo_engine.Redis.Keyspace.{Mock, zadd, zrem}
use sapo_engine.Redis.Scripts.{index_session, status_key}
use sapo_engine.Redis.Live.{
  live, SameControls, controls_refl, controls_trans, controls-zadd, controls-zrem, live-zadd_ne,
  live-zrem_ne,
}
use sapo_engine.Redis.Layout.{Options, JsonText, index_key, same_status}
use sapo_engine.Redis.Calls.{save_keys, save_args}

abbrev pub index_or_none : Option SessionStatus → ℤ
index_or_none none = negsuc 0
index_or_none (some s) = pos (index_of s)

-- The member leaves the index of its previous status, where that is another one.
unfoldable pub left_previous : Options → Mock → SessionCheckpoint → Option SessionStatus → Mock
left_previous o r c none = r
left_previous o r c (some s) =
    if same_status s c.status then r else zrem r (index_key o (some s)) c.session_id

unfoldable pub reindexed : Options → Mock → SessionCheckpoint → Option SessionStatus → Mock
unfolding left_previous
reindexed o r c previous =
    zadd
      (zadd (left_previous o r c previous) (index_key o (some c.status)) c.updated_ms c.session_id)
      (index_key o none) c.updated_ms c.session_id

status_key-index :
    (o : Options) (id : String) (s : SessionStatus)
    → status_key (save_keys o id) (pos (index_of s)) ≡ index_key o (some s)
unfolding index_key status_name ◌+ℤ◌
status_key-index o id running = refl
status_key-index o id awaiting_input = refl
status_key-index o id waiting = refl
status_key-index o id completed = refl
status_key-index o id failed = refl
status_key-index o id cancelled = refl

pub index_of-lt : (s : SessionStatus) → index_of s < 6
index_of-lt s = ground arith

pub index_of-IsInt64 : (s : SessionStatus) → IsInt64 (pos (index_of s))
index_of-IsInt64 s = omega (arith, index_of-lt s)

if_changed :
    {A : Type 0} (a b : ℕ) (x y : A)
    → (if leb_ℤ (pos 0) (pos a) && not (eqb_ℤ (pos a) (pos b)) then y else x)
      ≡ (if a == b then x else y)
if_changed a b x y = ground arith

pub index_session-reindexed :
    (json : JsonText) (o : Options) (r : Mock) (c : SessionCheckpoint) (expected : ℤ)
    (previous : Option SessionStatus)
    → IsInt64 c.updated_ms
    → index_session r
        (save_keys o c.session_id)
        (save_args json o c expected)
        (index_or_none previous)
      ≡ reindexed o r c previous
unfolding index_session reindexed left_previous
index_session-reindexed json o r c expected none h =
    rw
      (
        parse_int-to_string (pos (index_of c.status)) (pos 0) (index_of-IsInt64 c.status),
        parse_int-to_string c.updated_ms (pos 0) h,
        status_key-index o c.session_id c.status,
      )
      refl
index_session-reindexed json o r c expected (some s) h =
    rw
      (
        parse_int-to_string (pos (index_of c.status)) (pos 0) (index_of-IsInt64 c.status),
        parse_int-to_string c.updated_ms (pos 0) h,
        status_key-index o c.session_id c.status,
        status_key-index o c.session_id s,
      )
      (ap
        (λ r'.
          zadd (zadd r' (index_key o (some c.status)) c.updated_ms c.session_id) (index_key o none)
            c.updated_ms c.session_id)
        (if_changed (index_of s) (index_of c.status) r
          (zrem r (index_key o (some s)) c.session_id)))

-- Under any key but the indexes' nothing changes.
pub live-reindexed :
    (o : Options) (r : Mock) (c : SessionCheckpoint) (previous : Option SessionStatus) (j : String)
    → ((wanted : Option SessionStatus) → index_key o wanted ≢ j)
    → live (reindexed o r c previous) j ≡ live r j
unfolding reindexed left_previous
live-reindexed o r c previous j h =
    live-zadd_ne _ (index_key o none) c.updated_ms c.session_id j (h none)
    ∙ live-zadd_ne (left_previous o r c previous) (index_key o (some c.status)) c.updated_ms
        c.session_id j (h (some c.status))
    ∙ left previous
  where
    left : (p : Option SessionStatus) → live (left_previous o r c p) j ≡ live r j
    left none = refl
    left (some s) =
        if_both (λ r'. live r' j ≡ live r j) (same_status s c.status) _ _ (λ b. refl)
          (λ b. live-zrem_ne r (index_key o (some s)) c.session_id j (h (some s)))

pub controls-reindexed :
    (o : Options) (r : Mock) (c : SessionCheckpoint) (previous : Option SessionStatus)
    → SameControls r (reindexed o r c previous)
unfolding reindexed left_previous
controls-reindexed o r c previous = controls_trans (left previous) (
    controls_trans
      (controls-zadd (left_previous o r c previous) (index_key o (some c.status)) c.updated_ms
        c.session_id)
      (controls-zadd _ (index_key o none) c.updated_ms c.session_id))
  where
    left : (p : Option SessionStatus) → SameControls r (left_previous o r c p)
    left none = controls_refl r
    left (some s) =
        if_both (SameControls r) (same_status s c.status) _ _ (λ b. controls_refl r)
          (λ b. controls-zrem r (index_key o (some s)) c.session_id)
