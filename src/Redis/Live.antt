-- ===== src/Redis/Live.antt =====
-- What the in-memory double of src/redis/MockRedisClient.cpp holds under a key at its time, and
-- how its helpers change it.
use sapo_engine.Prelude.{
  String, ◌≡◌, ◌≢◌, refl, ◌∙◌, Bool, true, false, ◌&&◌, Option, none, some, if◌then◌else◌, str_eq,
  eq_iff, arith, if_both,
}
use sapo_engine.Prelude.Map.{lookup, erase, lookup-insert, lookup-erase}
use sapo_engine.Prelude.Int.{ℤ, pos, eqb_ℤ}
use sapo_engine.Redis.Keyspace.{
  Entry, Mock, has_expired, find_among, find_live, put, delete, put_or_delete, zadd, zrem_from,
  zrem, is_zset, is_empty,
}

if_push :
    {A B : Type 0} (b : Bool) (f : A → B) (x y : A)
    → f (if b then x else y) ≡ (if b then f x else f y)
if_push true f x y = refl
if_push false f x y = refl

unfoldable pub unexpired : ℤ → Option Entry → Option Entry
unfolding has_expired
unexpired now none = none
unexpired now (some e) = if has_expired now e then none else some e

unfoldable pub live : Mock → String → Option Entry
unfolding unexpired
live r key = unexpired r.now_ms (lookup key r.entries)

-- All but the entries and the log of commands.
pub record SameControls (r r' : Mock) : Type 0 where
  pub same_now : r'.now_ms ≡ r.now_ms
  pub same_scripts : r'.scripts ≡ r.scripts
  pub same_down : r'.is_down ≡ r.is_down
  pub same_failures : r'.failures_left ≡ r.failures_left

pub controls_refl : (r : Mock) → SameControls r r
controls_refl r = record {
  same_now = refl;
  same_scripts = refl;
  same_down = refl;
  same_failures = refl;
}

pub controls_trans : {r s t : Mock} → SameControls r s → SameControls s t → SameControls r t
controls_trans p q = record {
  same_now = q.same_now ∙ p.same_now;
  same_scripts = q.same_scripts ∙ p.same_scripts;
  same_down = q.same_down ∙ p.same_down;
  same_failures = q.same_failures ∙ p.same_failures;
}

pub controls-put : (r : Mock) (key : String) (e : Entry) → SameControls r (put r key e)
unfolding put
controls-put r key e = record {
  same_now = refl;
  same_scripts = refl;
  same_down = refl;
  same_failures = refl;
}

pub controls-delete : (r : Mock) (key : String) → SameControls r (delete r key)
unfolding delete
controls-delete r key = record {
  same_now = refl;
  same_scripts = refl;
  same_down = refl;
  same_failures = refl;
}

pub live-put :
    (r : Mock) (key j : String) (e : Entry)
    → live (put r key e) j ≡ (if str_eq key j then unexpired r.now_ms (some e) else live r j)
unfolding live put
live-put r key j e =
    rw (lookup-insert key j e r.entries)
      (if_push (str_eq key j) (λ o. unexpired r.now_ms o) (some e) (lookup j r.entries))

pub live-delete :
    (r : Mock) (key j : String) → live (delete r key) j ≡ (if str_eq key j then none else live r j)
unfolding live delete
live-delete r key j =
    rw (lookup-erase key j r.entries)
      (if_push (str_eq key j) (λ o. unexpired r.now_ms o) none (lookup j r.entries))

-- What a lookup finds is what is live, and what is live does not change by looking.
pub find_live-found : (r : Mock) (key : String) → (find_live r key).1 ≡ live r key
unfolding find_live find_among live unexpired
find_live-found r key = ground arith

controls-find_among :
    (r : Mock) (key : String) (o : Option Entry) → SameControls r (find_among r key o).0
unfolding find_among delete
controls-find_among r key none = controls_refl r
controls-find_among r key (some e) =
    if_both (λ (p : Mock × Option Entry). SameControls r p.0) (has_expired r.now_ms e) _ _
      (λ late. controls-delete r key) (λ early. controls_refl r)

pub controls-find_live : (r : Mock) (key : String) → SameControls r (find_live r key).0
unfolding find_live
controls-find_live r key = controls-find_among r key (lookup key r.entries)

pub live-find_live : (r : Mock) (key j : String) → live (find_live r key).0 j ≡ live r j
unfolding find_live find_among live unexpired
live-find_live r key j = ground (arith, lookup-erase key j r.entries, eq_iff key j)

-- Distinct texts compare unequal.
pub str_eq_ne : {a b : String} → a ≢ b → str_eq a b ≡ false
str_eq_ne {a} {b} h = ground (arith, eq_iff a b)

pub live-put_ne :
    (r : Mock) (key j : String) (e : Entry) → key ≢ j → live (put r key e) j ≡ live r j
live-put_ne r key j e h = rw (live-put r key j e, str_eq_ne h) refl

pub live-delete_ne : (r : Mock) (key j : String) → key ≢ j → live (delete r key) j ≡ live r j
live-delete_ne r key j h = rw (live-delete r key j, str_eq_ne h) refl

pub live-zadd_ne :
    (r : Mock) (key : String) (score : ℤ) (member j : String)
    → key ≢ j
    → live (zadd r key score member) j ≡ live r j
unfolding zadd
live-zadd_ne r key score member j h = rw (live-put_ne _ key j _ h) (live-find_live r key j)

pub controls-zadd :
    (r : Mock) (key : String) (score : ℤ) (member : String)
    → SameControls r (zadd r key score member)
unfolding zadd
controls-zadd r key score member =
    controls_trans (controls-find_live r key) (controls-put (find_live r key).0 key _)

pub live-put_or_delete_ne :
    (r : Mock) (key j : String) (e : Entry) → key ≢ j → live (put_or_delete r key e) j ≡ live r j
unfolding put_or_delete
live-put_or_delete_ne r key j e h =
    if_both (λ r'. live r' j ≡ live r j) (is_empty e.zset && eqb_ℤ e.expires_at_ms (pos 0)) _ _
      (λ b. live-delete_ne r key j h) (λ b. live-put_ne r key j e h)

pub controls-put_or_delete :
    (r : Mock) (key : String) (e : Entry) → SameControls r (put_or_delete r key e)
unfolding put_or_delete
controls-put_or_delete r key e =
    if_both (SameControls r) (is_empty e.zset && eqb_ℤ e.expires_at_ms (pos 0)) _ _
      (λ b. controls-delete r key) (λ b. controls-put r key e)

live-zrem_from_ne :
    (r : Mock) (key member j : String) (o : Option Entry)
    → key ≢ j
    → live (zrem_from r key member o) j ≡ live r j
unfolding zrem_from
live-zrem_from_ne r key member j none h = refl
live-zrem_from_ne r key member j (some e) h =
    if_both (λ r'. live r' j ≡ live r j) (is_zset e.kind) _ _
      (λ b. live-put_or_delete_ne r key j (record e { zset = erase member e.zset }) h) (λ b. refl)

controls-zrem_from :
    (r : Mock) (key member : String) (o : Option Entry) → SameControls r (zrem_from r key member o)
unfolding zrem_from
controls-zrem_from r key member none = controls_refl r
controls-zrem_from r key member (some e) =
    if_both (SameControls r) (is_zset e.kind) _ _
      (λ b. controls-put_or_delete r key (record e { zset = erase member e.zset }))
      (λ b. controls_refl r)

pub live-zrem_ne :
    (r : Mock) (key member j : String) → key ≢ j → live (zrem r key member) j ≡ live r j
unfolding zrem
live-zrem_ne r key member j h =
    live-zrem_from_ne (find_live r key).0 key member j (find_live r key).1 h
    ∙ live-find_live r key j

pub controls-zrem : (r : Mock) (key member : String) → SameControls r (zrem r key member)
unfolding zrem
controls-zrem r key member =
    controls_trans (controls-find_live r key)
      (controls-zrem_from (find_live r key).0 key member (find_live r key).1)
