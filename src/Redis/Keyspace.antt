-- ===== src/Redis/Keyspace.antt =====
-- The state of the in-memory double and its helpers on one key, the first part of
-- src/redis/MockRedisClient.cpp. An integer field is an `int64_t` that stays in range. A score is
-- a double that holds a whole number, as the store writes it: a time in milliseconds.
use sapo_engine.Prelude.{
  ℕ, String, Bool, true, false, not, ◌&&◌, Option, none, some, List, [], ◌∷◌, if◌then◌else◌, str_eq,
}
use sapo_engine.Prelude.Map.{Assoc, lookup, insert, erase}
use sapo_engine.Prelude.Int.{ℤ, pos, leb_ℤ, eqb_ℤ}

pub data EntryKind : Type 0 where
  string_kind hash_kind zset_kind : EntryKind

unfoldable pub is_hash : EntryKind → Bool
is_hash hash_kind = true
is_hash _ = false

unfoldable pub is_string : EntryKind → Bool
is_string string_kind = true
is_string _ = false

unfoldable pub is_zset : EntryKind → Bool
is_zset zset_kind = true
is_zset _ = false

pub record Entry : Type 0 where
  pub kind : EntryKind
  pub string_value : String
  pub hash : Assoc String
  pub zset : Assoc ℤ
  pub expires_at_ms : ℤ

-- The default member initialisers.
abbrev pub new_entry : Entry
new_entry = record {
  kind = string_kind;
  string_value = "";
  hash = [];
  zset = [];
  expires_at_ms = pos 0;
}

-- The two scripts that have a mirror.
pub data Mirror : Type 0 where
  save_mirror release_mirror : Mirror

pub record Mock : Type 0 where
  pub entries : Assoc Entry
  pub scripts : List (String × Mirror)
  pub recorded : List (List String)
  pub now_ms : ℤ
  pub is_down : Bool
  pub failures_left : ℕ
  pub failure_message : String

unfoldable pub has_expired : ℤ → Entry → Bool
has_expired now e = not (eqb_ℤ e.expires_at_ms (pos 0)) && leb_ℤ e.expires_at_ms now

unfoldable pub find_among : Mock → String → Option Entry → Mock × Option Entry
unfolding has_expired
find_among r key none = (r, none)
find_among r key (some e) =
    if has_expired r.now_ms e
    then (record r { entries = erase key r.entries }, none)
    else (r, some e)

unfoldable pub find_live : Mock → String → Mock × Option Entry
unfolding find_among
find_live r key = find_among r key (lookup key r.entries)

unfoldable pub entry_or_new : Option Entry → Entry
entry_or_new none = new_entry
entry_or_new (some e) = e

-- `entryFor` hands out a reference, which its callers write through.
unfoldable pub entry_for : Mock → String → EntryKind → Entry
unfolding entry_or_new
entry_for r key kind = record (entry_or_new (lookup key r.entries)) { kind = kind }

unfoldable pub put : Mock → String → Entry → Mock
put r key e = record r { entries = insert key e r.entries }

unfoldable pub delete : Mock → String → Mock
delete r key = record r { entries = erase key r.entries }

-- The fields of a hash keep the order in which they came.
unfoldable pub hash_set : String → String → Assoc String → Assoc String
hash_set field value [] = (field, value) ∷ []
hash_set field value ((f, v) ∷ rest) =
    let more = hash_set field value rest in
    if str_eq f field then (f, value) ∷ rest else (f, v) ∷ more

unfoldable pub hash_get : String → Assoc String → Option String
hash_get field [] = none
hash_get field ((f, v) ∷ rest) = if str_eq f field then some v else hash_get field rest

-- The entry that a member is added to: the live sorted set, or an emptied one.
unfoldable pub zset_for : Mock → String → Option Entry → Entry
unfolding is_zset entry_for
zset_for r key none = record (entry_for r key zset_kind) { zset = [] }
zset_for r key (some e) =
    if is_zset e.kind then e else record (entry_for r key zset_kind) { zset = [] }

unfoldable pub zadd : Mock → String → ℤ → String → Mock
unfolding find_live zset_for put
zadd r key score member =
    let (r', found) = find_live r key in
    let e = zset_for r' key found in put r' key (record e { zset = insert member score e.zset })

unfoldable pub is_empty {ℓ} : {A : Type ℓ} → List A → Bool
is_empty [] = true
is_empty (x ∷ xs) = false

-- An entry is written back, or deleted when its set is empty and it has no expiry.
unfoldable pub put_or_delete : Mock → String → Entry → Mock
unfolding is_empty put delete
put_or_delete r key e =
    if is_empty e.zset && eqb_ℤ e.expires_at_ms (pos 0) then delete r key else put r key e

unfoldable pub zrem_from : Mock → String → String → Option Entry → Mock
unfolding is_zset put_or_delete
zrem_from r key member none = r
zrem_from r key member (some e) =
    if is_zset e.kind then put_or_delete r key (record e { zset = erase member e.zset }) else r

unfoldable pub zrem : Mock → String → String → Mock
unfolding find_live zrem_from
zrem r key member = let (r', found) = find_live r key in zrem_from r' key member found
