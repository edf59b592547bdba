-- ===== src/Redis/Holding.antt =====
-- Who holds a claim of src/redis/RedisStateStore.cpp on the double, and what a claim and a release
-- leave of it.
use text.Mathlib.TextLemmas.{append_cancel_left}
use sapo_engine.Prelude.{
  ℕ, String, ◌≡◌, ◌≢◌, refl, sym, ◌∙◌, Bool, Bool-cases, true, false, not, ◌&&◌, ◌⊎◌, inl, inr,
  Option, none, some, List, if◌then◌else◌, str_eq, eq_iff, arith,
}
use sapo_engine.Prelude.Int.{ℤ, pos, ◌+ℤ◌, ◌<ℤ◌, leb_ℤ, eqb_ℤ}
use sapo_engine.Redis.Values.{Outcome, throw_if_error, is_error, to_int}
use sapo_engine.Redis.Keyspace.{Mock, Entry, delete, is_string, has_expired}
use sapo_engine.Prelude.Map.{lookup}
use sapo_engine.Redis.Client.{advance_time}
use sapo_engine.Redis.Sessions.{IsUp}
use sapo_engine.Redis.Scripts.{release_found}
use sapo_engine.Redis.Live.{
  live, unexpired, live-find_live, controls-find_live, controls-put, controls-delete,
  controls_trans, SameControls, live-put_ne, live-delete_ne,
}
use sapo_engine.Redis.Layout.{Options, claim_key}
use sapo_engine.Redis.Calls.{logged}
use sapo_engine.Redis.Written.{controls-logged}
use sapo_engine.Redis.Claims.{
  claim_call, release_call, claimed, released, claim_entry, claim_looked,
}

-- The claim of a session is live until a time, and a token owns it.
pub record Holds (o : Options) (r : Mock) (id token : String) (until : ℤ) : Type 0 where
  pub claim : Entry
  pub claim_live : live r (claim_key o id) ≡ some claim
  pub claim_kind : is_string claim.kind ≡ true
  pub claim_owner : claim.string_value ≡ token
  pub claim_until : claim.expires_at_ms ≡ until

pub not_late : (now t : ℤ) → now <ℤ t → (not (eqb_ℤ t (pos 0)) && leb_ℤ t now) ≡ false
not_late now t h = ground arith

pub ne_of_test : {a b : String} → str_eq a b ≡ false → a ≢ b
ne_of_test {a} {b} e same = ground (arith, (eq_iff a b).1 same)

pub claim_key_ne : (o : Options) {a b : String} → a ≢ b → claim_key o a ≢ claim_key o b
unfolding claim_key
claim_key_ne o {a} {b} h e = h (append_cancel_left o.claim_prefix a b e)

-- Nothing is live under other keys than before.
pub Holds-live :
    {o : Options} {r r' : Mock} {id token : String} {until : ℤ}
    → live r' (claim_key o id) ≡ live r (claim_key o id)
    → Holds o r id token until
    → Holds o r' id token until
Holds-live same h = record {
  claim = h.claim;
  claim_live = same ∙ h.claim_live;
  claim_kind = h.claim_kind;
  claim_owner = h.claim_owner;
  claim_until = h.claim_until;
}

pub live-claim_looked :
    (o : Options) (r : Mock) (id : String) (args : List String) (j : String)
    → live (claim_looked o r id args) j ≡ live r j
unfolding live
live-claim_looked o r id args j = live-find_live (logged r args) (claim_key o id) j

pub controls-claim_looked :
    (o : Options) (r : Mock) (id : String) (args : List String)
    → SameControls r (claim_looked o r id args)
controls-claim_looked o r id args =
    controls_trans (controls-logged r args) (controls-find_live (logged r args) (claim_key o id))

pub controls-claimed :
    (o : Options) (r : Mock) (id token : String) (ttl_ms : ℤ) (held : Bool)
    → SameControls r (claimed o r id token ttl_ms held).0
controls-claimed o r id token ttl_ms true =
    controls-claim_looked o r id (claim_call o id token ttl_ms)
controls-claimed o r id token ttl_ms false =
    controls_trans (controls-claim_looked o r id (claim_call o id token ttl_ms)) (
      controls-put (claim_looked o r id (claim_call o id token ttl_ms)) (claim_key o id)
        (claim_entry token ttl_ms))

pub live-claimed_ne :
    (o : Options) (r : Mock) (id token j : String) (ttl_ms : ℤ) (held : Bool)
    → claim_key o id ≢ j
    → live (claimed o r id token ttl_ms held).0 j ≡ live r j
live-claimed_ne o r id token j ttl_ms true h =
    live-claim_looked o r id (claim_call o id token ttl_ms) j
live-claimed_ne o r id token j ttl_ms false h =
    live-put_ne (claim_looked o r id (claim_call o id token ttl_ms)) (claim_key o id) j
      (claim_entry token ttl_ms) h
    ∙ live-claim_looked o r id (claim_call o id token ttl_ms) j

-- A release by the token that owns the claim drops it, and one by another token does not.
abbrev pub dropped : Options → Mock → String → String → Bool → Outcome Mock Bool
dropped o r id token owned =
    let looked = claim_looked o r id (release_call o id token) in
    if owned then (delete looked (claim_key o id), some true) else (looked, some false)

abbrev pub owns : String → Option Entry → Bool
owns token none = false
owns token (some e) = is_string e.kind && str_eq e.string_value token

pub released_at :
    (o : Options) (r : Mock) (id token : String) (found : Option Entry)
    → released o r id token found ≡ dropped o r id token (owns token found)
unfolding release_found throw_if_error is_error to_int
released_at o r id token none = refl
released_at o r id token (some e) =
    by_tests (is_string e.kind) (str_eq e.string_value token) refl refl
  where
    by_tests :
        (a b : Bool)
        → is_string e.kind ≡ a
        → str_eq e.string_value token ≡ b
        → released o r id token (some e) ≡ dropped o r id token (a && b)
    by_tests true true p q = rw (p, q) refl
    by_tests true false p q = rw (p, q) refl
    by_tests false b p q = rw p refl

pub controls-dropped :
    (o : Options) (r : Mock) (id token : String) (owned : Bool)
    → SameControls r (dropped o r id token owned).0
controls-dropped o r id token false = controls-claim_looked o r id (release_call o id token)
controls-dropped o r id token true =
    controls_trans (controls-claim_looked o r id (release_call o id token))
      (controls-delete (claim_looked o r id (release_call o id token)) (claim_key o id))

pub live-dropped_ne :
    (o : Options) (r : Mock) (id token j : String) (owned : Bool)
    → claim_key o id ≢ j
    → live (dropped o r id token owned).0 j ≡ live r j
live-dropped_ne o r id token j false h = live-claim_looked o r id (release_call o id token) j
live-dropped_ne o r id token j true h =
    live-delete_ne (claim_looked o r id (release_call o id token)) (claim_key o id) j h
    ∙ live-claim_looked o r id (release_call o id token) j

pub owns-Holds :
    {o : Options} {r : Mock} {id token : String} {until : ℤ} (by : String)
    → Holds o r id token until
    → owns by (live r (claim_key o id)) ≡ str_eq token by
owns-Holds by h = rw (h.claim_live, h.claim_kind, h.claim_owner) refl

pub live-claimed_kept :
    (o : Options) (r : Mock) (j by key : String) (ttl_ms : ℤ) (held : Bool)
    → (held ≡ true) ⊎ (claim_key o j ≢ key)
    → live (claimed o r j by ttl_ms held).0 key ≡ live r key
live-claimed_kept o r j by key ttl_ms held (inl e) =
    rw e (live-claim_looked o r j (claim_call o j by ttl_ms) key)
live-claimed_kept o r j by key ttl_ms held (inr h) = live-claimed_ne o r j by key ttl_ms held h

pub live-dropped_kept :
    (o : Options) (r : Mock) (j by key : String) (owned : Bool)
    → (owned ≡ false) ⊎ (claim_key o j ≢ key)
    → live (dropped o r j by owned).0 key ≡ live r key
live-dropped_kept o r j by key owned (inl e) =
    rw e (live-claim_looked o r j (release_call o j by) key)
live-dropped_kept o r j by key owned (inr h) = live-dropped_ne o r j by key owned h

live-raw :
    (now : ℤ) (found : Option Entry) (e : Entry) → unexpired now found ≡ some e → found ≡ some e
unfolding unexpired
live-raw now none e h = absurd cc
live-raw now (some a) e h = elim (Bool-cases (has_expired now a)) [
  | inl late ↦ absurd (gone (sym (rw late refl) ∙ h))
  | inr early ↦ sym (rw early refl) ∙ h
]
  where
    gone : ◌≡◌ {A = Option Entry} none (some e) → ⊥
    gone e = cc

-- A claim stays while its time has not come.
pub wait-Holds :
    (o : Options) (r : Mock) (id token : String) (until : ℤ) (ms : ℕ)
    → Holds o r id token until
    → r.now_ms +ℤ pos ms <ℤ until
    → Holds o (advance_time r (pos ms)) id token until
unfolding advance_time live unexpired has_expired
wait-Holds o r id token until ms h early =
    let raw = live-raw r.now_ms (lookup (claim_key o id) r.entries) h.claim h.claim_live in
    record {
      claim = h.claim;
      claim_live = rw (raw, h.claim_until, not_late (r.now_ms +ℤ pos ms) until early) refl;
      claim_kind = h.claim_kind;
      claim_owner = h.claim_owner;
      claim_until = h.claim_until;
    }

pub wait-IsUp : (r : Mock) (ms : ℕ) → IsUp r → IsUp (advance_time r (pos ms))
unfolding advance_time
wait-IsUp r ms up = record {
  up_running = up.up_running;
  up_healthy = up.up_healthy;
  up_scripts = up.up_scripts;
}
