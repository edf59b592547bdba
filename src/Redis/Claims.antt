-- ===== src/Redis/Claims.antt =====
-- Claims, `tryClaim` and `releaseClaim` of src/redis/RedisStateStore.cpp, on the double: the mutual
-- exclusion that makes a resume idempotent.
use sapo_engine.Prelude.{
  String, ◌≡◌, ◌≢◌, refl, ◌∙◌, ap, Bool, true, false, Option, some, List, [], ◌∷◌, if◌then◌else◌,
  arith,
}
use sapo_engine.Prelude.Int.{ℤ, pos, ◌<ℤ◌, leb_ℤ, ltb_ℤ}
use sapo_engine.Prelude.Decimal.{to_string, parse_int, parse_int-to_string, IsInt64}
use sapo_engine.Redis.Values.{
  RedisValue, Outcome, ◌>>=◌, throw_if_error, is_error, is_ok_status, to_int,
}
use sapo_engine.Redis.Keyspace.{Mock, Entry, string_kind, find_live, put, entry_for}
use sapo_engine.Redis.Scripts.{
  sapo_scripts, release_claim_script, release_found, mirror_release, evaluate, run_script,
  run_mirror, is_found, exists_entry,
}
use sapo_engine.Redis.Commands.{
  upper, set, set_string, SetFlags, read_words, read_word, read_flag, last_word,
}
use sapo_engine.Redis.Client.{mock_client, command, dispatch, replied}
use sapo_engine.Redis.Live.{live, find_live-found, str_eq_ne}
use sapo_engine.Redis.Store.{try_claim, release_claim}
use sapo_engine.Redis.Layout.{Options, claim_key}
use sapo_engine.Redis.Sessions.{IsUp}
use sapo_engine.Redis.Calls.{logged, command-up}

abbrev pub claim_call : Options → String → String → ℤ → List String
claim_call o id token ttl_ms = "SET" ∷ claim_key o id ∷ token ∷ "NX" ∷ "PX" ∷ to_string ttl_ms ∷ []

abbrev pub release_call : Options → String → String → List String
release_call o id token = "EVAL" ∷ release_claim_script ∷ "1" ∷ claim_key o id ∷ token ∷ []

abbrev claim_flags : ℤ → SetFlags
claim_flags ttl_ms = record { only_if_absent = true; only_if_present = false; expiry_ms = ttl_ms }

dispatch-claim :
    (o : Options) (r : Mock) (id token : String) (ttl_ms : ℤ)
    → IsInt64 ttl_ms
    → dispatch r (claim_call o id token ttl_ms)
      ≡ set_string
          (find_live r (claim_key o id)).0
          (exists_entry (live r (claim_key o id)))
          (some (claim_flags ttl_ms))
          (claim_call o id token ttl_ms)
unfolding dispatch set read_words read_word read_flag last_word upper
dispatch-claim o r id token ttl_ms h =
    rw (find_live-found r (claim_key o id), parse_int-to_string ttl_ms (pos 0) h) refl

run_script-release :
    (r : Mock) (key token : String)
    → run_script sapo_scripts r release_claim_script (key ∷ []) (token ∷ [])
      ≡ release_found (find_live r key).0 (live r key) (key ∷ []) (token ∷ [])
unfolding run_script run_mirror is_found mirror_release
run_script-release r key token =
    ap (λ found. release_found (find_live r key).0 found (key ∷ []) (token ∷ []))
      (find_live-found r key)

dispatch-release :
    (o : Options) (r : Mock) (id token : String)
    → r.scripts ≡ sapo_scripts
    → dispatch r (release_call o id token)
      ≡ release_found
          (find_live r (claim_key o id)).0
          (live r (claim_key o id))
          (claim_key o id ∷ [])
          (token ∷ [])
unfolding dispatch evaluate parse_int
dispatch-release o r id token h =
    ap (λ scripts. run_script scripts r release_claim_script (claim_key o id ∷ []) (token ∷ [])) h
    ∙ run_script-release r (claim_key o id) token

abbrev pub claim_entry : String → ℤ → Entry
claim_entry token ttl_ms = record {
  kind = string_kind;
  string_value = token;
  hash = [];
  zset = [];
  expires_at_ms = ttl_ms;
}

abbrev pub claim_looked : Options → Mock → String → List String → Mock
claim_looked o r id args = (find_live (logged r args) (claim_key o id)).0

-- A call that the store makes: it has an identifier and a token, and a claim has a time.
abbrev pub IsCall : String → String → Type 0
IsCall id token = (id ≢ "") × (token ≢ "")

-- What a claim does: taken where the key is free, refused where it is not.
abbrev pub claimed : Options → Mock → String → String → ℤ → Bool → Outcome Mock Bool
claimed o r id token ttl_ms held =
    let looked = claim_looked o r id (claim_call o id token ttl_ms) in
    if held
    then (looked, some false)
    else (put looked (claim_key o id) (claim_entry token ttl_ms), some true)

abbrev finish_claim : Outcome Mock RedisValue → Outcome Mock Bool
finish_claim reply = reply >>= throw_if_error >>= λ p. (p.0, some (is_ok_status p.1))

finish_set :
    (o : Options) (r : Mock) (id token : String) (ttl_ms : ℤ) (held : Bool)
    → finish_claim (
        replied (
          set_string
            (claim_looked o r id (claim_call o id token ttl_ms))
            held
            (some (claim_flags ttl_ms))
            (claim_call o id token ttl_ms)))
      ≡ claimed o r id token ttl_ms held
unfolding set_string entry_for throw_if_error is_error is_ok_status
finish_set o r id token ttl_ms true = refl
finish_set o r id token ttl_ms false = refl

try_claim-named :
    (o : Options) (r : Mock) (id token : String) (ttl_ms : ℤ)
    → IsCall id token
    → pos 0 <ℤ ttl_ms
    → try_claim mock_client o r id token ttl_ms
      ≡ finish_claim (command r (claim_call o id token ttl_ms))
unfolding try_claim
try_claim-named o r id token ttl_ms (named, given) timed =
    rw (str_eq_ne given, not_due ttl_ms timed, str_eq_ne named) refl
  where
    not_due : (t : ℤ) → pos 0 <ℤ t → leb_ℤ t (pos 0) ≡ false
    not_due t h = ground arith

pub try_claim-claimed :
    (o : Options) (r : Mock) (id token : String) (ttl_ms : ℤ)
    → IsUp r
    → IsCall id token
    → pos 0 <ℤ ttl_ms
    → IsInt64 ttl_ms
    → try_claim mock_client o r id token ttl_ms
      ≡ claimed o r id token ttl_ms (exists_entry (live r (claim_key o id)))
unfolding live
try_claim-claimed o r id token ttl_ms up call timed in_range =
    let args = claim_call o id token ttl_ms in
    try_claim-named o r id token ttl_ms call timed
    ∙ ap finish_claim (command-up r args up)
    ∙ ap (λ p. finish_claim (replied p)) (dispatch-claim o (logged r args) id token ttl_ms in_range)
    ∙ finish_set o r id token ttl_ms (exists_entry (live r (claim_key o id)))

abbrev pub finish_release : Outcome Mock RedisValue → Outcome Mock Bool
finish_release reply =
    reply >>= throw_if_error >>= λ p. (p.0, some (ltb_ℤ (pos 0) (to_int p.1 (pos 0))))

-- What a release does to a claim: gone where the token is its own.
abbrev pub released : Options → Mock → String → String → Option Entry → Outcome Mock Bool
released o r id token found = finish_release (
    replied (
      release_found (claim_looked o r id (release_call o id token)) found (claim_key o id ∷ [])
        (token ∷ [])))

pub release_claim-released :
    (o : Options) (r : Mock) (id token : String)
    → IsUp r
    → id ≢ ""
    → release_claim mock_client o r id token ≡ released o r id token (live r (claim_key o id))
unfolding release_claim live
release_claim-released o r id token up named =
    let args = release_call o id token in
    rw (str_eq_ne named) (
      ap finish_release (command-up r args up)
      ∙ ap (λ p. finish_release (replied p))
          (dispatch-release o (logged r args) id token up.up_scripts))
