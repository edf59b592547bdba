-- ===== src/Redis/Keeping.antt =====
-- What one claim or release of src/redis/RedisStateStore.cpp leaves of a claim that is held on the
-- double.
use sapo_engine.Prelude.{
  String, ◌≡◌, ◌≢◌, refl, sym, ◌∙◌, ap, Bool, true, false, not, ◌&&◌, ◌⊎◌, inl, inr, none, some,
  str_eq, eq_iff, arith, Bool-cases,
}
use sapo_engine.Prelude.Int.{ℤ, pos, ◌<ℤ◌, ◌≤ℤ◌, leb_ℤ, eqb_ℤ}
use sapo_engine.Prelude.Decimal.{IsInt64}
use sapo_engine.Redis.Values.{Outcome}
use sapo_engine.Redis.Keyspace.{Mock, is_string, has_expired}
use sapo_engine.Redis.Scripts.{exists_entry}
use sapo_engine.Redis.Client.{mock_client}
use sapo_engine.Redis.Live.{live, SameControls, unexpired, live-put, str_eq_ne}
use sapo_engine.Redis.Store.{try_claim, release_claim}
use sapo_engine.Redis.Layout.{Options, claim_key}
use sapo_engine.Redis.Sessions.{IsUp}
use sapo_engine.Redis.Claims.{
  IsCall, claim_call, claimed, claim_entry, claim_looked, try_claim-claimed, release_claim-released,
}
use sapo_engine.Redis.Holding.{
  Holds, not_late, ne_of_test, claim_key_ne, Holds-live, controls-claim_looked, controls-claimed,
  dropped, owns, released_at, controls-dropped, owns-Holds, live-claimed_kept, live-dropped_kept,
}

module _ (o : Options) where
  pub try_refused :
      (r : Mock) (id token by : String) (ttl_ms : ℤ) {until : ℤ}
      → IsUp r
      → Holds o r id token until
      → IsCall id by
      → pos 0 <ℤ ttl_ms
      → IsInt64 ttl_ms
      → try_claim mock_client o r id by ttl_ms ≡ claimed o r id by ttl_ms true
  unfolding exists_entry
  try_refused r id token by ttl_ms up h call timed in_range =
      try_claim-claimed o r id by ttl_ms up call timed in_range
      ∙ ap (λ found. claimed o r id by ttl_ms (exists_entry found)) h.claim_live

  held_or_other :
      (r : Mock) (id token j : String) {until : ℤ}
      → Holds o r id token until
      → (exists_entry (live r (claim_key o j)) ≡ true) ⊎ (claim_key o j ≢ claim_key o id)
  unfolding exists_entry
  held_or_other r id token j h = elim (Bool-cases (str_eq j id)) [
    | inl e ↦
        let same = (eq_iff j id).0 e in
        inl (ap (λ i. exists_entry (live r (claim_key o i))) same ∙ ap exists_entry h.claim_live)
    | inr e ↦ inr (claim_key_ne o (λ same. ne_of_test e same))
  ]

  foreign_or_other :
      (r : Mock) (id token j by : String) {until : ℤ}
      → Holds o r id token until
      → (j ≢ id) ⊎ (token ≢ by)
      → (owns by (live r (claim_key o j)) ≡ false) ⊎ (claim_key o j ≢ claim_key o id)
  foreign_or_other r id token j by h (inl other) = inr (claim_key_ne o other)
  foreign_or_other r id token j by h (inr foreign) = elim (Bool-cases (str_eq j id)) [
    | inl e ↦
        let same = (eq_iff j id).0 e in
        inl (ap (λ i. owns by (live r (claim_key o i))) same ∙ owns-Holds by h ∙ str_eq_ne foreign)
    | inr e ↦ inr (claim_key_ne o (λ same. ne_of_test e same))
  ]

  pub claim-Holds :
      (r : Mock) (id token j by : String) (until ttl_ms : ℤ)
      → IsUp r
      → Holds o r id token until
      → IsCall j by
      → pos 0 <ℤ ttl_ms
      → IsInt64 ttl_ms
      → SameControls r (try_claim mock_client o r j by ttl_ms).0
        × Holds o (try_claim mock_client o r j by ttl_ms).0 id token until
  claim-Holds r id token j by until ttl_ms up h call timed in_range =
      let held = exists_entry (live r (claim_key o j)) in
      rw (try_claim-claimed o r j by ttl_ms up call timed in_range) (
        controls-claimed o r j by ttl_ms held,
        Holds-live
            (live-claimed_kept o r j by (claim_key o id) ttl_ms held (held_or_other r id token j h))
            h,
      )

  pub release-Holds :
      (r : Mock) (id token j by : String) (until : ℤ)
      → IsUp r
      → Holds o r id token until
      → IsCall j by
      → (j ≢ id) ⊎ (token ≢ by)
      → SameControls r (release_claim mock_client o r j by).0
        × Holds o (release_claim mock_client o r j by).0 id token until
  release-Holds r id token j by until up h call other =
      let owned = owns by (live r (claim_key o j)) in
      rw (release_claim-released o r j by up call.0, released_at o r j by (live r (claim_key o j)))
        (
          controls-dropped o r j by owned,
          Holds-live
              (live-dropped_kept o r j by (claim_key o id) owned
                (foreign_or_other r id token j by h other))
              h,
        )

  pub claimed-Holds :
      (r : Mock) (id token : String) (ttl_ms : ℤ)
      → r.now_ms <ℤ ttl_ms
      → Holds o (claimed o r id token ttl_ms false).0 id token ttl_ms
  unfolding unexpired has_expired is_string
  claimed-Holds r id token ttl_ms early =
      let looked = claim_looked o r id (claim_call o id token ttl_ms) in
      let now = (controls-claim_looked o r id (claim_call o id token ttl_ms)).same_now in
      record {
        claim = claim_entry token ttl_ms;
        claim_live =
            live-put looked (claim_key o id) (claim_key o id) (claim_entry token ttl_ms)
            ∙ rw
                (
                  (eq_iff (claim_key o id) (claim_key o id)).1 refl,
                  now,
                  not_late r.now_ms ttl_ms early,
                )
                refl;
        claim_kind = refl;
        claim_owner = refl;
        claim_until = refl;
      }

  taken_free :
      (r : Mock) (id token : String) (ttl_ms : ℤ) (held : Bool)
      → (claimed o r id token ttl_ms held).1 ≡ some true
      → held ≡ false
  taken_free r id token ttl_ms true h = absurd cc
  taken_free r id token ttl_ms false h = refl

  pub try_taken :
      (r : Mock) (id token : String) (ttl_ms : ℤ)
      → IsUp r
      → IsCall id token
      → pos 0 <ℤ ttl_ms
      → IsInt64 ttl_ms
      → (try_claim mock_client o r id token ttl_ms).1 ≡ some true
      → try_claim mock_client o r id token ttl_ms ≡ claimed o r id token ttl_ms false
  try_taken r id token ttl_ms up call timed in_range taken =
      let did = try_claim-claimed o r id token ttl_ms up call timed in_range in
      let held = exists_entry (live r (claim_key o id)) in
      did
      ∙ ap (claimed o r id token ttl_ms) (
          taken_free r id token ttl_ms held (sym (ap (λ (p : Outcome Mock Bool). p.1) did) ∙ taken))

  pub own_release :
      (r : Mock) (id token : String) {until : ℤ}
      → IsUp r
      → Holds o r id token until
      → id ≢ ""
      → release_claim mock_client o r id token ≡ dropped o r id token true
  own_release r id token up h named =
      release_claim-released o r id token up named
      ∙ released_at o r id token (live r (claim_key o id))
      ∙ ap (dropped o r id token) (owns-Holds token h ∙ (eq_iff token token).1 refl)

  late_test : (now t : ℤ) → pos 0 <ℤ t → t ≤ℤ now → (not (eqb_ℤ t (pos 0)) && leb_ℤ t now) ≡ true
  late_test now t timed late = ground arith

  pub claimed-lost :
      (r : Mock) (id token : String) (ttl_ms : ℤ)
      → pos 0 <ℤ ttl_ms
      → ttl_ms ≤ℤ r.now_ms
      → live (claimed o r id token ttl_ms false).0 (claim_key o id) ≡ none
  unfolding unexpired has_expired
  claimed-lost r id token ttl_ms timed late =
      let looked = claim_looked o r id (claim_call o id token ttl_ms) in
      let now = (controls-claim_looked o r id (claim_call o id token ttl_ms)).same_now in
      live-put looked (claim_key o id) (claim_key o id) (claim_entry token ttl_ms)
      ∙ rw
          (
            (eq_iff (claim_key o id) (claim_key o id)).1 refl,
            now,
            late_test r.now_ms ttl_ms timed late,
          )
          refl
