-- ===== src/Redis/Exclusion.antt =====
-- Mutual exclusion of the claims of src/redis/RedisStateStore.cpp on the double.
use sapo_engine.Prelude.{
  ℕ, subst, String, ◌≡◌, ◌≢◌, sym, ◌∙◌, ap, Bool, true, false, ◌⊎◌, some, List, [], ◌∷◌,
}
use sapo_engine.Prelude.Int.{ℤ, pos, ◌+ℤ◌, ◌<ℤ◌, ◌≤ℤ◌}
use sapo_engine.Prelude.Decimal.{IsInt64}
use sapo_engine.Redis.Values.{Outcome}
use sapo_engine.Redis.Keyspace.{Mock}
use sapo_engine.Redis.Scripts.{exists_entry}
use sapo_engine.Redis.Client.{mock_client, advance_time}
use sapo_engine.Redis.Store.{try_claim, release_claim}
use sapo_engine.Redis.Layout.{Options}
use sapo_engine.Redis.Sessions.{IsUp, IsUp-controls}
use sapo_engine.Redis.Claims.{IsCall, claimed, try_claim-claimed}
use sapo_engine.Redis.Holding.{Holds, controls-claimed, wait-Holds, wait-IsUp}
use sapo_engine.Redis.Keeping.{
  try_refused, claim-Holds, release-Holds, claimed-Holds, try_taken, own_release, claimed-lost,
}

-- The calls about claims, of any session, and time that passes.
pub data ClaimOp : Type 0 where
  claim_op : String → String → ℤ → ClaimOp
  release_op : String → String → ClaimOp
  wait_op : ℕ → ClaimOp

module _ (o : Options) where
  unfoldable pub claim_step : Mock → ClaimOp → Mock
  claim_step r (claim_op id token ttl_ms) = (try_claim mock_client o r id token ttl_ms).0
  claim_step r (release_op id token) = (release_claim mock_client o r id token).0
  claim_step r (wait_op ms) = advance_time r (pos ms)

  unfoldable pub claim_run : Mock → List ClaimOp → Mock
  unfolding claim_step
  claim_run r [] = r
  claim_run r (op ∷ ops) = claim_run (claim_step r op) ops

  -- No call of the sequence releases the session's claim with the token, and the clock, which
  -- shows `now` before it, stays before `until`.
  abbrev pub AreOthers : String → String → ℤ → ℤ → List ClaimOp → Type 0
  AreOthers id token until now [] = Unit
  AreOthers id token until now (claim_op j by ttl_ms ∷ ops) =
      IsCall j by × (pos 0 <ℤ ttl_ms) × IsInt64 ttl_ms × AreOthers id token until now ops
  AreOthers id token until now (release_op j by ∷ ops) =
      IsCall j by × ((j ≢ id) ⊎ (token ≢ by)) × AreOthers id token until now ops
  AreOthers id token until now (wait_op ms ∷ ops) =
      (now +ℤ pos ms <ℤ until) × AreOthers id token until (now +ℤ pos ms) ops

  run-Holds :
      (r : Mock) (id token : String) (until now : ℤ) (ops : List ClaimOp)
      → IsUp r
      → Holds o r id token until
      → r.now_ms ≡ now
      → AreOthers id token until now ops
      → IsUp (claim_run r ops) × Holds o (claim_run r ops) id token until
  unfolding claim_run claim_step advance_time
  run-Holds r id token until now [] up h clock others = (up, h)
  run-Holds r id token until now (claim_op j by ttl_ms ∷ ops) up h clock
        (call, timed, in_range, rest) =
      let (controls, h') = claim-Holds o r id token j by until ttl_ms up h call timed in_range in
      run-Holds (try_claim mock_client o r j by ttl_ms).0 id token until now ops
        (IsUp-controls controls up) h' (controls.same_now ∙ clock) rest
  run-Holds r id token until now (release_op j by ∷ ops) up h clock (call, other, rest) =
      let (controls, h') = release-Holds o r id token j by until up h call other in
      run-Holds (release_claim mock_client o r j by).0 id token until now ops
        (IsUp-controls controls up) h' (controls.same_now ∙ clock) rest
  run-Holds r id token until now (wait_op ms ∷ ops) up h clock (early, rest) =
      run-Holds (advance_time r (pos ms)) id token until (now +ℤ pos ms) ops (wait-IsUp r ms up)
        (wait-Holds o r id token until ms h (subst (λ t. t +ℤ pos ms <ℤ until) (sym clock) early))
        (ap (λ t. t +ℤ pos ms) clock) rest

  -- On a double that answers and whose clock is before the time to live of a claim, a claim that is
  -- taken excludes every other: whatever calls about claims come after it, on this session or on
  -- others, and however time passes, as long as the clock stays before that time and no call
  -- releases the claim with its own token, a claim of the session is refused, and the token's own
  -- release succeeds.
  pub claim_excludes :
      (r : Mock) (id token by : String) (ttl_ms ttl_ms' : ℤ) (ops : List ClaimOp)
      → IsUp r
      → IsCall id token
      → pos 0 <ℤ ttl_ms
      → IsInt64 ttl_ms
      → r.now_ms <ℤ ttl_ms
      → (try_claim mock_client o r id token ttl_ms).1 ≡ some true
      → AreOthers id token ttl_ms r.now_ms ops
      → IsCall id by
      → pos 0 <ℤ ttl_ms'
      → IsInt64 ttl_ms'
      → ((try_claim mock_client o
            (claim_run (try_claim mock_client o r id token ttl_ms).0 ops)
            id
            by
            ttl_ms').1
          ≡ some false)
        × ((release_claim mock_client o
              (claim_run (try_claim mock_client o r id token ttl_ms).0 ops)
              id
              token).1
            ≡ some true)
  claim_excludes r id token by ttl_ms ttl_ms' ops up call timed in_range early taken others call'
        timed' in_range' =
      let (up', h') =
        run-Holds (claimed o r id token ttl_ms false).0 id token ttl_ms r.now_ms ops
          (IsUp-controls (controls-claimed o r id token ttl_ms false) up)
          (claimed-Holds o r id token ttl_ms early)
          ((controls-claimed o r id token ttl_ms false).same_now) others in
      let after = claim_run (claimed o r id token ttl_ms false).0 ops in
      rw (try_taken o r id token ttl_ms up call timed in_range taken) (
        ap (λ (p : Outcome Mock Bool). p.1)
            (try_refused o after id token by ttl_ms' up' h' call' timed' in_range'),
        ap (λ (p : Outcome Mock Bool). p.1) (own_release o after id token up' h' call.0),
      )

  -- On a double that answers and whose clock has reached the time to live of a claim, a claim that
  -- is taken does not hold: the next claim of the session is taken as well, whoever makes it.
  pub late_claim_lost :
      (r : Mock) (id token by : String) (ttl_ms ttl_ms' : ℤ)
      → IsUp r
      → IsCall id token
      → pos 0 <ℤ ttl_ms
      → IsInt64 ttl_ms
      → ttl_ms ≤ℤ r.now_ms
      → (try_claim mock_client o r id token ttl_ms).1 ≡ some true
      → IsCall id by
      → pos 0 <ℤ ttl_ms'
      → IsInt64 ttl_ms'
      → (try_claim mock_client o (try_claim mock_client o r id token ttl_ms).0 id by ttl_ms').1
        ≡ some true
  unfolding exists_entry
  late_claim_lost r id token by ttl_ms ttl_ms' up call timed in_range late taken call' timed'
        in_range' =
      let after = (claimed o r id token ttl_ms false).0 in
      let free = claimed-lost o r id token ttl_ms timed late in
      rw (try_taken o r id token ttl_ms up call timed in_range taken) (
        ap (λ (p : Outcome Mock Bool). p.1)
          (try_claim-claimed o after id by ttl_ms'
              (IsUp-controls (controls-claimed o r id token ttl_ms false) up) call' timed' in_range'
            ∙ ap (λ found. claimed o after id by ttl_ms' (exists_entry found)) free))
