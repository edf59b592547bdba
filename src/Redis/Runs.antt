-- ===== src/Redis/Runs.antt =====
-- Sequences of calls of the Redis store of src/redis/RedisStateStore.cpp, each made on the double
-- after the last.
use sapo_engine.Prelude.{◌≡◌, ◌≢◌, ◌∙◌, ap, some, List, [], ◌∷◌}
use sapo_engine.Prelude.Int.{ℤ, pos, ◌≤ℤ◌}
use sapo_engine.Prelude.Decimal.{IsInt64}
use sapo_engine.StateStore
use sapo_engine.StateStore.{SessionCheckpoint, SaveOutcome, version_conflict}
use sapo_engine.StateStore.Cas.{Op, save_op, save_if_op, remove_op, run, step, IsKept, save_if_once}
use sapo_engine.Redis.Keyspace.{Mock}
use sapo_engine.Redis.Client.{mock_client}
use sapo_engine.Redis.Store.{save, save_if, remove}
use sapo_engine.Redis.Layout.{Options, JsonText}
use sapo_engine.Redis.Refinement.{IsReady, CanWrite, save-refines, save_if-refines}
use sapo_engine.Redis.Removal.{remove-refines}

module _ (json : JsonText) (o : Options) where
  unfoldable pub redis_step : Mock → Op → Mock
  redis_step r (save_op c) = (save mock_client json o r c).0
  redis_step r (save_if_op c expected) = (save_if mock_client json o r c expected).0
  redis_step r (remove_op id) = (remove mock_client json o r id).0

  unfoldable pub redis_run : Mock → List Op → Mock
  unfolding redis_step
  redis_run r [] = r
  redis_run r (op ∷ ops) = redis_run (redis_step r op) ops

  -- Every call of the sequence is one that the store takes, where it comes.
  abbrev pub CanRun : StateStore.Store → List Op → Type 0
  CanRun m [] = Unit
  CanRun m (save_op c ∷ ops) = CanWrite json o m c × CanRun (StateStore.save m c) ops
  CanRun m (save_if_op c expected ∷ ops) =
      CanWrite json o m c
      × (pos 0 ≤ℤ expected)
      × IsInt64 expected
      × CanRun (StateStore.save_if m c expected).0 ops
  CanRun m (remove_op id ∷ ops) = (id ≢ "") × CanRun (StateStore.remove m id).0 ops

  -- On a store that is ready, after any sequence of calls of save, saveIf and remove that it takes,
  -- it is ready and the double holds the sessions that the in-memory store holds after the same
  -- calls.
  pub run-refines :
      (r : Mock) (m : StateStore.Store) (ops : List Op)
      → IsReady json o r m
      → CanRun m ops
      → IsReady json o (redis_run r ops) (run m ops)
  unfolding redis_run run step
  run-refines r m [] ready can = ready
  run-refines r m (save_op c ∷ ops) ready (can, rest) =
      run-refines (save mock_client json o r c).0 (StateStore.save m c) ops
        ((save-refines json o r m c ready can).1) rest
  run-refines r m (save_if_op c expected ∷ ops) ready (can, nonneg, in_range, rest) =
      run-refines (save_if mock_client json o r c expected).0 (StateStore.save_if m c expected).0
        ops ((save_if-refines json o r m c ready can expected nonneg in_range).1) rest
  run-refines r m (remove_op id ∷ ops) ready (named, rest) =
      run-refines (remove mock_client json o r id).0 (StateStore.remove m id).0 ops
        ((remove-refines json o r m id ready named).1) rest

  conflict :
      (out : SaveOutcome)
      → out.result ≡ version_conflict
      → out ≡ record { result = version_conflict; version = out.version }
  conflict out h = ap (λ result. record { result = result; version = out.version }) h

  -- Of all the writers that read one version of a session from a ready store, one wins: after a
  -- compare-and-swap at the version that the session has, a later one at that version is a conflict,
  -- whatever calls of save, saveIf and remove that the store takes come between, as long as none of
  -- them removes the session. No time passes on the double between the calls.
  pub redis_once :
      (r : Mock) (m : StateStore.Store) (c c' : SessionCheckpoint) (v : ℤ) (ops : List Op)
      → IsReady json o r m
      → StateStore.current_version m c.session_id ≡ v
      → pos 0 ≤ℤ v
      → IsInt64 v
      → CanWrite json o m c
      → CanRun (StateStore.save_if m c v).0 ops
      → CanWrite json o (run (StateStore.save_if m c v).0 ops) c'
      → c'.session_id ≡ c.session_id
      → IsKept c.session_id ops
      → (w : ℤ) × ((save_if mock_client json o
            (redis_run (save_if mock_client json o r c v).0 ops)
            c'
            v).1
          ≡ some (record { result = version_conflict; version = w }))
  redis_once r m c c' v ops ready read nonneg in_range can between can' same kept =
      let won = (save_if-refines json o r m c ready can v nonneg in_range).1 in
      let later =
        run-refines (save_if mock_client json o r c v).0 (StateStore.save_if m c v).0 ops won
          between in
      let m' = run (StateStore.save_if m c v).0 ops in
      (
        (StateStore.save_if m' c' v).1.version,
        ((save_if-refines json o (redis_run (save_if mock_client json o r c v).0 ops) m' c' later
              can' v nonneg in_range).0)
            ∙ ap some (
                conflict (StateStore.save_if m' c' v).1
                  (save_if_once m c c' v ops read nonneg same kept)),
      )
