-- ===== src/Examples/Sessions.antt =====
-- Two writers that race on one session of the in-memory store of src/runtime/StateStore.cpp.
use sapo_engine.Prelude.{◌≡◌, refl, some, List, [], ◌∷◌, arith, eq_iff}
use sapo_engine.Prelude.Map.{lookup}
use sapo_engine.Prelude.Int.{pos, ◌+ℤ◌, ◌≤ℤ◌}
use sapo_engine.StateStore.{
  SessionCheckpoint, Store, empty_checkpoint, waiting, completed, current_version, save_if, ok,
  version_conflict, session_status_from_string, awaiting_input,
}
use sapo_engine.StateStore.Cas.{Op, save_op, save_if_op, remove_op, run, version-run, save_if_once}

abbrev parked : SessionCheckpoint
parked = record empty_checkpoint { session_id = "s1"; status = waiting }

abbrev resumed : SessionCheckpoint
resumed = record empty_checkpoint { session_id = "s1"; status = completed }

abbrev other : SessionCheckpoint
other = record empty_checkpoint { session_id = "s2" }

abbrev one_session : Store
one_session = ("s1", record parked { version = pos 4 }) ∷ []

abbrev between : List Op
between = save_op other ∷ save_if_op parked (pos 4) ∷ remove_op "s2" ∷ []

reads_four : current_version one_session "s1" ≡ pos 4
unfolding current_version lookup
reads_four = refl

first_wins : (save_if one_session resumed (pos 4)).1 ≡ record { result = ok; version = pos 5 }
unfolding save_if current_version lookup ◌+ℤ◌
first_wins = refl

statuses : session_status_from_string "suspended" ≡ some awaiting_input
unfolding session_status_from_string
statuses = refl

save_if_once_example :
    (save_if (run (save_if one_session resumed (pos 4)).0 between) parked (pos 4)).1.result
    ≡ version_conflict
save_if_once_example =
    save_if_once one_session resumed parked (pos 4) between reads_four (omega arith) refl
      (λ e. ground (arith, eq_iff "s2" "s1"), tt)

version-run_example :
    current_version one_session "s1" ≤ℤ current_version (run one_session between) "s1"
version-run_example =
    version-run between one_session "s1" (λ e. ground (arith, eq_iff "s2" "s1"), tt)
