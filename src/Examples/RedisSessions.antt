-- ===== src/Examples/RedisSessions.antt =====
-- The Redis store of src/redis on its in-memory double.
use Prim.Native.String.{◌++◌}
use text.Mathlib.TextLemmas.{append_assoc, append_inj}
use sapo_engine.Prelude.Map.{lookup, insert, erase}
use sapo_engine.Prelude.{
  Bool, String, ◌≡◌, ◌≢◌, refl, sym, ◌∙◌, ap, some, none, Option, List, [], ◌∷◌, if◌then◌else◌,
  str_eq, eq_iff, inr, arith, true, false,
}
use sapo_engine.Prelude.Int.{ℤ, pos, negsuc, ◌+ℤ◌}
use sapo_engine.Prelude.Decimal.{IsInt64}
use sapo_engine.Json.{Json, number_integer, string, object}
use sapo_engine.StateStore
use sapo_engine.StateStore.{
  SessionCheckpoint, SaveOutcome, empty_checkpoint, waiting, completed, version_conflict,
  status_name,
}
use sapo_engine.StateStore.Cas.{Op, save_op, save_if_op, remove_op, run, step}
use sapo_engine.StateStore.Documents.{
  Numbers, ReadsNumbers, to_json, from_json, from_json-to_json, find_member,
}
use sapo_engine.Redis.Values.{Outcome}
use sapo_engine.Redis.Keyspace.{Mock}
use sapo_engine.Redis.Client.{mock_client, new_mock}
use sapo_engine.Redis.Live.{live}
use sapo_engine.Redis.Store.{save_if, load, try_claim, release_claim}
use sapo_engine.Redis.Layout.{JsonText, default_options, index_key, session_key, serialize}
use sapo_engine.Redis.Sessions.{IsSeparate, IsUp}
use sapo_engine.Redis.Refinement.{IsReady, CanWrite, save_if-refines}
use sapo_engine.Redis.Reads.{load-refines}
use sapo_engine.Redis.Runs.{redis_run, CanRun, run-refines, redis_once}
use sapo_engine.Redis.Claims.{try_claim-claimed}
use sapo_engine.Redis.Scripts.{exists_entry}
use sapo_engine.Redis.Exclusion.{
  ClaimOp, claim_op, release_op, wait_op, claim_run, claim_excludes, late_claim_lost,
}

apart : ◌≢◌ {A = String} "sapo:i" "sapo:s"
apart = ground (arith, eq_iff "sapo:i" "sapo:s")

prefixes_apart : (x id : String) → "sapo:idx:" ++ x ≢ "sapo:session:" ++ id
prefixes_apart x id h = apart (
    (append_inj (sym (append_assoc "sapo:i" "dx:" x) ∙ h ∙ append_assoc "sapo:s" "ession:" id)
      refl).0)

-- The default prefixes differ at their sixth character.
IsSeparate-defaults : IsSeparate default_options
unfolding index_key session_key
IsSeparate-defaults id none h = prefixes_apart "all" id h
IsSeparate-defaults id (some s) h = prefixes_apart (status_name s) id h

abbrev numbers : Numbers
numbers = record {
  to_int64 = λ v. elim v [ number_integer n ↦ some n | _ ↦ none ];
  to_size =
      λ v. elim v [ number_integer n ↦ elim n [ pos k ↦ some k | negsuc k ↦ none ] | _ ↦ none ];
}

reads : ReadsNumbers numbers
reads = record { reads_int64 = λ n. refl; reads_size = λ n. refl }

abbrev parked : SessionCheckpoint
parked = record empty_checkpoint {
  session_id = "s1";
  status = waiting;
  cursor = "menu";
  updated_ms = pos 1700;
}

abbrev resumed : SessionCheckpoint
resumed = record empty_checkpoint {
  session_id = "s1";
  status = completed;
  cursor = "end";
  updated_ms = pos 1800;
}

-- A library that writes a document as its cursor, and knows two texts.
abbrev cursor_of : Option Json → String
cursor_of (some (string s)) = s
cursor_of _ = ""

abbrev dump : Json → String
dump (object fs) = cursor_of (find_member "cursor" fs)
dump _ = ""

abbrev json : JsonText
json = record {
  dump = dump;
  dump_indented = dump;
  parse = λ text.
      if str_eq text "menu"
      then some (to_json parked)
      else if str_eq text "end"
      then some (to_json resumed)
      else none;
  numbers = numbers;
}

from_json-to_json_example : from_json numbers (to_json parked) ≡ some parked
from_json-to_json_example = from_json-to_json numbers reads parked

up : IsUp new_mock
up = record { up_running = refl; up_healthy = refl; up_scripts = refl }

ready : IsReady json default_options new_mock []
unfolding live lookup
ready = record {
  is_up = up;
  separate_keys = IsSeparate-defaults;
  atomic = refl;
  ttl_range = omega arith;
  reads_numbers = reads;
  represents = λ id. tt;
}

id_given : ◌≢◌ {A = String} "s1" ""
id_given = ground (arith, eq_iff "s1" "")

can_park :
    (m : StateStore.Store)
    → IsInt64 (StateStore.current_version m "s1" +ℤ pos 1)
    → CanWrite json default_options m parked
unfolding serialize to_json find_member
can_park m next = record {
  has_id = id_given;
  prints = refl;
  dated = omega arith;
  next_version = next;
}

can_resume :
    (m : StateStore.Store)
    → IsInt64 (StateStore.current_version m "s1" +ℤ pos 1)
    → CanWrite json default_options m resumed
unfolding serialize to_json find_member
can_resume m next = record {
  has_id = id_given;
  prints = refl;
  dated = omega arith;
  next_version = next;
}

abbrev calls : List Op
calls = save_op parked ∷ save_if_op resumed (pos 1) ∷ remove_op "s1" ∷ []

can_call : CanRun json default_options [] calls
unfolding StateStore.save StateStore.save_if StateStore.current_version StateStore.version_in lookup
    insert erase ◌+ℤ◌
can_call = (
  can_park [] (omega arith),
  (can_resume (StateStore.save [] parked) (omega arith), omega arith, omega arith, (id_given, tt)),
)

run-refines_example :
    IsReady json default_options (redis_run json default_options new_mock calls) (run [] calls)
run-refines_example = run-refines json default_options new_mock [] calls ready can_call

save_if-refines_example :
    ((save_if mock_client json default_options new_mock parked (pos 0)).1
      ≡ some (StateStore.save_if [] parked (pos 0)).1)
    × IsReady json default_options
        (save_if mock_client json default_options new_mock parked (pos 0)).0
        (StateStore.save_if [] parked (pos 0)).0
unfolding StateStore.current_version StateStore.version_in lookup ◌+ℤ◌
save_if-refines_example =
    save_if-refines json default_options new_mock [] parked ready (can_park [] (omega arith))
      (pos 0) (omega arith) (omega arith)

-- The double and the in-memory store with one session.
abbrev one_call : List Op
one_call = save_op parked ∷ []

abbrev parked_mock : Mock
parked_mock = redis_run json default_options new_mock one_call

can_save : CanRun json default_options [] one_call
unfolding StateStore.current_version StateStore.version_in lookup ◌+ℤ◌
can_save = (can_park [] (omega arith), tt)

load-refines_example :
    ((load mock_client json default_options parked_mock "s1").1
      ≡ some (StateStore.load (run [] one_call) "s1"))
    × IsReady json default_options
        (load mock_client json default_options parked_mock "s1").0
        (run [] one_call)
load-refines_example =
    load-refines json default_options parked_mock (run [] one_call) "s1"
      (run-refines json default_options new_mock [] one_call ready can_save) id_given

abbrev between : List Op
between = save_if_op resumed (pos 1) ∷ []

redis_once_example :
    (w : ℤ) × ((save_if mock_client json default_options
        (redis_run json default_options
          (save_if mock_client json default_options new_mock parked (pos 0)).0
          between)
        resumed
        (pos 0)).1
      ≡ some (record { result = version_conflict; version = w }))
unfolding StateStore.save_if StateStore.current_version StateStore.version_in StateStore.is_some
    lookup insert erase ◌+ℤ◌ run step
redis_once_example =
    redis_once json default_options new_mock [] parked resumed (pos 0) between ready refl
      (omega arith) (omega arith) (can_park [] (omega arith))
      (
        can_resume (StateStore.save_if [] parked (pos 0)).0 (omega arith),
        omega arith,
        omega arith,
        tt,
      )
      (can_resume (run (StateStore.save_if [] parked (pos 0)).0 between) (omega arith)) refl tt

-- Claims of two executions, with calls about another session and time between.
abbrev others : List ClaimOp
others =
    claim_op "s2" "exec2" (pos 5000)
    ∷ release_op "s1" "exec2"
    ∷ wait_op 4000
    ∷ claim_op "s1" "exec3" (pos 9)
    ∷ []

given : (a : String) → str_eq a "" ≡ false → a ≢ ""
given a h e = ground (arith, (eq_iff a "").1 e)

first_taken : (try_claim mock_client default_options new_mock "s1" "exec1" (pos 5000)).1 ≡ some true
unfolding live lookup exists_entry
first_taken =
    ap (λ (p : Outcome Mock Bool). p.1)
      (try_claim-claimed default_options new_mock "s1" "exec1" (pos 5000) up
        (given "s1" refl, given "exec1" refl) (omega arith) (omega arith))

late_taken :
    (try_claim mock_client default_options
      (record new_mock { now_ms = pos 6000 })
      "s1"
      "exec1"
      (pos 5000)).1
    ≡ some true
unfolding live lookup exists_entry
late_taken =
    ap (λ (p : Outcome Mock Bool). p.1)
      (try_claim-claimed default_options (record new_mock { now_ms = pos 6000 }) "s1" "exec1"
        (pos 5000) (record { up_running = refl; up_healthy = refl; up_scripts = refl })
        (given "s1" refl, given "exec1" refl) (omega arith) (omega arith))

claim_excludes_example :
    ((try_claim mock_client default_options
        (claim_run default_options
          (try_claim mock_client default_options new_mock "s1" "exec1" (pos 5000)).0
          others)
        "s1"
        "exec4"
        (pos 5000)).1
      ≡ some false)
    × ((release_claim mock_client default_options
          (claim_run default_options
            (try_claim mock_client default_options new_mock "s1" "exec1" (pos 5000)).0
            others)
          "s1"
          "exec1").1
        ≡ some true)
unfolding ◌+ℤ◌
claim_excludes_example =
    claim_excludes default_options new_mock "s1" "exec1" "exec4" (pos 5000) (pos 5000) others up
      (given "s1" refl, given "exec1" refl) (omega arith) (omega arith) (omega arith) first_taken
      (
        (given "s2" refl, given "exec2" refl),
        omega arith,
        omega arith,
        (
          (given "s1" refl, given "exec2" refl),
          inr (λ e. ground (arith, eq_iff "exec1" "exec2")),
          (omega arith, ((given "s1" refl, given "exec3" refl), omega arith, omega arith, tt)),
        ),
      )
      (given "s1" refl, given "exec4" refl) (omega arith) (omega arith)

abbrev late : Mock
late = record new_mock { now_ms = pos 6000 }

late_claim_lost_example :
    (try_claim mock_client default_options
      (try_claim mock_client default_options late "s1" "exec1" (pos 5000)).0
      "s1"
      "exec2"
      (pos 5000)).1
    ≡ some true
late_claim_lost_example =
    late_claim_lost default_options late "s1" "exec1" "exec2" (pos 5000) (pos 5000)
      (record { up_running = refl; up_healthy = refl; up_scripts = refl })
      (given "s1" refl, given "exec1" refl) (omega arith) (omega arith) (omega arith) late_taken
      (given "s1" refl, given "exec2" refl) (omega arith) (omega arith)
