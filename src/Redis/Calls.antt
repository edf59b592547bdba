-- ===== src/Redis/Calls.antt =====
-- The commands that the store of src/redis/RedisStateStore.cpp sends, as the double of
-- src/redis/MockRedisClient.cpp carries them out.
use sapo_engine.Prelude.{String, ◌≡◌, refl, ap, ◌∙◌, true, none, List, [], ◌∷◌, ◌++◌}
use sapo_engine.Prelude.Int.{ℤ, pos}
use sapo_engine.Prelude.Decimal.{to_string, parse_int}
use sapo_engine.StateStore.{SessionCheckpoint, index_of}
use sapo_engine.Redis.Keyspace.{Mock}
use sapo_engine.Redis.Scripts.{
  sapo_scripts, save_script, mirror_save, evaluate, run_script, run_mirror, is_found,
}
use sapo_engine.Redis.Client.{dispatch, command, after_failures, replied}
use sapo_engine.Redis.Layout.{
  Options, JsonText, write_command, write_keys, session_key, index_key, status_index_keys,
  serialize,
}
use sapo_engine.Redis.Sessions.{IsUp}

abbrev pub logged : Mock → List String → Mock
logged r args = record r { recorded = r.recorded ++ (args ∷ []) }

pub command-up :
    (r : Mock) (args : List String)
    → IsUp r
    → command r args ≡ replied (dispatch (logged r args) args)
unfolding command after_failures
command-up r args u = rw (u.up_running, u.up_healthy) refl

abbrev pub save_keys : Options → String → List String
save_keys o id = session_key o id ∷ index_key o none ∷ status_index_keys o

abbrev pub save_args : JsonText → Options → SessionCheckpoint → ℤ → List String
save_args json o c expected =
    serialize json o c
    ∷ to_string expected
    ∷ to_string (pos (index_of c.status))
    ∷ to_string c.updated_ms
    ∷ to_string o.ttl_seconds
    ∷ c.session_id
    ∷ []

abbrev pub save_call : JsonText → Options → SessionCheckpoint → ℤ → List String
save_call json o c expected =
    "EVAL" ∷ save_script ∷ "8" ∷ (save_keys o c.session_id ++ save_args json o c expected)

pub write_command-atomic :
    (json : JsonText) (o : Options) (c : SessionCheckpoint) (expected : ℤ)
    → o.atomic_index ≡ true
    → write_command json o c expected ≡ save_call json o c expected
unfolding write_command write_keys to_string
write_command-atomic json o c expected h = rw h refl

run_script-save :
    (r : Mock) (keys argv : List String)
    → run_script sapo_scripts r save_script keys argv ≡ mirror_save r keys argv
unfolding run_script run_mirror is_found
run_script-save r keys argv = refl

pub dispatch-save :
    (r : Mock) (json : JsonText) (o : Options) (c : SessionCheckpoint) (expected : ℤ)
    → r.scripts ≡ sapo_scripts
    → dispatch r (save_call json o c expected)
      ≡ mirror_save r (save_keys o c.session_id) (save_args json o c expected)
unfolding dispatch evaluate parse_int
dispatch-save r json o c expected h =
    let keys = save_keys o c.session_id in
    let argv = save_args json o c expected in
    ap (λ scripts. run_script scripts r save_script keys argv) h ∙ run_script-save r keys argv
