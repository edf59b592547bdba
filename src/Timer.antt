-- ===== src/Timer.antt =====
-- The durable timer of src/runtime/Scheduler.hpp, which checkpoints and the scheduler share.
use sapo_engine.Prelude.{String}
use sapo_engine.Prelude.Int.{ℤ}

pub record Timer : Type 0 where
  pub id : String
  pub session_id : String
  pub due_ms : ℤ
  pub resume_node : String
  pub reason : String
  pub context_checkpoint_key : String
