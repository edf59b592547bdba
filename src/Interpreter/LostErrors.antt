-- ===== src/Interpreter/LostErrors.antt =====
-- The error routing of src/runtime/Interpreter.cpp where a `finally` body runs after an error.
use sapo_engine.Prelude.{ℕ, suc, ◌+◌, ◌≡◌, refl, true, none, some, [], ◌∷◌, get_elem?}
use sapo_engine.Workflow.{ParsedWorkflow, Node}
use sapo_engine.Interpreter.State.{
  CapturedError, continue, RunState, Tasks, ◌>>=◌, Frame, try, in_finally, running, completed,
  Returns,
}
use sapo_engine.Interpreter.Frames.{index_of_id, erase_iteration_locals}
use sapo_engine.Interpreter.Advance.{
  advance_after_node, advance, advance_in, leave_or_step, step_sibling, complete_frame, next_of,
  advance_try_phase, close_frame, raise_again, go_on, leave_top, end_of_run,
}
use sapo_engine.Interpreter.Drive.{follow, drive, drive_on}

module _ {C : Type 0} (t : Tasks C) (w : ParsedWorkflow) (f : Frame) (e : CapturedError) where
  -- The frame of a try node whose `finally` body runs after the error `e`.
  abbrev pub cleaning_up : Frame
  cleaning_up = record f {
    kind = try;
    try_state = record f.try_state { phase = in_finally; propagate = some e };
  }

  -- A run in that frame alone, at the last node of the `finally` body, where neither that node nor
  -- the try node has a successor, is over once the node has returned: its status is "completed",
  -- and the error that was to be raised again is left pending.
  pub finally_loses_error :
      (st : RunState C) (node : Node) (i n : ℕ)
      → index_of_id f.ids st.current_node_id ≡ some i
      → get_elem? f.ids (i + 1) ≡ none
      → next_of w st.current_node_id ≡ none
      → next_of w f.node_id ≡ none
      → Returns
          (λ st'. (st'.finished ≡ true) × (st'.status ≡ completed) × (st'.pending_error ≡ some e))
          (follow t w continue node (record st { frames = cleaning_up ∷ []; status = running })
            >>= drive t w (suc n))
  unfolding follow advance_after_node advance advance_in leave_or_step step_sibling complete_frame
      advance_try_phase close_frame raise_again go_on leave_top end_of_run drive drive_on
      erase_iteration_locals
  finally_loses_error st node i n at last no_next no_owner_next =
      rw (at, advance_in)
        (rw (no_next, leave_or_step)
          (rw (last, step_sibling) (rw no_owner_next (refl, refl, refl))))
