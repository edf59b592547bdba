-- ===== src/Interpreter/Frames.antt =====
-- Frame bookkeeping of src/runtime/Interpreter.cpp: the pushing of a frame, the locals of an
-- iteration, and the resolution of a jump against the live frames.
use sapo_engine.Prelude.{
  ℕ, suc, String, Option, none, some, List, [], ◌∷◌, if◌then◌else◌, str_eq, get_elem?,
}
use sapo_engine.Prelude.Map.{Assoc, insert, erase}
use sapo_engine.Json.{Json}
use sapo_engine.Interpreter.State.{
  Local, item, number, Frame, FrameKind, loop, LoopMode, no_mode, LoopState, TryState, in_body,
  RunState,
}

abbrev pub bump : Option ℕ → Option ℕ
bump none = none
bump (some i) = some (suc i)

-- `indexOfId`; `none` is its -1.
unfoldable pub index_of_id : List String → String → Option ℕ
index_of_id [] id = none
index_of_id (x ∷ xs) id = if str_eq x id then some 0 else bump (index_of_id xs id)

-- The members that a frame of another kind lacks.
abbrev pub no_loop : LoopState
no_loop = record {
  mode = no_mode;
  items = [];
  index = 0;
  total = 0;
  max_iterations = 1000;
  iterator = "";
  index_variable = "";
  on_item_error = "fail";
  loop_id = "";
}

abbrev pub no_try : TryState
no_try = record {
  phase = in_body;
  catch_ids = [];
  finally_ids = [];
  error_variable = "error";
  catch_when = [];
  propagate = none;
}

unfoldable pub set_named : String → Local → Assoc Local → Assoc Local
set_named name v locals = if str_eq name "" then locals else insert name v locals

-- `items[index]`, where the index is in range.
unfoldable pub bind_item : LoopState → Option Json → Assoc Local → Assoc Local
bind_item ls none locals = locals
bind_item ls (some v) locals = set_named ls.iterator (item v) locals

unfoldable pub bound_locals : LoopMode → LoopState → Assoc Local → Assoc Local
bound_locals no_mode ls locals = locals
bound_locals _ ls locals = insert "iteration" (number ls.index) (
    set_named ls.index_variable (number ls.index)
      (bind_item ls (get_elem? ls.items ls.index) locals))

unfoldable pub erase_named : String → Assoc Local → Assoc Local
erase_named name locals = if str_eq name "" then locals else erase name locals

module _ {C : Type 0} where
  -- `context->setFrames(state.frames)`
  abbrev pub save_frames : RunState C → RunState C
  save_frames st = record st { saved_frames = st.frames }

  unfoldable pub push_frame :
      RunState C → FrameKind → String → List String → String → LoopState → TryState → RunState C
  push_frame st kind node_id ids resume_target ls ts =
      let frame : Frame = record {
        kind = kind;
        node_id = node_id;
        position = 0;
        resume_target = resume_target;
        ids = ids;
        loop_state = ls;
        try_state = ts;
      } in
      save_frames (record st { frames = frame ∷ st.frames })

  unfoldable pub bind_iteration : RunState C → LoopState → RunState C
  unfolding bound_locals bind_item set_named
  bind_iteration st ls = record st { locals = bound_locals ls.mode ls st.locals }

  unfoldable pub erase_iteration_locals : RunState C → LoopState → RunState C
  unfolding erase_named
  erase_iteration_locals st ls = record st {
    locals = erase "iteration" (erase_named ls.index_variable (erase_named ls.iterator st.locals));
  }

  -- A loop frame that is stepped into rebinds its iteration.
  unfoldable pub bind_if_loop : FrameKind → LoopState → RunState C → RunState C
  bind_if_loop loop ls st = bind_iteration st ls
  bind_if_loop _ ls st = st

  -- The search of `resolveJump`, from the innermost frame outwards: the frame is stepped and the
  -- frames nested inside it are dropped. Without such a frame every frame is left.
  unfoldable pub enter_frame :
      String → RunState C → Option ℕ → Frame → List Frame → RunState C → RunState C
  enter_frame target st none frame outer otherwise = otherwise
  enter_frame target st (some i) frame outer otherwise =
      record (bind_if_loop frame.kind frame.loop_state
        (record st { frames = record frame { position = i } ∷ outer })) { cursor = target }

  unfoldable pub jump_into : String → RunState C → List Frame → RunState C
  jump_into target st [] = record st { frames = []; saved_frames = []; cursor = target }
  jump_into target st (frame ∷ outer) =
      enter_frame target st (index_of_id frame.ids target) frame outer (jump_into target st outer)

  unfoldable pub resolve_jump : RunState C → String → RunState C
  unfolding jump_into enter_frame bind_if_loop
  resolve_jump st target =
      if str_eq target "" then record st { cursor = "" } else jump_into target st st.frames
