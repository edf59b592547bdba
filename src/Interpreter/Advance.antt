-- ===== src/Interpreter/Advance.antt =====
-- How control leaves a node, src/runtime/Interpreter.cpp: `advanceAfterNode` and, through the
-- frames that end there, `advanceTryPhase`, `closeFrame`, `nextIterationFor` and `finishLoop`.
-- These call one another on ever fewer frames. Each takes, as `k`, the rest of the unwinding from
-- a node and the frames that are left; the recursion is tied on fuel by `advance`: two rounds for
-- a frame, which a try frame takes to go through its `finally` body, and one for the end.
use sapo_engine.Prelude.{
  ℕ, zero, suc, ◌+◌, String, Bool, true, false, not, ◌&&◌, ◌||◌, Option, none, some, List, [], ◌∷◌,
  ◌++◌, if◌then◌else◌, str_eq, ltb, leb, get_elem?,
}
use sapo_engine.Prelude.Map.{insert}
use sapo_engine.Workflow.{Node, ParsedWorkflow, find, NodeKind, loop_kind}
use sapo_engine.Interpreter.State.{
  loop_capped, error_object, CapturedError, Frame, FrameKind, loop, try, branch, body, LoopMode,
  while, Phase, in_body, in_catch, in_finally, RunStatus, running, completed, RunState, Tasks, Step,
  done, stuck, ◌>>=◌, unguarded,
}
use sapo_engine.Interpreter.Frames.{
  index_of_id, save_frames, bind_iteration, erase_iteration_locals, resolve_jump,
}

-- `if (state.status == "running") state.status = "completed"`
abbrev pub completed_status : RunStatus → RunStatus
completed_status running = completed
completed_status s = s

abbrev pub next_of_found : Option Node → Option String
next_of_found none = none
next_of_found (some node) = node.next

abbrev pub next_of : ParsedWorkflow → String → Option String
next_of w id = next_of_found (find w id)

abbrev pub is_while : LoopMode → Bool
is_while while = true
is_while _ = false

abbrev pub is_none : Option ℕ → Bool
is_none none = true
is_none (some i) = false

-- The `next` of a body node, where it leaves the body.
abbrev pub leaving : List String → Option String → Option String
leaving ids none = none
leaving ids (some t) = if is_none (index_of_id ids t) then some t else none

-- The rounds that a frame may take.
abbrev pub rounds_of : Phase → ℕ
rounds_of in_finally = 1
rounds_of _ = 2

abbrev pub weigh : List Frame → ℕ
weigh [] = 0
weigh (f ∷ rest) = rounds_of f.try_state.phase + weigh rest

-- What is left of the unwinding, from a node and the frames around it.
abbrev pub Unwind : Type 0 → Type 0
Unwind C = String → List Frame → RunState C → Step (RunState C)

-- The first node of a body.
unfoldable pub front : List String → String
front [] = ""
front (x ∷ xs) = x

unfoldable pub kind_of : Option Node → NodeKind
kind_of none = NodeKind.parallel_kind
kind_of (some node) = node.kind

module _ {C : Type 0} where
  unfoldable pub end_of_run : RunState C → RunState C
  end_of_run st = record st { cursor = ""; status = completed_status st.status; finished = true }

  -- `advanceAfterNode` outside of any frame.
  unfoldable pub leave_top : Option String → RunState C → RunState C
  unfolding end_of_run
  leave_top (some target) st = record st { cursor = target }
  leave_top none st = end_of_run st

  -- The end of `closeFrame`, and of a loop that is over.
  unfoldable pub close_frame : Unwind C → Frame → List Frame → RunState C → Step (RunState C)
  close_frame k f rest st =
      k f.node_id rest
        (record (erase_iteration_locals (save_frames (record st { frames = rest })) f.loop_state) {
          current_node_id = f.node_id;
        })

  unfoldable pub repeat_body : Frame → List Frame → ℕ → RunState C → RunState C
  unfolding front
  repeat_body f rest index st =
      let f' : Frame = record f {
        position = 0;
        loop_state = record f.loop_state { index = index };
      } in
      record (save_frames (bind_iteration (record st { frames = f' ∷ rest }) f'.loop_state)) {
        cursor = front f.ids;
      }

  unfoldable pub warn_capped : Frame → Bool → RunState C → RunState C
  warn_capped f capped st =
      if capped && is_while f.loop_state.mode
      then record st {
        warnings = st.warnings ++ loop_capped f.node_id f.loop_state.max_iterations ∷ [];
      }
      else st

  unfoldable pub enter_finally : Frame → List Frame → List String → RunState C → RunState C
  unfolding front
  enter_finally f rest ids st =
      let f' : Frame = record f {
        position = 0;
        ids = ids;
        try_state = record f.try_state { phase = in_finally };
      } in
      record (save_frames (record st { frames = f' ∷ rest })) { cursor = front ids }

  unfoldable pub raise_again : Option CapturedError → RunState C → RunState C
  raise_again none st = st
  raise_again (some e) st = record st {
    pending_error = some e;
    locals = insert "error" (error_object e) st.locals;
  }

  -- `advanceTryPhase`: the body and the catch body are followed by the `finally` body, if there is
  -- one; after that, or without one, the frame is closed.
  unfoldable pub advance_try_phase :
      Unwind C → Frame → List Frame → Phase → List String → RunState C → Step (RunState C)
  advance_try_phase k f rest in_body (x ∷ xs) st = done (enter_finally f rest (x ∷ xs) st)
  advance_try_phase k f rest in_catch (x ∷ xs) st = done (enter_finally f rest (x ∷ xs) st)
  advance_try_phase k f rest _ _ st =
      close_frame k f rest (raise_again f.try_state.propagate (record st { frames = f ∷ rest }))

  -- `if (!state.cursor.empty() || state.finished) return; current = owner; continue;`
  unfoldable pub go_on : Unwind C → String → RunState C → Step (RunState C)
  go_on k owner st =
      if not (str_eq st.cursor "") || st.finished then done st else k owner st.frames st

  unfoldable pub pop_frame : Unwind C → Frame → List Frame → RunState C → Step (RunState C)
  pop_frame k f rest st =
      let st' = save_frames (record st { frames = rest }) in
      if str_eq f.resume_target ""
      then k f.node_id rest st'
      else done (record st' { cursor = f.resume_target })

module _ {C : Type 0} (t : Tasks C) (w : ParsedWorkflow) where
  -- The guard of a `while` loop, asked before each further pass.
  unfoldable pub ask_guard : Option Node → NodeKind → RunState C → Step Bool
  ask_guard (some node) (loop_kind l) st = unguarded (t.loop_guard node st)
  ask_guard _ _ st = done false

  unfoldable pub more_passes : Frame → Bool → RunState C → Step Bool
  more_passes f false st = done false
  more_passes f true st =
      if is_while f.loop_state.mode
      then ask_guard (find w f.node_id) (kind_of (find w f.node_id)) st
      else done true

  -- The next pass of a loop, or the end of it.
  unfoldable pub pass_or_close :
      Unwind C → Frame → List Frame → ℕ → RunState C → Bool → Step (RunState C)
  pass_or_close k f rest index st more =
      if more then done (repeat_body f rest index st) else close_frame k f rest st

  -- `nextIterationFor`, once its loop frame is the innermost.
  unfoldable pub next_iteration : Unwind C → Frame → List Frame → RunState C → Step (RunState C)
  next_iteration k f rest st =
      let index = f.loop_state.index + 1 in
      let capped = leb f.loop_state.max_iterations index in
      let st' = warn_capped f capped (record st { frames = f ∷ rest }) in
      more_passes f (not capped && ltb index f.loop_state.total) st'
      >>= pass_or_close k f rest index st'

  -- A frame whose body is over. `last` tells the last node of the body from a node outside of it,
  -- after which a branch keeps its status.
  unfoldable pub complete_frame :
      Unwind C → FrameKind → Bool → Frame → List Frame → RunState C → Step (RunState C)
  complete_frame k loop last f rest st = next_iteration k f rest st
  complete_frame k try last f rest st =
      advance_try_phase k f rest f.try_state.phase f.try_state.finally_ids st >>= go_on k f.node_id
  complete_frame k branch last f rest st = done (record st {
    frames = f ∷ rest;
    branch_finished = true;
    finished = true;
    cursor = "";
    status = if last then completed_status st.status else st.status;
  })
  complete_frame k body last f rest st = pop_frame k f rest st

  unfoldable pub step_sibling :
      Unwind C → ℕ → Option String → Frame → List Frame → RunState C → Step (RunState C)
  step_sibling k i none f rest st = complete_frame k f.kind true f rest st
  step_sibling k i (some id) f rest st =
      done (save_frames (record st { frames = record f { position = i + 1 } ∷ rest; cursor = id }))

  unfoldable pub leave_or_step :
      Unwind C → ℕ → Option String → Frame → List Frame → RunState C → Step (RunState C)
  leave_or_step k i (some target) f rest st =
      done (resolve_jump (record st { frames = f ∷ rest }) target)
  leave_or_step k i none f rest st = step_sibling k i (get_elem? f.ids (i + 1)) f rest st

  unfoldable pub advance_in :
      Unwind C → String → Option ℕ → Frame → List Frame → RunState C → Step (RunState C)
  advance_in k current none f rest st = complete_frame k f.kind false f rest st
  advance_in k current (some i) f rest st =
      leave_or_step k i (leaving f.ids (next_of w current)) f rest st

  -- One turn of the loop of `advanceAfterNode`.
  unfoldable pub advance : ℕ → Unwind C
  advance zero current frames st = stuck
  advance (suc n) current [] st = done (leave_top (next_of w current) (record st { frames = [] }))
  advance (suc n) current (f ∷ rest) st =
      advance_in (advance n) current (index_of_id f.ids current) f rest st

  unfoldable pub advance_after_node : RunState C → Step (RunState C)
  advance_after_node st = advance (suc (weigh st.frames)) st.current_node_id st.frames st
