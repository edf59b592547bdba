-- ===== src/Interpreter/Errors.antt =====
-- Error routing, `handleError` of src/runtime/Interpreter.cpp: the node's own handler, then the
-- nearest frame that can recover.
use sapo_engine.Prelude.{
  suc, String, Bool, true, false, not, ◌&&◌, Option, none, some, List, [], ◌∷◌, ◌++◌, if◌then◌else◌,
  str_eq,
}
use sapo_engine.Prelude.Map.{lookup, insert}
use sapo_engine.Workflow.{Node, ParsedWorkflow, find}
use sapo_engine.Interpreter.State.{
  iteration_skipped, error_object, CapturedError, Frame, FrameKind, loop, try, Phase, in_body,
  in_catch, in_finally, RunState, Tasks, Step, done, ◌>>=◌,
}
use sapo_engine.Interpreter.Frames.{save_frames, resolve_jump}
use sapo_engine.Interpreter.Advance.{Unwind, front, close_frame, next_iteration, advance, weigh}

-- A frame of the searches that name a loop: any loop for the empty name.
unfoldable pub is_loop_named : String → FrameKind → Frame → Bool
is_loop_named loop_id loop f =
    if str_eq loop_id ""
    then true
    else if str_eq f.loop_state.loop_id loop_id
    then true
    else str_eq f.node_id loop_id
is_loop_named loop_id _ f = false

-- The innermost such frame, with the frames around it.
unfoldable pub find_loop : String → List Frame → Option (Frame × List Frame)
find_loop loop_id [] = none
find_loop loop_id (f ∷ rest) =
    if is_loop_named loop_id f.kind f then some (f, rest) else find_loop loop_id rest

abbrev pub known_target : ParsedWorkflow → Option String → String
known_target w none = ""
known_target w (some id) = elim (find w id) [ none ↦ "" | some _ ↦ id ]

-- The handler that `catch.when` names for an error's code. A stale id counts as none.
unfoldable pub routed_to : ParsedWorkflow → Frame → CapturedError → String
routed_to w f e = known_target w (lookup e.code f.try_state.catch_when)

abbrev pub handlers_or : String → List String → List String
handlers_or routed catch_ids = if str_eq routed "" then catch_ids else routed ∷ []

abbrev pub is_empty {ℓ} : {A : Type ℓ} → List A → Bool
is_empty [] = true
is_empty (x ∷ xs) = false

abbrev pub own_handler : Option Node → Option String
own_handler none = none
own_handler (some node) = elim node.on_error [
  | none ↦ none
  | some id ↦ if str_eq id "" then none else some id
]

abbrev pub handler_of : ParsedWorkflow → String → Option String
handler_of w current = if str_eq current "" then none else own_handler (find w current)

module _ {C : Type 0} where
  -- The locals and the context variable by which a catch body reads the error.
  unfoldable pub name_error : Tasks C → String → CapturedError → RunState C → RunState C
  name_error t variable e st =
      let locals = insert "error" (error_object e) st.locals in
      record st {
        locals =
            if str_eq variable ""
            then locals
            else if str_eq variable "error"
            then locals
            else insert variable (error_object e) locals;
        context = if str_eq variable "" then st.context else t.set_variable variable e st.context;
      }

  unfoldable pub enter_catch :
      Tasks C → Frame → List Frame → List String → CapturedError → RunState C → RunState C
  unfolding name_error
  enter_catch t f outer ids e st =
      let f' : Frame = record f {
        position = 0;
        ids = ids;
        try_state = record f.try_state { phase = in_catch };
      } in
      name_error t f.try_state.error_variable e
        (save_frames (record st { frames = f' ∷ outer; cursor = front ids }))

  -- Cleanup first, then the error keeps travelling outwards.
  unfoldable pub enter_cleanup :
      Frame → List Frame → List String → CapturedError → RunState C → RunState C
  enter_cleanup f outer ids e st =
      let f' : Frame = record f {
        position = 0;
        ids = ids;
        try_state = record f.try_state { phase = in_finally; propagate = some e };
      } in
      save_frames (record st { frames = f' ∷ outer; cursor = front ids })

  -- `return true` after a step that has a verdict of its own.
  unfoldable pub as_handled : Bool × RunState C → Step (Bool × RunState C)
  as_handled (b, st) = done (true, st)

module _ {C : Type 0} (t : Tasks C) (w : ParsedWorkflow) where
  abbrev pub unwind_of : RunState C → Unwind C
  unwind_of st = advance t w (suc (weigh st.frames))

  unfoldable pub iterate_found : RunState C → Option (Frame × List Frame) → Step (Bool × RunState C)
  iterate_found st none = done (false, st)
  iterate_found st (some (f, rest)) = do
    st' ← next_iteration t w (unwind_of st) f rest st
    done (true, st')

  -- `nextIterationFor`; false is "not inside such a loop".
  unfoldable pub next_iteration_for : RunState C → String → Step (Bool × RunState C)
  next_iteration_for st loop_id = iterate_found st (find_loop loop_id st.frames)

  unfoldable pub finish_found : RunState C → Option (Frame × List Frame) → Step (Bool × RunState C)
  finish_found st none = done (false, st)
  finish_found st (some (f, rest)) = do st' ← close_frame (unwind_of st) f rest st; done (true, st')

  unfoldable pub finish_loop : RunState C → String → Step (Bool × RunState C)
  finish_loop st loop_id = finish_found st (find_loop loop_id st.frames)

  -- A try frame in its body, with the handlers that it has for this error and its cleanup.
  unfoldable pub recover :
      Frame
      → List Frame
      → List String
      → List String
      → CapturedError
      → RunState C
      → Step (Bool × RunState C)
  recover f outer (x ∷ xs) cleanup e st = done (true, enter_catch t f outer (x ∷ xs) e st)
  recover f outer [] (x ∷ xs) e st = done (true, enter_cleanup f outer (x ∷ xs) e st)
  recover f outer [] [] e st = do
    st' ← close_frame (unwind_of st) f outer (record st { pending_error = some e })
    done (true, st')

  unfoldable pub try_frame :
      Phase
      → Frame
      → List Frame
      → CapturedError
      → RunState C
      → Step (Bool × RunState C)
      → Step (Bool × RunState C)
  try_frame in_body f outer e st further =
      let ts = f.try_state in
      let routed = routed_to w f e in
      if str_eq routed "" && is_empty ts.catch_ids && not (is_empty ts.catch_when)
      then further
      else recover f outer (handlers_or routed ts.catch_ids) ts.finally_ids e st
  try_frame _ f outer e st further = further

  -- `nextIterationFor(workflow, state, "")`: the innermost loop of all the frames.
  unfoldable pub loop_frame :
      Frame → CapturedError → RunState C → Step (Bool × RunState C) → Step (Bool × RunState C)
  loop_frame f e st further =
      if str_eq f.loop_state.on_item_error "fail"
      then further
      else (next_iteration_for
            (record st {
              warnings =
                  st.warnings
                  ++ iteration_skipped f.node_id f.loop_state.index e.code e.message ∷ [];
            })
            ""
          >>= as_handled)

  unfoldable pub handle_frame :
      FrameKind
      → Frame
      → List Frame
      → CapturedError
      → RunState C
      → Step (Bool × RunState C)
      → Step (Bool × RunState C)
  handle_frame try f outer e st further = try_frame f.try_state.phase f outer e st further
  handle_frame loop f outer e st further = loop_frame f e st further
  handle_frame _ f outer e st further = further

  -- From the innermost frame outwards.
  unfoldable pub handle_frames : List Frame → CapturedError → RunState C → Step (Bool × RunState C)
  handle_frames [] e st = done (false, st)
  handle_frames (f ∷ outer) e st = handle_frame f.kind f outer e st (handle_frames outer e st)

  unfoldable pub handle_or : Option String → CapturedError → RunState C → Step (Bool × RunState C)
  handle_or (some id) e st =
      done
        (true, resolve_jump (record st { locals = insert "error" (error_object e) st.locals }) id)
  handle_or none e st = handle_frames st.frames e st

  unfoldable pub handle_error : CapturedError → RunState C → Step (Bool × RunState C)
  handle_error e st = handle_or (handler_of w st.current_node_id) e st
