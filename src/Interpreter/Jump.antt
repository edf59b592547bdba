-- ===== src/Interpreter/Jump.antt =====
-- Where a jump of src/runtime/Interpreter.cpp lands among the live frames.
use sapo_engine.Prelude.{
  ℕ, zero, suc, String, ◌≡◌, ◌≢◌, refl, ap, false, Option, none, some, List, [], ◌∷◌, str_eq,
  eq_iff, arith, get_elem?, Bool-cases, Option-cases, inl, inr,
}
use sapo_engine.Interpreter.State.{Frame, FrameKind, loop, LoopState, RunState}
use sapo_engine.Interpreter.Frames.{
  bump, index_of_id, bind_iteration, bind_if_loop, enter_frame, jump_into, resolve_jump,
}

later_index : (o : Option ℕ) → bump o ≢ some 0
later_index none = λ e. cc
later_index (some i) = λ e. cc

pub index_of_id-get_elem? :
    (ids : List String) (id : String) (i : ℕ)
    → index_of_id ids id ≡ some i
    → get_elem? ids i ≡ some id
unfolding index_of_id
index_of_id-get_elem? [] id i h = cc
index_of_id-get_elem? (x ∷ xs) id zero h = elim (Bool-cases (str_eq x id)) [
  | inl same ↦ ap some ((eq_iff x id).0 same)
  | inr other ↦ ground (arith, other, later_index (index_of_id xs id))
]
index_of_id-get_elem? (x ∷ xs) id (suc i) h =
    ground (arith, index_of_id-get_elem? xs id i, later_index (index_of_id xs id))

-- The frames after a jump, from the frames before it: the innermost frame whose body has the
-- target is stepped to it, and the frames nested inside that one are gone.
pub data Lands (target : String) : List Frame → List Frame → Type 0 where
  nowhere : Lands target [] []
  here :
      {f : Frame} {outer : List Frame} (i : ℕ)
      → index_of_id f.ids target ≡ some i
      → Lands target (f ∷ outer) (record f { position = i } ∷ outer)
  outside :
      {f : Frame} {outer after : List Frame}
      → index_of_id f.ids target ≡ none
      → Lands target outer after
      → Lands target (f ∷ outer) after

not_empty : (target : String) → target ≢ "" → str_eq target "" ≡ false
not_empty target named = ground (arith, eq_iff target "")

module _ {C : Type 0} where
  frames-bind_if_loop :
      (k : FrameKind) (ls : LoopState) (st : RunState C) → (bind_if_loop k ls st).frames ≡ st.frames
  unfolding bind_if_loop bind_iteration
  frames-bind_if_loop loop ls st = refl
  frames-bind_if_loop _ ls st = refl

  jump_into-Lands :
      (target : String) (st : RunState C) (frames : List Frame)
      → (Lands target frames (jump_into target st frames).frames)
        × ((jump_into target st frames).cursor ≡ target)
  unfolding jump_into enter_frame
  jump_into-Lands target st [] = (Lands.nowhere, refl)
  jump_into-Lands target st (f ∷ outer) = elim (Option-cases (index_of_id f.ids target)) [
    | inl no_index ↦
        let (lands, at) = jump_into-Lands target st outer in
        rw no_index (Lands.outside no_index lands, at)
    | inr (i, found) ↦ rw found (
        rw
          (frames-bind_if_loop f.kind f.loop_state
            (record st { frames = record f { position = i } ∷ outer }))
          (Lands.here i found, refl))
  ]

  -- A jump to a named node puts the cursor there. The innermost live frame whose body holds the
  -- node is stepped to it, the frames inside that one are dropped and those around it are kept as
  -- they are; where no live frame holds the node, every frame is left.
  pub resolve_jump-Lands :
      (target : String) (st : RunState C)
      → target ≢ ""
      → (Lands target st.frames (resolve_jump st target).frames)
        × ((resolve_jump st target).cursor ≡ target)
  unfolding resolve_jump
  resolve_jump-Lands target st named =
      rw (not_empty target named) (jump_into-Lands target st st.frames)
