-- ===== src/Runtime/Eyes.antt =====
-- xrLocateViews of android-runtime/session.cpp against xrCreateReferenceSpace and xrLocateSpace.
use axrb.Common.{
  ℕ, zero, suc, ◌+◌, ◌<◌, ◌≡◌, refl, sym, ap, true, Option, none, some, [], ◌∷◌, ◌++◌, length,
  get_elem?, inl, inr, Option-cases, get_elem?-append_self, ltb, if◌then◌else◌, arith,
}
use axrb.Xr.{XrResult, Handle, success, primary_stereo, reference_space_view}
use axrb.Xr.StructureType.{
  type_space_location, type_view_locate_info, type_view_state, type_view,
  type_reference_space_create_info,
}
use axrb.Pose.Frame.{PoseFrame}
use axrb.Runtime.{Runtime, PoseF, SpaceRecord, view, is_valid_session}
use axrb.Runtime.Space.{ReferenceSpaceCreateInfo, find_space, make_space, create_reference_space}
use axrb.Runtime.Float.{FloatOps, world_pose_for_space}
use axrb.Runtime.Location.{
  View, ViewLocateInfo, LocatedViews, all_flags, eye_offset, eye_view, relative_pose, locate_eyes,
  locate_space, locate_views,
}

-- Where an eye is in the space VIEW: looking ahead, 0.0315 m to the left or to the right.
abbrev pub eye_place : FloatOps → ℕ → PoseF
eye_place ops i = record {
  orientation_x = 0;
  orientation_y = 0;
  orientation_z = 0;
  orientation_w = 0x3f800000;
  position_x = elim i [ zero ↦ ops.neg 0x3d010625 | suc _ ↦ 0x3d010625 ];
  position_y = 0;
  position_z = 0;
}

-- Well-formed arguments: the eye's place in the space VIEW, and stereo views in `base`.
abbrev pub eye_space : FloatOps → ℕ → ReferenceSpaceCreateInfo
eye_space ops i = record {
  type = type_reference_space_create_info;
  reference_space_type = reference_space_view;
  pose_in_reference_space = eye_place ops i;
}

abbrev pub stereo_in : Handle → ViewLocateInfo
stereo_in base = record {
  type = type_view_locate_info;
  view_configuration_type = primary_stereo;
  space = base;
}

-- What the views say of eye `i`, as xrLocateSpace says it: the result, the flags and the pose.
with_flags : Option ℕ → Option View → Option (ℕ × PoseF)
with_flags none v = none
with_flags (some flags) none = none
with_flags (some flags) (some v) = some (flags, v.pose)

unfoldable pub eye_located : ℕ → LocatedViews → XrResult × Option (ℕ × PoseF)
unfolding with_flags
eye_located i out = (out.result, with_flags out.flags (get_elem? out.views i))

made :
    (ops : FloatOps) (i : ℕ) (session eye : Handle) (r after : Runtime)
    → create_reference_space session (some (eye_space ops i)) true r ≡ (success, some eye, after)
    → (is_valid_session session ≡ true)
      × (eye ≡ Handle.space_record_handle (length r.spaces))
      × (after.spaces ≡ r.spaces ++ record { kind = view; offset_in_parent = eye_place ops i } ∷ [])
unfolding create_reference_space make_space
made ops i session eye r after e = ground arith

found_made :
    (ops : FloatOps) (i : ℕ) (session eye : Handle) (r after : Runtime)
    → create_reference_space session (some (eye_space ops i)) true r ≡ (success, some eye, after)
    → find_space after eye ≡ some (record { kind = view; offset_in_parent = eye_place ops i })
unfolding find_space
found_made ops i session eye r after e =
    let (valid, same, spaces) = made ops i session eye r after e in
    rw (same, spaces) (get_elem?-append_self r.spaces _ (length r.spaces) refl)

eye_offset_lem : (ops : FloatOps) (i : ℕ) → eye_offset ops i ≡ eye_place ops i
unfolding eye_offset
eye_offset_lem ops zero = refl
eye_offset_lem ops (suc i) = ground arith

eye_is_space :
    (ops : FloatOps) (frame : PoseFrame) (base : SpaceRecord) (i : ℕ)
    → (eye_view ops frame base i).pose
      ≡ relative_pose ops frame (record { kind = view; offset_in_parent = eye_place ops i }) base
unfolding eye_view relative_pose world_pose_for_space
eye_is_space ops frame base i =
    ap (λ p. relative_pose ops frame (record { kind = view; offset_in_parent = p }) base)
      (eye_offset_lem ops i)

module _ (ops : FloatOps) (frame : PoseFrame) (types : ℕ → ℕ)
    (all : (k : ℕ) → types k ≡ type_view) where
  eyes_succeed : (base : SpaceRecord) (n i : ℕ) → (locate_eyes ops frame types base n i).0 ≡ success
  unfolding locate_eyes
  eyes_succeed base zero i = refl
  eyes_succeed base (suc n) i = rw (all i) (eyes_succeed base n (i + 1))

  eyes_given :
      (base : SpaceRecord) (n i j : ℕ)
      → j < n
      → get_elem? (locate_eyes ops frame types base n i).1 j
        ≡ some (eye_view ops frame base (i + j))
  unfolding locate_eyes
  eyes_given base zero i j h = absurd (omega arith)
  eyes_given base (suc n) i zero h =
      rw (all i) (ap (λ k. some (eye_view ops frame base k)) (omega arith))
  eyes_given base (suc n) i (suc j) h =
      let next : i + 1 + j ≡ i + suc j = omega arith in
      rw (all i, sym next) (eyes_given base n (i + 1) j (omega arith))

eye_counted : (i capacity : ℕ) → i < 2 → i < capacity → i < (if ltb capacity 2 then capacity else 2)
eye_counted i capacity low enough = ground arith

-- What xrLocateViews says of the first eye is what xrLocateSpace says of a space VIEW that lies
-- 0.0315 m to the left, and of the second eye one to the right, both looking ahead, in the same base
-- and from the same frame, where the views are well-formed: the result, the flags and the pose; and
-- the same refusal where the base is no space.
pub eye_located-locate_space :
    (ops : FloatOps) (frame : PoseFrame) (types : ℕ → ℕ) (i capacity : ℕ)
    (session base eye : Handle) (r after : Runtime)
    → ((k : ℕ) → types k ≡ type_view)
    → i < 2
    → i < capacity
    → create_reference_space session (some (eye_space ops i)) true r ≡ (success, some eye, after)
    → eye_located i (
        locate_views ops frame session
          (some (stereo_in base))
          (some type_view_state)
          capacity
          true
          (some types)
          after)
      ≡ locate_space ops frame eye base (some type_space_location) after
unfolding eye_located locate_views locate_space
eye_located-locate_space ops frame types i capacity session base eye r after all low enough e =
    let (valid, same, spaces) = made ops i session eye r after e in
    let made_found = found_made ops i session eye r after e in
    elim (Option-cases (find_space after base)) [
      | inl missing ↦ rw (valid, made_found, missing) refl
      | inr (found, is) ↦
          let n = if ltb capacity 2 then capacity else 2 in
          let eye_is =
            eyes_given ops frame types all found n 0 i (eye_counted i capacity low enough) in
          let at_i : 0 + i ≡ i = omega arith in
          rw (valid, made_found, is, eyes_succeed ops frame types all found n 0, eye_is, at_i)
            (ap (λ p. (success, some (all_flags, p))) (eye_is_space ops frame found i))
    ]
