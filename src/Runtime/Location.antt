-- ===== src/Runtime/Location.antt =====
-- android-runtime/session.cpp: xrLocateSpace and xrLocateViews. `frame` is what the pose client gives.
use axrb.Common.{
  ℕ, zero, suc, ◌+◌, Bool, ◌||◌, not, Option, none, some, List, [], ◌∷◌, ltb, ◌==◌, if◌then◌else◌,
}
use axrb.Xr.{
  XrResult, Handle, Typed, has_type, success, handle_invalid, validation_failure,
  view_configuration_type_unsupported, primary_stereo,
}
use axrb.Xr.StructureType.{type_space_location, type_view_locate_info, type_view_state, type_view}
use axrb.Pose.Frame.{PoseFrame}
use axrb.Runtime.{Runtime, Float32, PoseF, SpaceRecord, is_valid_session}
use axrb.Runtime.Space.{identity_pose, find_space}
use axrb.Runtime.Float.{
  FloatOps, protocol_pose_to_xr, multiply_pose, inverse_pose, world_pose_for_space,
}

-- kEyeHalfIpdMeters and kProjectionHalfFovRadians: 0.0315f and 0.95f.
abbrev pub k_eye_half_ipd_meters : Float32
k_eye_half_ipd_meters = 0x3d010625

abbrev pub k_projection_half_fov_radians : Float32
k_projection_half_fov_radians = 0x3f733333

-- The four flags of a location, and of the state of the views: valid and tracked.
abbrev pub all_flags : ℕ
all_flags = 1 + 2 + 4 + 8

pub record View : Type 0 where
  pub pose : PoseF
  pub angle_left : Float32
  pub angle_right : Float32
  pub angle_up : Float32
  pub angle_down : Float32

-- The fields of XrViewLocateInfo that are read.
pub record ViewLocateInfo : Type 0 where
  pub type : ℕ
  pub view_configuration_type : ℕ
  pub space : Handle

-- What was written: the number of views, the flags, and the views from the first on.
pub record LocatedViews : Type 0 where
  pub result : XrResult
  pub view_count : Option ℕ
  pub flags : Option ℕ
  pub views : List View

abbrev nothing_written : XrResult → LocatedViews
nothing_written result = record { result = result; view_count = none; flags = none; views = [] }

unfoldable pub eye_offset : FloatOps → ℕ → PoseF
eye_offset ops i = record identity_pose {
  position_x = if i == 0 then ops.neg k_eye_half_ipd_meters else k_eye_half_ipd_meters;
}

module _ (ops : FloatOps) (frame : PoseFrame) where
  unfoldable pub relative_pose : SpaceRecord → SpaceRecord → PoseF
  relative_pose space base =
      multiply_pose ops (inverse_pose ops (world_pose_for_space ops base frame))
        (world_pose_for_space ops space frame)

  located : Option SpaceRecord → Option SpaceRecord → Typed → XrResult × Option (ℕ × PoseF)
  unfolding relative_pose
  located none base location = (handle_invalid, none)
  located (some space) none location = (handle_invalid, none)
  located (some space) (some base) location =
      if not (has_type location type_space_location)
      then (validation_failure, none)
      else (success, some (all_flags, relative_pose space base))

  -- The flags and the pose that are written.
  unfoldable pub locate_space : Handle → Handle → Typed → Runtime → XrResult × Option (ℕ × PoseF)
  unfolding find_space located
  locate_space space base location r = located (find_space r space) (find_space r base) location

  unfoldable pub eye_view : SpaceRecord → ℕ → View
  unfolding eye_offset
  eye_view base i = record {
    pose =
        multiply_pose ops (inverse_pose ops (world_pose_for_space ops base frame))
          (multiply_pose ops (protocol_pose_to_xr frame.hmd) (eye_offset ops i));
    angle_left = ops.neg k_projection_half_fov_radians;
    angle_right = k_projection_half_fov_radians;
    angle_up = k_projection_half_fov_radians;
    angle_down = ops.neg k_projection_half_fov_radians;
  }

  -- The loop over the views: how many are left, and the next. `types` are those of the elements.
  unfoldable pub locate_eyes : (ℕ → ℕ) → SpaceRecord → ℕ → ℕ → XrResult × List View
  unfolding eye_view
  locate_eyes types base zero i = (success, [])
  locate_eyes types base (suc left) i =
      let (result, views) = locate_eyes types base left (i + 1) in
      if not (types i == type_view)
      then (validation_failure, [])
      else (result, eye_view base i ∷ views)

  -- The part behind the checks.
  views_located : ℕ → Option (ℕ → ℕ) → SpaceRecord → LocatedViews
  unfolding locate_eyes
  views_located capacity none base = record {
    result = success;
    view_count = some 2;
    flags = some all_flags;
    views = [];
  }
  views_located capacity (some types) base =
      let (result, views) = locate_eyes types base (if ltb capacity 2 then capacity else 2) 0 in
      record { result = result; view_count = some 2; flags = some all_flags; views = views }

  with_base : ℕ → Option (ℕ → ℕ) → Option SpaceRecord → LocatedViews
  unfolding views_located
  with_base capacity views none = nothing_written handle_invalid
  with_base capacity views (some base) = views_located capacity views base

  -- `count_out`: the pointer to the number is not null. `views`: the array, if it is not null.
  unfoldable pub locate_views :
      Handle → Option ViewLocateInfo → Typed → ℕ → Bool → Option (ℕ → ℕ) → Runtime → LocatedViews
  unfolding is_valid_session find_space with_base
  locate_views session none view_state capacity count_out views r =
      if not (is_valid_session session)
      then nothing_written handle_invalid
      else nothing_written validation_failure
  locate_views session (some info) view_state capacity count_out views r =
      if not (is_valid_session session)
      then nothing_written handle_invalid
      else if not count_out
          || (not (info.type == type_view_locate_info) || not (has_type view_state type_view_state))
      then nothing_written validation_failure
      else if not (info.view_configuration_type == primary_stereo)
      then nothing_written view_configuration_type_unsupported
      else with_base capacity views (find_space r info.space)
