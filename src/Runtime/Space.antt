-- ===== src/Runtime/Space.antt =====
-- android-runtime/session.cpp: the table of spaces and its entry points.
use axrb.Common.{
  ℕ, Bool, ◌&&◌, ◌||◌, not, Option, none, some, List, [], ◌∷◌, ◌++◌, length, get_elem?, leb, ◌==◌,
  if◌then◌else◌,
}
use axrb.Xr.{
  XrResult, Handle, success, handle_invalid, validation_failure, out_of_memory,
  reference_space_unsupported, reference_space_view, reference_space_local, reference_space_stage,
}
use axrb.Xr.StructureType.{type_reference_space_create_info, type_action_space_create_info}
use axrb.Runtime.{
  Runtime, Reply, PoseF, SpaceKind, SpaceRecord, PathRecord, reference, view, left_hand, right_hand,
  max_spaces, fail, is_valid_session, is_valid_action,
}
use axrb.Runtime.Path.{codes, same_text, path_text}

-- `pose.orientation.w = 1.0f`
abbrev pub identity_pose : PoseF
identity_pose = record {
  orientation_x = 0;
  orientation_y = 0;
  orientation_z = 0;
  orientation_w = 0x3f800000;
  position_x = 0;
  position_y = 0;
  position_z = 0;
}

-- The null handle where the table is full.
unfoldable pub make_space : SpaceKind → PoseF → Runtime → Handle × Runtime
make_space kind offset_in_parent r =
    if leb max_spaces (length r.spaces) then (Handle.null_handle, r) else (
      Handle.space_record_handle (length r.spaces),
      record r {
        spaces = r.spaces ++ record { kind = kind; offset_in_parent = offset_in_parent } ∷ [];
      },
    )

unfoldable pub find_space : Runtime → Handle → Option SpaceRecord
find_space r (Handle.space_record_handle i) = get_elem? r.spaces i
find_space r Handle.space_handle =
    some (record { kind = reference; offset_in_parent = identity_pose })
find_space r _ = none

unfoldable pub action_space_kind : List PathRecord → ℕ → SpaceKind
unfolding same_text path_text
action_space_kind paths subaction_path =
    let text = path_text paths subaction_path in
    if same_text text (codes "/user/hand/left")
    then left_hand
    else if same_text text (codes "/user/hand/right")
    then right_hand
    else reference

pub record ReferenceSpaceCreateInfo : Type 0 where
  pub type : ℕ
  pub reference_space_type : ℕ
  pub pose_in_reference_space : PoseF

pub record ActionSpaceCreateInfo : Type 0 where
  pub type : ℕ
  pub action : Handle
  pub subaction_path : ℕ
  pub pose_in_action_space : PoseF

-- `*space = make_space(…)`, then the test of `*space`: a null handle is written too.
space_reply : Handle × Runtime → Reply Handle
space_reply (Handle.null_handle, r) = (out_of_memory, some Handle.null_handle, r)
space_reply (space, r) = (success, some space, r)

unfoldable pub create_reference_space :
    Handle → Option ReferenceSpaceCreateInfo → Bool → Runtime → Reply Handle
unfolding is_valid_session make_space space_reply
create_reference_space session none space_out r =
    if not (is_valid_session session) then fail handle_invalid r else fail validation_failure r
create_reference_space session (some info) space_out r =
    if not (is_valid_session session)
    then fail handle_invalid r
    else if not space_out || not (info.type == type_reference_space_create_info)
    then fail validation_failure r
    else if not (info.reference_space_type == reference_space_view)
        && (not (info.reference_space_type == reference_space_local)
            && not (info.reference_space_type == reference_space_stage))
    then fail reference_space_unsupported r
    else space_reply (
        make_space (if info.reference_space_type == reference_space_view then view else reference)
          info.pose_in_reference_space r)

unfoldable pub create_action_space :
    Handle → Option ActionSpaceCreateInfo → Bool → Runtime → Reply Handle
unfolding is_valid_session is_valid_action make_space space_reply action_space_kind
create_action_space session none space_out r =
    if not (is_valid_session session) then fail handle_invalid r else fail validation_failure r
create_action_space session (some info) space_out r =
    if not (is_valid_session session)
    then fail handle_invalid r
    else if not (info.type == type_action_space_create_info)
        || (not space_out || not (is_valid_action r info.action))
    then fail validation_failure r
    else space_reply
        (make_space (action_space_kind r.paths info.subaction_path) info.pose_in_action_space r)

is_found : Option SpaceRecord → XrResult
is_found none = handle_invalid
is_found (some _) = success

-- A space is never given back.
unfoldable pub destroy_space : Handle → Runtime → XrResult
unfolding find_space is_found
destroy_space space r = is_found (find_space r space)
