-- ===== src/Runtime/Input.antt =====
-- android-runtime/session.cpp: the input entry points, which report actions at rest. What an entry
-- point writes is `some …`.
use axrb.Common.{
  ℕ, Bool, false, ◌||◌, not, Option, none, some, List, [], ◌∷◌, ◌++◌, ltb, ◌==◌, if◌then◌else◌,
}
use axrb.Xr.{
  XrResult, Handle, Typed, has_type, null_path, success, handle_invalid, validation_failure,
}
use axrb.Xr.StructureType.{
  type_interaction_profile_suggested_binding, type_session_action_sets_attach_info,
  type_actions_sync_info, type_action_state_get_info, type_action_state_boolean,
  type_action_state_float, type_action_state_vector2f, type_action_state_pose,
  type_interaction_profile_state, type_bound_sources_for_action_enumerate_info,
  type_input_source_localized_name_get_info, type_haptic_action_info,
}
use axrb.Runtime.{Runtime, Float32, is_valid_instance, is_valid_session, is_valid_action}
use axrb.Runtime.Path.{codes}

unfoldable pub suggest_interaction_profile_bindings : Handle → Typed → XrResult
unfolding is_valid_instance
suggest_interaction_profile_bindings instance bindings =
    if not (is_valid_instance instance)
    then handle_invalid
    else if not (has_type bindings type_interaction_profile_suggested_binding)
    then validation_failure
    else success

unfoldable pub attach_session_action_sets : Handle → Typed → XrResult
unfolding is_valid_session
attach_session_action_sets session attach_info =
    if not (is_valid_session session)
    then handle_invalid
    else if not (has_type attach_info type_session_action_sets_attach_info)
    then validation_failure
    else success

unfoldable pub sync_actions : Handle → Typed → XrResult
unfolding is_valid_session
sync_actions session sync_info =
    if not (is_valid_session session)
    then handle_invalid
    else if not (has_type sync_info type_actions_sync_info)
    then validation_failure
    else success

-- XrActionStateGetInfo, XrBoundSourcesForActionEnumerateInfo
pub record ActionInfo : Type 0 where
  pub type : ℕ
  pub action : Handle

-- The fields of the four XrActionState structures; the pose has `is_active` only.
pub record ActionState (A : Type 0) : Type 0 where
  pub current_state : A
  pub changed_since_last_sync : ℕ
  pub last_change_time : ℕ
  pub is_active : ℕ

abbrev names_action : Option ActionInfo → ℕ → Runtime → Bool
names_action none type r = false
names_action (some info) type r = if info.type == type then is_valid_action r info.action else false

action_state :
    {A : Type 0}
    → ℕ
    → A
    → Handle
    → Option ActionInfo
    → Typed
    → ℕ
    → Runtime
    → XrResult × Option (ActionState A)
unfolding is_valid_session
action_state type rest session get_info state now r =
    if not (is_valid_session session)
    then (handle_invalid, none)
    else if not (names_action get_info type_action_state_get_info r) || not (has_type state type)
    then (validation_failure, none)
    else (
      success,
      some (record {
        current_state = rest;
        changed_since_last_sync = 0;
        last_change_time = now;
        is_active = 1;
      }),
    )

-- `now` is what the steady clock shows.
unfoldable pub get_action_state_boolean :
    Handle → Option ActionInfo → Typed → ℕ → Runtime → XrResult × Option (ActionState ℕ)
unfolding action_state
get_action_state_boolean session get_info state now r =
    action_state type_action_state_boolean 0 session get_info state now r

unfoldable pub get_action_state_float :
    Handle → Option ActionInfo → Typed → ℕ → Runtime → XrResult × Option (ActionState Float32)
unfolding action_state
get_action_state_float session get_info state now r =
    action_state type_action_state_float 0 session get_info state now r

unfoldable pub get_action_state_vector2f :
    Handle
    → Option ActionInfo
    → Typed
    → ℕ
    → Runtime
    → XrResult × Option (ActionState (Float32 × Float32))
unfolding action_state
get_action_state_vector2f session get_info state now r =
    action_state type_action_state_vector2f (0, 0) session get_info state now r

-- What is written is `isActive`.
unfoldable pub get_action_state_pose :
    Handle → Option ActionInfo → Typed → Runtime → XrResult × Option ℕ
unfolding is_valid_session
get_action_state_pose session get_info state r =
    if not (is_valid_session session)
    then (handle_invalid, none)
    else if not (names_action get_info type_action_state_get_info r)
        || not (has_type state type_action_state_pose)
    then (validation_failure, none)
    else (success, some 1)

unfoldable pub get_current_interaction_profile : Handle → ℕ → Typed → XrResult × Option ℕ
unfolding is_valid_session
get_current_interaction_profile session top_level_user_path profile =
    if not (is_valid_session session)
    then (handle_invalid, none)
    else if top_level_user_path == null_path
        || not (has_type profile type_interaction_profile_state)
    then (validation_failure, none)
    else (success, some null_path)

unfoldable pub enumerate_bound_sources_for_action :
    Handle → Option ActionInfo → Bool → Runtime → XrResult × Option ℕ
unfolding is_valid_session
enumerate_bound_sources_for_action session info count_out r =
    if not (is_valid_session session)
    then (handle_invalid, none)
    else if not count_out || not (names_action info type_bound_sources_for_action_enumerate_info r)
    then (validation_failure, none)
    else (success, some 0)

abbrev pub k_name : List ℕ
k_name = codes "AXRB Input" ++ 0 ∷ []

-- With the terminator.
abbrev pub k_name_size : ℕ
k_name_size = 11

unfoldable pub get_input_source_localized_name :
    Handle → Typed → ℕ → Bool → Bool → XrResult × Option ℕ × Option (List ℕ)
unfolding is_valid_session
get_input_source_localized_name session get_info buffer_capacity_input count_out buffer_out =
    if not (is_valid_session session)
    then (handle_invalid, none, none)
    else if not (has_type get_info type_input_source_localized_name_get_info) || not count_out
    then (validation_failure, none, none)
    else if not buffer_out
    then (success, some k_name_size, none)
    else if ltb buffer_capacity_input k_name_size
    then (validation_failure, some k_name_size, none)
    else (success, some k_name_size, some k_name)

unfoldable pub apply_haptic_feedback : Handle → Typed → Bool → XrResult
unfolding is_valid_session
apply_haptic_feedback session info feedback =
    if not (is_valid_session session)
    then handle_invalid
    else if not (has_type info type_haptic_action_info) || not feedback
    then validation_failure
    else success

unfoldable pub stop_haptic_feedback : Handle → Typed → XrResult
unfolding is_valid_session
stop_haptic_feedback session info =
    if not (is_valid_session session)
    then handle_invalid
    else if not (has_type info type_haptic_action_info)
    then validation_failure
    else success
