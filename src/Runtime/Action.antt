-- ===== src/Runtime/Action.antt =====
-- android-runtime/session.cpp: creating and destroying action sets and actions.
use axrb.Common.{◌+◌, Bool, ◌||◌, not, some, leb, if◌then◌else◌}
use axrb.Xr.{
  XrResult, Handle, Typed, has_type, success, handle_invalid, validation_failure, out_of_memory,
}
use axrb.Xr.StructureType.{type_action_set_create_info, type_action_create_info}
use axrb.Runtime.{
  Runtime, Reply, max_actions, fail, is_valid_instance, is_valid_action_set, is_valid_action,
}

unfoldable pub create_action_set : Handle → Typed → Bool → Runtime → Reply Handle
unfolding is_valid_instance
create_action_set instance create_info action_set_out r =
    if not (is_valid_instance instance)
    then fail handle_invalid r
    else if not (has_type create_info type_action_set_create_info) || not action_set_out
    then fail validation_failure r
    else (success, some Handle.action_set_handle, r)

unfoldable pub destroy_action_set : Handle → XrResult
unfolding is_valid_action_set
destroy_action_set action_set = if is_valid_action_set action_set then success else handle_invalid

unfoldable pub create_action : Handle → Typed → Bool → Runtime → Reply Handle
unfolding is_valid_action_set
create_action action_set create_info action_out r =
    if not (is_valid_action_set action_set)
    then fail handle_invalid r
    else if not (has_type create_info type_action_create_info) || not action_out
    then fail validation_failure r
    else if leb max_actions r.action_count
    then fail out_of_memory r
    else (
      success,
      some (Handle.action_handle r.action_count),
      record r { action_count = r.action_count + 1 },
    )

-- An action is never given back.
unfoldable pub destroy_action : Handle → Runtime → XrResult
unfolding is_valid_action
destroy_action action r = if is_valid_action r action then success else handle_invalid
