-- ===== src/Runtime/Session.antt =====
-- android-runtime/session.cpp: xrCreateInstance, xrDestroyInstance and the session entry points.
-- An argument `…_out` says whether the output pointer is not null.
use axrb.Common.{
  ℕ, Bool, false, ◌&&◌, ◌||◌, not, Option, none, some, List, [], ◌∷◌, ltb, ◌==◌, if◌then◌else◌,
}
use axrb.Xr.{
  XrResult, Handle, SessionState, Typed, unknown, idle, ready, synchronized, visible, focused,
  stopping, same_state, has_type, make_version, k_system_id, primary_stereo, success,
  validation_failure, api_version_unsupported, handle_invalid, system_invalid,
  view_configuration_type_unsupported, session_not_ready, session_not_running, event_unavailable,
}
use axrb.Xr.StructureType.{
  type_instance_create_info, type_session_create_info, type_session_begin_info,
  type_event_data_buffer, type_event_data_session_state_changed,
}
use axrb.Runtime.{
  Runtime, Reply, fail, is_valid_instance, is_valid_session, queue_session_state,
  destroy_swapchain_images,
}

-- The fields that the entry points read.
pub record InstanceCreateInfo : Type 0 where
  pub type : ℕ
  pub api_version : ℕ

pub record SessionCreateInfo : Type 0 where
  pub type : ℕ
  pub system_id : ℕ

pub record SessionBeginInfo : Type 0 where
  pub type : ℕ
  pub primary_view_configuration_type : ℕ

-- XrEventDataSessionStateChanged; `next` is always null.
pub record SessionStateChanged : Type 0 where
  pub type : ℕ
  pub session : Handle
  pub state : SessionState
  pub time : ℕ

-- The action count, the swapchain's size, and the current and last released image are not reset.
reset_instance : Runtime → Runtime
unfolding destroy_swapchain_images
reset_instance r =
    let r' = record r {
      session_state = unknown;
      pending_session_events = [];
      spaces = [];
      paths = [];
      next_path = 1;
      swapchain_created = false;
      swapchain_image_acquired = false;
      swapchain_image_waited = false;
    } in
    record (destroy_swapchain_images r') { next_swapchain_image = 0; image_frame_sequence = 0 }

unfoldable pub create_instance : Option InstanceCreateInfo → Bool → Runtime → Reply Handle
unfolding reset_instance
create_instance none instance_out r = fail validation_failure r
create_instance (some info) instance_out r =
    if not instance_out
    then fail validation_failure r
    else if not (info.type == type_instance_create_info)
    then fail validation_failure r
    else if ltb (make_version 1 1 0) info.api_version
    then fail api_version_unsupported r
    else (success, some Handle.instance_handle, reset_instance r)

unfoldable pub destroy_instance : Handle → XrResult
unfolding is_valid_instance
destroy_instance instance = if is_valid_instance instance then success else handle_invalid

unfoldable pub create_session : Handle → Option SessionCreateInfo → Bool → Runtime → Reply Handle
unfolding is_valid_instance queue_session_state
create_session instance none session_out r =
    if not (is_valid_instance instance) then fail handle_invalid r else fail validation_failure r
create_session instance (some info) session_out r =
    if not (is_valid_instance instance)
    then fail handle_invalid r
    else if not session_out || not (info.type == type_session_create_info)
    then fail validation_failure r
    else if not (info.system_id == k_system_id)
    then fail system_invalid r
    else (
      success,
      some Handle.session_handle,
      queue_session_state ready
          (queue_session_state idle (record r { pending_session_events = [] })),
    )

unfoldable pub destroy_session : Handle → Runtime → XrResult × Runtime
unfolding is_valid_session destroy_swapchain_images
destroy_session session r = if not (is_valid_session session) then (handle_invalid, r) else (
  success,
  destroy_swapchain_images (record r {
    session_state = unknown;
    pending_session_events = [];
    swapchain_created = false;
    swapchain_image_acquired = false;
    swapchain_image_waited = false;
  }),
)

unfoldable pub begin_session : Handle → Option SessionBeginInfo → Runtime → XrResult × Runtime
unfolding is_valid_session queue_session_state
begin_session session none r =
    if not (is_valid_session session) then (handle_invalid, r) else (validation_failure, r)
begin_session session (some info) r =
    if not (is_valid_session session)
    then (handle_invalid, r)
    else if not (info.type == type_session_begin_info)
    then (validation_failure, r)
    else if not (info.primary_view_configuration_type == primary_stereo)
    then (view_configuration_type_unsupported, r)
    else if not (same_state r.session_state ready)
    then (session_not_ready, r)
    else (
      success,
      queue_session_state focused
          (queue_session_state visible (queue_session_state synchronized r)),
    )

unfoldable pub end_session : Handle → Runtime → XrResult × Runtime
unfolding is_valid_session queue_session_state
end_session session r =
    if not (is_valid_session session)
    then (handle_invalid, r)
    else if not (same_state r.session_state focused)
        && not (same_state r.session_state visible)
        && not (same_state r.session_state synchronized)
    then (session_not_running, r)
    else (
      success,
      queue_session_state ready (queue_session_state idle (queue_session_state stopping r)),
    )

-- `now` is what the steady clock shows.
unfoldable pub pop_event : List SessionState → ℕ → Runtime → Reply SessionStateChanged
pop_event [] now r = fail event_unavailable r
pop_event (state ∷ rest) now r = (
  success,
  some (record {
    type = type_event_data_session_state_changed;
    session = Handle.session_handle;
    state = state;
    time = now;
  }),
  record r { pending_session_events = rest },
)

unfoldable pub poll_event : Handle → Typed → ℕ → Runtime → Reply SessionStateChanged
unfolding is_valid_instance pop_event
poll_event instance event_data now r =
    if not (is_valid_instance instance)
    then fail handle_invalid r
    else if not (has_type event_data type_event_data_buffer)
    then fail validation_failure r
    else pop_event r.pending_session_events now r
