-- ===== src/Xr.antt =====
-- android-runtime/openxr_dispatch/openxr_minimal.h: result codes, structure types, session states
-- and the other enumerations that the runtime tests. Each constant has the header's value.
pub mod StructureType
use axrb.Common.{ℕ, ◌+◌, ◌*◌, ◌^◌, Bool, false, Option, none, some, ◌==◌}

pub data XrResult : Type 0 where
  success timeout_expired session_loss_pending event_unavailable : XrResult
  space_bounds_unavailable session_not_focused frame_discarded : XrResult
  validation_failure runtime_failure out_of_memory api_version_unsupported : XrResult
  initialization_failed function_unsupported feature_unsupported : XrResult
  extension_not_present handle_invalid instance_lost session_running : XrResult
  session_not_running system_invalid path_invalid path_count_exceeded : XrResult
  path_format_invalid path_unsupported layer_invalid layer_limit_exceeded : XrResult
  swapchain_rect_invalid swapchain_format_unsupported action_type_mismatch : XrResult
  session_not_ready session_not_stopping time_invalid reference_space_unsupported : XrResult
  file_access_error file_contents_invalid form_factor_unsupported : XrResult
  form_factor_unavailable api_layer_not_present call_order_invalid : XrResult
  graphics_device_invalid pose_invalid index_out_of_range : XrResult
  view_configuration_type_unsupported environment_blend_mode_unsupported : XrResult
  name_duplicated name_invalid actionset_not_attached actionsets_already_attached : XrResult
  localized_name_duplicated localized_name_invalid : XrResult
  graphics_requirements_call_missing runtime_unavailable : XrResult

pub data SessionState : Type 0 where
  unknown idle ready synchronized visible focused stopping loss_pending exiting : SessionState

-- The enumeration's values.
abbrev pub code : SessionState → ℕ
code unknown = 0
code idle = 1
code ready = 2
code synchronized = 3
code visible = 4
code focused = 5
code stopping = 6
code loss_pending = 7
code exiting = 8

abbrev pub same_state : SessionState → SessionState → Bool
same_state a b = code a == code b

-- A pointer to a structure of which only `type` is read: `none` is the null pointer.
abbrev pub Typed : Type 0
Typed = Option ℕ

abbrev pub has_type : Typed → ℕ → Bool
has_type none t = false
has_type (some t') t = t' == t

-- `XR_MAKE_VERSION`: 16 bits of major, 16 of minor and 32 of patch.
abbrev pub make_version : ℕ → ℕ → ℕ → ℕ
make_version major minor patch = major * 2 ^ 48 + minor * 2 ^ 32 + patch

-- Pointers that a client may pass as a handle: null, the runtime's own globals, and any other. The
-- globals are distinct objects, so distinct constructors are distinct pointers.
pub data Handle : Type 0 where
  null_handle : Handle
  instance_handle session_handle space_handle swapchain_handle action_set_handle : Handle
  action_handle : ℕ → Handle  -- `&g_actionHandles[i]`
  space_record_handle : ℕ → Handle  -- `&g_spaces[i].handle`
  foreign_handle : ℕ → Handle

-- Other constants of the header and of session.cpp.
abbrev pub head_mounted_display : ℕ
head_mounted_display = 1

abbrev pub primary_stereo : ℕ
primary_stereo = 2

abbrev pub environment_blend_mode_opaque : ℕ
environment_blend_mode_opaque = 1

abbrev pub reference_space_view : ℕ
reference_space_view = 1

abbrev pub reference_space_local : ℕ
reference_space_local = 2

abbrev pub reference_space_stage : ℕ
reference_space_stage = 3

-- `XR_NULL_PATH`
abbrev pub null_path : ℕ
null_path = 0

abbrev pub k_system_id : ℕ
k_system_id = 1
