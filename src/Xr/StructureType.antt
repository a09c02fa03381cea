-- ===== src/Xr/StructureType.antt =====
-- `XrStructureType` of android-runtime/openxr_dispatch/openxr_minimal.h: the tags that the runtime
-- tests or writes, with the header's values.
use axrb.Common.{ℕ}

abbrev pub type_extension_properties : ℕ
type_extension_properties = 2

abbrev pub type_instance_create_info : ℕ
type_instance_create_info = 3

abbrev pub type_system_get_info : ℕ
type_system_get_info = 4

abbrev pub type_system_properties : ℕ
type_system_properties = 5

abbrev pub type_instance_properties : ℕ
type_instance_properties = 32

abbrev pub type_view_locate_info : ℕ
type_view_locate_info = 6

abbrev pub type_view : ℕ
type_view = 7

abbrev pub type_session_create_info : ℕ
type_session_create_info = 8

abbrev pub type_swapchain_create_info : ℕ
type_swapchain_create_info = 9

abbrev pub type_session_begin_info : ℕ
type_session_begin_info = 10

abbrev pub type_view_state : ℕ
type_view_state = 11

abbrev pub type_frame_end_info : ℕ
type_frame_end_info = 12

abbrev pub type_event_data_buffer : ℕ
type_event_data_buffer = 16

abbrev pub type_event_data_session_state_changed : ℕ
type_event_data_session_state_changed = 18

abbrev pub type_action_state_boolean : ℕ
type_action_state_boolean = 23

abbrev pub type_action_state_float : ℕ
type_action_state_float = 24

abbrev pub type_action_state_vector2f : ℕ
type_action_state_vector2f = 25

abbrev pub type_action_state_pose : ℕ
type_action_state_pose = 27

abbrev pub type_action_set_create_info : ℕ
type_action_set_create_info = 28

abbrev pub type_action_create_info : ℕ
type_action_create_info = 29

abbrev pub type_frame_wait_info : ℕ
type_frame_wait_info = 33

abbrev pub type_actions_sync_info : ℕ
type_actions_sync_info = 61

abbrev pub type_reference_space_create_info : ℕ
type_reference_space_create_info = 37

abbrev pub type_action_space_create_info : ℕ
type_action_space_create_info = 38

abbrev pub type_view_configuration_view : ℕ
type_view_configuration_view = 41

abbrev pub type_space_location : ℕ
type_space_location = 42

abbrev pub type_frame_state : ℕ
type_frame_state = 44

abbrev pub type_view_configuration_properties : ℕ
type_view_configuration_properties = 45

abbrev pub type_frame_begin_info : ℕ
type_frame_begin_info = 46

abbrev pub type_interaction_profile_suggested_binding : ℕ
type_interaction_profile_suggested_binding = 51

abbrev pub type_interaction_profile_state : ℕ
type_interaction_profile_state = 53

abbrev pub type_swapchain_image_acquire_info : ℕ
type_swapchain_image_acquire_info = 55

abbrev pub type_swapchain_image_wait_info : ℕ
type_swapchain_image_wait_info = 56

abbrev pub type_swapchain_image_release_info : ℕ
type_swapchain_image_release_info = 57

abbrev pub type_action_state_get_info : ℕ
type_action_state_get_info = 58

abbrev pub type_haptic_action_info : ℕ
type_haptic_action_info = 59

abbrev pub type_session_action_sets_attach_info : ℕ
type_session_action_sets_attach_info = 60

abbrev pub type_bound_sources_for_action_enumerate_info : ℕ
type_bound_sources_for_action_enumerate_info = 62

abbrev pub type_input_source_localized_name_get_info : ℕ
type_input_source_localized_name_get_info = 63

abbrev pub type_swapchain_image_opengl_es_khr : ℕ
type_swapchain_image_opengl_es_khr = 1000024002

abbrev pub type_graphics_requirements_opengl_es_khr : ℕ
type_graphics_requirements_opengl_es_khr = 1000024003

abbrev pub type_swapchain_image_vulkan_khr : ℕ
type_swapchain_image_vulkan_khr = 1000025001

abbrev pub type_graphics_requirements_vulkan_khr : ℕ
type_graphics_requirements_vulkan_khr = 1000025002
