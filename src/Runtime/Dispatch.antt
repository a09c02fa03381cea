-- ===== src/Runtime/Dispatch.antt =====
-- android-runtime/session.cpp: xrGetInstanceProcAddr, the table from names to entry points.
use axrb.Common.{ℕ, Bool, not, Option, none, some, List, [], ◌∷◌, if◌then◌else◌}
use axrb.Xr.{XrResult, Handle, success, handle_invalid, validation_failure, function_unsupported}
use axrb.Runtime.{is_valid_instance}
use axrb.Runtime.Path.{codes, same_text}

-- The functions whose addresses are given, named after the entry points.
pub data EntryPoint : Type 0 where
  get_instance_proc_addr_fn create_instance_fn initialize_loader_khr_fn : EntryPoint
  enumerate_instance_extension_properties_fn poll_event_fn destroy_instance_fn : EntryPoint
  get_instance_properties_fn get_system_fn get_system_properties_fn : EntryPoint
  get_opengl_es_graphics_requirements_khr_fn get_vulkan_graphics_requirements_khr_fn : EntryPoint
  create_session_fn begin_session_fn end_session_fn destroy_session_fn : EntryPoint
  enumerate_view_configurations_fn enumerate_environment_blend_modes_fn : EntryPoint
  get_view_configuration_properties_fn enumerate_view_configuration_views_fn : EntryPoint
  enumerate_swapchain_formats_fn create_swapchain_fn destroy_swapchain_fn : EntryPoint
  enumerate_swapchain_images_fn acquire_swapchain_image_fn wait_swapchain_image_fn : EntryPoint
  release_swapchain_image_fn enumerate_reference_spaces_fn create_reference_space_fn : EntryPoint
  create_action_set_fn destroy_action_set_fn create_action_fn destroy_action_fn : EntryPoint
  string_to_path_fn path_to_string_fn suggest_interaction_profile_bindings_fn : EntryPoint
  create_action_space_fn locate_space_fn attach_session_action_sets_fn sync_actions_fn : EntryPoint
  get_action_state_boolean_fn get_action_state_float_fn get_action_state_vector2f_fn : EntryPoint
  get_action_state_pose_fn get_current_interaction_profile_fn : EntryPoint
  enumerate_bound_sources_for_action_fn get_input_source_localized_name_fn : EntryPoint
  apply_haptic_feedback_fn stop_haptic_feedback_fn locate_views_fn destroy_space_fn : EntryPoint
  wait_frame_fn begin_frame_fn end_frame_fn : EntryPoint

-- The comparisons that come before the check of the instance, in the order of the code.
abbrev pub global_functions : List (List ℕ × EntryPoint)
global_functions =
    (codes "xrGetInstanceProcAddr", get_instance_proc_addr_fn)
    ∷ (codes "xrCreateInstance", create_instance_fn)
    ∷ (codes "xrInitializeLoaderKHR", initialize_loader_khr_fn)
    ∷ (codes "xrEnumerateInstanceExtensionProperties", enumerate_instance_extension_properties_fn)
    ∷ (codes "xrPollEvent", poll_event_fn)
    ∷ []

-- Those that come after it.
abbrev pub instance_functions : List (List ℕ × EntryPoint)
instance_functions =
    (codes "xrDestroyInstance", destroy_instance_fn)
    ∷ (codes "xrGetInstanceProperties", get_instance_properties_fn)
    ∷ (codes "xrGetSystem", get_system_fn)
    ∷ (codes "xrGetSystemProperties", get_system_properties_fn)
    ∷ (codes "xrGetOpenGLESGraphicsRequirementsKHR", get_opengl_es_graphics_requirements_khr_fn)
    ∷ (codes "xrGetVulkanGraphicsRequirementsKHR", get_vulkan_graphics_requirements_khr_fn)
    ∷ (codes "xrCreateSession", create_session_fn)
    ∷ (codes "xrBeginSession", begin_session_fn)
    ∷ (codes "xrEndSession", end_session_fn)
    ∷ (codes "xrDestroySession", destroy_session_fn)
    ∷ (codes "xrEnumerateViewConfigurations", enumerate_view_configurations_fn)
    ∷ (codes "xrEnumerateEnvironmentBlendModes", enumerate_environment_blend_modes_fn)
    ∷ (codes "xrGetViewConfigurationProperties", get_view_configuration_properties_fn)
    ∷ (codes "xrEnumerateViewConfigurationViews", enumerate_view_configuration_views_fn)
    ∷ (codes "xrEnumerateSwapchainFormats", enumerate_swapchain_formats_fn)
    ∷ (codes "xrCreateSwapchain", create_swapchain_fn)
    ∷ (codes "xrDestroySwapchain", destroy_swapchain_fn)
    ∷ (codes "xrEnumerateSwapchainImages", enumerate_swapchain_images_fn)
    ∷ (codes "xrAcquireSwapchainImage", acquire_swapchain_image_fn)
    ∷ (codes "xrWaitSwapchainImage", wait_swapchain_image_fn)
    ∷ (codes "xrReleaseSwapchainImage", release_swapchain_image_fn)
    ∷ (codes "xrEnumerateReferenceSpaces", enumerate_reference_spaces_fn)
    ∷ (codes "xrCreateReferenceSpace", create_reference_space_fn)
    ∷ (codes "xrCreateActionSet", create_action_set_fn)
    ∷ (codes "xrDestroyActionSet", destroy_action_set_fn)
    ∷ (codes "xrCreateAction", create_action_fn)
    ∷ (codes "xrDestroyAction", destroy_action_fn)
    ∷ (codes "xrStringToPath", string_to_path_fn)
    ∷ (codes "xrPathToString", path_to_string_fn)
    ∷ (codes "xrSuggestInteractionProfileBindings", suggest_interaction_profile_bindings_fn)
    ∷ (codes "xrCreateActionSpace", create_action_space_fn)
    ∷ (codes "xrLocateSpace", locate_space_fn)
    ∷ (codes "xrAttachSessionActionSets", attach_session_action_sets_fn)
    ∷ (codes "xrSyncActions", sync_actions_fn)
    ∷ (codes "xrGetActionStateBoolean", get_action_state_boolean_fn)
    ∷ (codes "xrGetActionStateFloat", get_action_state_float_fn)
    ∷ (codes "xrGetActionStateVector2f", get_action_state_vector2f_fn)
    ∷ (codes "xrGetActionStatePose", get_action_state_pose_fn)
    ∷ (codes "xrGetCurrentInteractionProfile", get_current_interaction_profile_fn)
    ∷ (codes "xrEnumerateBoundSourcesForAction", enumerate_bound_sources_for_action_fn)
    ∷ (codes "xrGetInputSourceLocalizedName", get_input_source_localized_name_fn)
    ∷ (codes "xrApplyHapticFeedback", apply_haptic_feedback_fn)
    ∷ (codes "xrStopHapticFeedback", stop_haptic_feedback_fn)
    ∷ (codes "xrLocateViews", locate_views_fn)
    ∷ (codes "xrDestroySpace", destroy_space_fn)
    ∷ (codes "xrWaitFrame", wait_frame_fn)
    ∷ (codes "xrBeginFrame", begin_frame_fn)
    ∷ (codes "xrEndFrame", end_frame_fn)
    ∷ []

-- A chain of `requested == name` tests.
unfoldable pub find_function : List ℕ → List (List ℕ × EntryPoint) → Option EntryPoint
unfolding same_text
find_function requested [] = none
find_function requested ((name, function) ∷ rest) =
    if same_text requested name then some function else find_function requested rest

of_instance : Handle → Option EntryPoint → XrResult × Option EntryPoint
unfolding is_valid_instance
of_instance instance found =
    if not (is_valid_instance instance) then (handle_invalid, none) else answer found
  where
    answer : Option EntryPoint → XrResult × Option EntryPoint
    answer none = (function_unsupported, none)
    answer (some function) = (success, some function)

unfoldable pub of_name :
    Handle → Option EntryPoint → Option EntryPoint → XrResult × Option EntryPoint
unfolding of_instance
of_name instance (some function) found = (success, some function)
of_name instance none found = of_instance instance found

-- What is written through the pointer is null, `none`, where no function is found.
unfoldable pub get_instance_proc_addr :
    Handle → Option (List ℕ) → Bool → XrResult × Option EntryPoint
unfolding of_name
get_instance_proc_addr instance none function_out = (validation_failure, none)
get_instance_proc_addr instance (some name) function_out =
    if not function_out
    then (validation_failure, none)
    else of_name instance (find_function name global_functions)
        (find_function name instance_functions)
