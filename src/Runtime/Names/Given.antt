-- ===== src/Runtime/Names/Given.antt =====
-- android-runtime/session.cpp: xrGetInstanceProcAddr under each name.
use axrb.Common.{ℕ, ◌≡◌, ◌↔◌, refl, ap, ◌∙◌, true, some, List}
use axrb.Xr.{Handle, success}
use axrb.Runtime.Path.{same_text}
use axrb.Runtime.Dispatch.{
  EntryPoint, find_function, get_instance_proc_addr, get_instance_proc_addr_fn, create_instance_fn,
  initialize_loader_khr_fn, enumerate_instance_extension_properties_fn, poll_event_fn,
  destroy_instance_fn, get_instance_properties_fn, get_system_fn, get_system_properties_fn,
  get_opengl_es_graphics_requirements_khr_fn, get_vulkan_graphics_requirements_khr_fn,
  create_session_fn, begin_session_fn, end_session_fn, destroy_session_fn,
  enumerate_view_configurations_fn, enumerate_environment_blend_modes_fn,
  get_view_configuration_properties_fn, enumerate_view_configuration_views_fn,
  enumerate_swapchain_formats_fn, create_swapchain_fn, destroy_swapchain_fn,
  enumerate_swapchain_images_fn, acquire_swapchain_image_fn, wait_swapchain_image_fn,
  release_swapchain_image_fn, enumerate_reference_spaces_fn, create_reference_space_fn,
  create_action_set_fn, destroy_action_set_fn, create_action_fn, destroy_action_fn,
  string_to_path_fn, path_to_string_fn, suggest_interaction_profile_bindings_fn,
  create_action_space_fn, locate_space_fn, attach_session_action_sets_fn, sync_actions_fn,
  get_action_state_boolean_fn, get_action_state_float_fn, get_action_state_vector2f_fn,
  get_action_state_pose_fn, get_current_interaction_profile_fn,
  enumerate_bound_sources_for_action_fn, get_input_source_localized_name_fn,
  apply_haptic_feedback_fn, stop_haptic_feedback_fn, locate_views_fn, destroy_space_fn,
  wait_frame_fn, begin_frame_fn, end_frame_fn,
}
use axrb.Runtime.Names.{name_of, get_instance_proc_addr-name_of}

name_of-get_instance_proc_addr :
    (function : EntryPoint)
    → get_instance_proc_addr Handle.instance_handle (some (name_of function)) true
      ≡ (success, some function)
unfolding get_instance_proc_addr find_function same_text
name_of-get_instance_proc_addr get_instance_proc_addr_fn = refl
name_of-get_instance_proc_addr create_instance_fn = refl
name_of-get_instance_proc_addr initialize_loader_khr_fn = refl
name_of-get_instance_proc_addr enumerate_instance_extension_properties_fn = refl
name_of-get_instance_proc_addr poll_event_fn = refl
name_of-get_instance_proc_addr destroy_instance_fn = refl
name_of-get_instance_proc_addr get_instance_properties_fn = refl
name_of-get_instance_proc_addr get_system_fn = refl
name_of-get_instance_proc_addr get_system_properties_fn = refl
name_of-get_instance_proc_addr get_opengl_es_graphics_requirements_khr_fn = refl
name_of-get_instance_proc_addr get_vulkan_graphics_requirements_khr_fn = refl
name_of-get_instance_proc_addr create_session_fn = refl
name_of-get_instance_proc_addr begin_session_fn = refl
name_of-get_instance_proc_addr end_session_fn = refl
name_of-get_instance_proc_addr destroy_session_fn = refl
name_of-get_instance_proc_addr enumerate_view_configurations_fn = refl
name_of-get_instance_proc_addr enumerate_environment_blend_modes_fn = refl
name_of-get_instance_proc_addr get_view_configuration_properties_fn = refl
name_of-get_instance_proc_addr enumerate_view_configuration_views_fn = refl
name_of-get_instance_proc_addr enumerate_swapchain_formats_fn = refl
name_of-get_instance_proc_addr create_swapchain_fn = refl
name_of-get_instance_proc_addr destroy_swapchain_fn = refl
name_of-get_instance_proc_addr enumerate_swapchain_images_fn = refl
name_of-get_instance_proc_addr acquire_swapchain_image_fn = refl
name_of-get_instance_proc_addr wait_swapchain_image_fn = refl
name_of-get_instance_proc_addr release_swapchain_image_fn = refl
name_of-get_instance_proc_addr enumerate_reference_spaces_fn = refl
name_of-get_instance_proc_addr create_reference_space_fn = refl
name_of-get_instance_proc_addr create_action_set_fn = refl
name_of-get_instance_proc_addr destroy_action_set_fn = refl
name_of-get_instance_proc_addr create_action_fn = refl
name_of-get_instance_proc_addr destroy_action_fn = refl
name_of-get_instance_proc_addr string_to_path_fn = refl
name_of-get_instance_proc_addr path_to_string_fn = refl
name_of-get_instance_proc_addr suggest_interaction_profile_bindings_fn = refl
name_of-get_instance_proc_addr create_action_space_fn = refl
name_of-get_instance_proc_addr locate_space_fn = refl
name_of-get_instance_proc_addr attach_session_action_sets_fn = refl
name_of-get_instance_proc_addr sync_actions_fn = refl
name_of-get_instance_proc_addr get_action_state_boolean_fn = refl
name_of-get_instance_proc_addr get_action_state_float_fn = refl
name_of-get_instance_proc_addr get_action_state_vector2f_fn = refl
name_of-get_instance_proc_addr get_action_state_pose_fn = refl
name_of-get_instance_proc_addr get_current_interaction_profile_fn = refl
name_of-get_instance_proc_addr enumerate_bound_sources_for_action_fn = refl
name_of-get_instance_proc_addr get_input_source_localized_name_fn = refl
name_of-get_instance_proc_addr apply_haptic_feedback_fn = refl
name_of-get_instance_proc_addr stop_haptic_feedback_fn = refl
name_of-get_instance_proc_addr locate_views_fn = refl
name_of-get_instance_proc_addr destroy_space_fn = refl
name_of-get_instance_proc_addr wait_frame_fn = refl
name_of-get_instance_proc_addr begin_frame_fn = refl
name_of-get_instance_proc_addr end_frame_fn = refl

-- For the instance, xrGetInstanceProcAddr gives a function exactly under its OpenXR name, for each of
-- the 53 functions.
pub get_instance_proc_addr_iff :
    (requested : List ℕ) (function : EntryPoint)
    → (get_instance_proc_addr Handle.instance_handle (some requested) true
        ≡ (success, some function))
      ↔ (requested ≡ name_of function)
get_instance_proc_addr_iff requested function = (
  λ given.
      get_instance_proc_addr-name_of Handle.instance_handle requested true function
        (ap (λ r. r.1) given),
  λ named.
      ap (λ n. get_instance_proc_addr Handle.instance_handle (some n) true) named
      ∙ name_of-get_instance_proc_addr function,
)
