-- ===== src/Runtime/Names.antt =====
-- android-runtime/session.cpp: xrGetInstanceProcAddr gives each entry point under its own name, and
-- under no other.
pub mod Given
use axrb.Common.{
  ◌≡◌, refl, Bool, true, false, ◌⊎◌, inl, inr, Option, none, some, List, [], ◌∷◌, ℕ, Bool-cases, ap,
  ◌∙◌,
}
use axrb.Xr.{Handle, success}
use axrb.Runtime.Path.{codes, same_text}
use axrb.Runtime.Paths.Table.{same_text→eq}
use axrb.Runtime.Dispatch.{
  EntryPoint, global_functions, instance_functions, find_function, of_name, get_instance_proc_addr,
  get_instance_proc_addr_fn, create_instance_fn, initialize_loader_khr_fn,
  enumerate_instance_extension_properties_fn, poll_event_fn, destroy_instance_fn,
  get_instance_properties_fn, get_system_fn, get_system_properties_fn,
  get_opengl_es_graphics_requirements_khr_fn, get_vulkan_graphics_requirements_khr_fn,
  create_session_fn, begin_session_fn, end_session_fn, destroy_session_fn,
  enumerate_view_configurations_fn, enumerate_environment_blend_modes_fn,
  get_view_configuration_properties_fn, enumerate_view_configuration_views_fn,
  enumerate_swapchain_formats_fn, create_swapchain_fn, destroy_swapchain_fn,
  enumerate_swapchain_images_fn, acquire_swapchain_image_fn, wait_swapchain_image_fn,
  release_swapchain_image_fn, enumerate_reference_spaces_fn, create_reference_space_fn,
  create_action_set_fn, destroy_action_set_fn, create_action_fn, destroy_action_fn,
  string_to_path_fn, path_to_string_fn, suggest_interaction_profile_bindings_fn,
  create_action_space_fn, locate_space_fn, attach_session_action_sets_fn, sync_actions_fn,
  get_action_state_boolean_fn, get_action_state_float_fn, get_action_state_vector2f_fn,
  get_action_state_pose_fn, get_current_interaction_profile_fn,
  enumerate_bound_sources_for_action_fn, get_input_source_localized_name_fn,
  apply_haptic_feedback_fn, stop_haptic_feedback_fn, locate_views_fn, destroy_space_fn,
  wait_frame_fn, begin_frame_fn, end_frame_fn,
}

-- The name that the OpenXR specification gives to the function.
abbrev pub name_of : EntryPoint → List ℕ
name_of get_instance_proc_addr_fn = codes "xrGetInstanceProcAddr"
name_of create_instance_fn = codes "xrCreateInstance"
name_of initialize_loader_khr_fn = codes "xrInitializeLoaderKHR"
name_of enumerate_instance_extension_properties_fn = codes "xrEnumerateInstanceExtensionProperties"
name_of poll_event_fn = codes "xrPollEvent"
name_of destroy_instance_fn = codes "xrDestroyInstance"
name_of get_instance_properties_fn = codes "xrGetInstanceProperties"
name_of get_system_fn = codes "xrGetSystem"
name_of get_system_properties_fn = codes "xrGetSystemProperties"
name_of get_opengl_es_graphics_requirements_khr_fn = codes "xrGetOpenGLESGraphicsRequirementsKHR"
name_of get_vulkan_graphics_requirements_khr_fn = codes "xrGetVulkanGraphicsRequirementsKHR"
name_of create_session_fn = codes "xrCreateSession"
name_of begin_session_fn = codes "xrBeginSession"
name_of end_session_fn = codes "xrEndSession"
name_of destroy_session_fn = codes "xrDestroySession"
name_of enumerate_view_configurations_fn = codes "xrEnumerateViewConfigurations"
name_of enumerate_environment_blend_modes_fn = codes "xrEnumerateEnvironmentBlendModes"
name_of get_view_configuration_properties_fn = codes "xrGetViewConfigurationProperties"
name_of enumerate_view_configuration_views_fn = codes "xrEnumerateViewConfigurationViews"
name_of enumerate_swapchain_formats_fn = codes "xrEnumerateSwapchainFormats"
name_of create_swapchain_fn = codes "xrCreateSwapchain"
name_of destroy_swapchain_fn = codes "xrDestroySwapchain"
name_of enumerate_swapchain_images_fn = codes "xrEnumerateSwapchainImages"
name_of acquire_swapchain_image_fn = codes "xrAcquireSwapchainImage"
name_of wait_swapchain_image_fn = codes "xrWaitSwapchainImage"
name_of release_swapchain_image_fn = codes "xrReleaseSwapchainImage"
name_of enumerate_reference_spaces_fn = codes "xrEnumerateReferenceSpaces"
name_of create_reference_space_fn = codes "xrCreateReferenceSpace"
name_of create_action_set_fn = codes "xrCreateActionSet"
name_of destroy_action_set_fn = codes "xrDestroyActionSet"
name_of create_action_fn = codes "xrCreateAction"
name_of destroy_action_fn = codes "xrDestroyAction"
name_of string_to_path_fn = codes "xrStringToPath"
name_of path_to_string_fn = codes "xrPathToString"
name_of suggest_interaction_profile_bindings_fn = codes "xrSuggestInteractionProfileBindings"
name_of create_action_space_fn = codes "xrCreateActionSpace"
name_of locate_space_fn = codes "xrLocateSpace"
name_of attach_session_action_sets_fn = codes "xrAttachSessionActionSets"
name_of sync_actions_fn = codes "xrSyncActions"
name_of get_action_state_boolean_fn = codes "xrGetActionStateBoolean"
name_of get_action_state_float_fn = codes "xrGetActionStateFloat"
name_of get_action_state_vector2f_fn = codes "xrGetActionStateVector2f"
name_of get_action_state_pose_fn = codes "xrGetActionStatePose"
name_of get_current_interaction_profile_fn = codes "xrGetCurrentInteractionProfile"
name_of enumerate_bound_sources_for_action_fn = codes "xrEnumerateBoundSourcesForAction"
name_of get_input_source_localized_name_fn = codes "xrGetInputSourceLocalizedName"
name_of apply_haptic_feedback_fn = codes "xrApplyHapticFeedback"
name_of stop_haptic_feedback_fn = codes "xrStopHapticFeedback"
name_of locate_views_fn = codes "xrLocateViews"
name_of destroy_space_fn = codes "xrDestroySpace"
name_of wait_frame_fn = codes "xrWaitFrame"
name_of begin_frame_fn = codes "xrBeginFrame"
name_of end_frame_fn = codes "xrEndFrame"

-- Each function of a table stands under its name.
abbrev AllNamed : List (List ℕ × EntryPoint) → Type 0
AllNamed [] = Unit {0}
AllNamed ((name, function) ∷ rest) = (name ≡ name_of function) × AllNamed rest

found_named :
    (requested : List ℕ) (function : EntryPoint) (table : List (List ℕ × EntryPoint))
    → AllNamed table
    → find_function requested table ≡ some function
    → requested ≡ name_of function
unfolding find_function
found_named requested function [] named e = absurd (cc e)
found_named requested function ((name, f) ∷ rest) named e =
    elim (Bool-cases (same_text requested name)) [
      | inl same ↦
          let here : f ≡ function = cc (rw same at e) in
          same_text→eq requested name same ∙ named.0 ∙ ap name_of here
      | inr other ↦ found_named requested function rest named.1 (rw other at e)
    ]

global_functions-AllNamed : AllNamed global_functions
global_functions-AllNamed = (refl, (refl, (refl, (refl, (refl, tt)))))

instance_functions-AllNamed : AllNamed instance_functions
instance_functions-AllNamed = (
  refl,
  (
    refl,
    (
      refl,
      (
        refl,
        (
          refl,
          (
            refl,
            (
              refl,
              (
                refl,
                (
                  refl,
                  (
                    refl,
                    (
                      refl,
                      (
                        refl,
                        (
                          refl,
                          (
                            refl,
                            (
                              refl,
                              (
                                refl,
                                (
                                  refl,
                                  (
                                    refl,
                                    (
                                      refl,
                                      (
                                        refl,
                                        (
                                          refl,
                                          (
                                            refl,
                                            (
                                              refl,
                                              (
                                                refl,
                                                (
                                                  refl,
                                                  (
                                                    refl,
                                                    (
                                                      refl,
                                                      (
                                                        refl,
                                                        (
                                                          refl,
                                                          (
                                                            refl,
                                                            (
                                                            refl,
                                                            (
                                                            refl,
                                                            (
                                                            refl,
                                                            (
                                                            refl,
                                                            (
                                                            refl,
                                                            (
                                                            refl,
                                                            (
                                                            refl,
                                                            (
                                                            refl,
                                                            (
                                                            refl,
                                                            (
                                                            refl,
                                                            (
                                                            refl,
                                                            (
                                                            refl,
                                                            (
                                                            refl,
                                                            (
                                                            refl,
                                                            (refl, (refl, (refl, (refl, tt)))),
                                                            ),
                                                            ),
                                                            ),
                                                            ),
                                                            ),
                                                            ),
                                                            ),
                                                            ),
                                                            ),
                                                            ),
                                                            ),
                                                            ),
                                                            ),
                                                            ),
                                                          ),
                                                        ),
                                                      ),
                                                    ),
                                                  ),
                                                ),
                                              ),
                                            ),
                                          ),
                                        ),
                                      ),
                                    ),
                                  ),
                                ),
                              ),
                            ),
                          ),
                        ),
                      ),
                    ),
                  ),
                ),
              ),
            ),
          ),
        ),
      ),
    ),
  ),
)

of_name_given :
    (instance : Handle) (a b : Option EntryPoint) (function : EntryPoint)
    → (of_name instance a b).1 ≡ some function
    → (a ≡ some function) ⊎ (b ≡ some function)
unfolding of_name
of_name_given instance (some g) b function e = inl e
of_name_given Handle.instance_handle none none function e = absurd (cc e)
of_name_given Handle.instance_handle none (some g) function e = inr e
of_name_given _ none b function e = absurd (cc e)

given_named :
    (instance : Handle) (requested : List ℕ) (out : Bool) (function : EntryPoint)
    → (get_instance_proc_addr instance (some requested) out).1 ≡ some function
    → (find_function requested global_functions ≡ some function)
      ⊎ (find_function requested instance_functions ≡ some function)
unfolding get_instance_proc_addr
given_named instance requested true function e = of_name_given instance _ _ function e
given_named instance requested false function e = absurd (cc e)

pub get_instance_proc_addr-name_of :
    (instance : Handle) (requested : List ℕ) (out : Bool) (function : EntryPoint)
    → (get_instance_proc_addr instance (some requested) out).1 ≡ some function
    → requested ≡ name_of function
get_instance_proc_addr-name_of instance requested out function e =
    elim (given_named instance requested out function e) [
      | inl found ↦ found_named requested function global_functions global_functions-AllNamed found
      | inr found ↦
          found_named requested function instance_functions instance_functions-AllNamed found
    ]
