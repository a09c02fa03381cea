-- ===== src/Runtime/Enumerate.antt =====
-- android-runtime/session.cpp: the entry points that fill a client's array. A reply is the result, the
-- count that is written through the output pointer (`none` where it is left alone), and what is
-- written from the start of the array on.
use axrb.Common.{
  ℕ, ◌+◌, Bool, true, false, ◌&&◌, not, Option, none, some, List, [], ◌∷◌, length, take, ltb, ◌==◌,
  if◌then◌else◌,
}
use axrb.Xr.{
  XrResult, Handle, success, handle_invalid, system_invalid, validation_failure,
  view_configuration_type_unsupported, api_layer_not_present, k_system_id, primary_stereo,
  environment_blend_mode_opaque, reference_space_view, reference_space_local, reference_space_stage,
}
use axrb.Xr.StructureType.{
  type_extension_properties, type_view_configuration_view, type_swapchain_image_opengl_es_khr,
  type_swapchain_image_vulkan_khr,
}
use axrb.Runtime.{Runtime, is_valid_instance, is_valid_session, is_valid_swapchain}
use axrb.Runtime.Path.{codes}

abbrev pub Listing : Type 0 → Type 0
Listing A = XrResult × Option ℕ × List A

abbrev pub refuse : {A : Type 0} → XrResult → Listing A
refuse e = (e, none, [])

-- `capacity < count ? capacity : count`
abbrev lesser : ℕ → ℕ → ℕ
lesser capacity count = if ltb capacity count then capacity else count

-- The end of the entry points whose elements have no `type`.
unfoldable pub write_out : {A : Type 0} → List A → ℕ → Bool → Listing A
write_out all capacity array_out =
    if not (capacity == 0) && array_out
    then (success, some (length all), take (lesser capacity (length all)) all)
    else (success, some (length all), [])

-- The loop that checks the `type` of each element, which `types` gives by index, before it writes it.
unfoldable pub fill : {A : Type 0} → ℕ → (ℕ → ℕ) → ℕ → List A → Bool × List A
fill expected types i [] = (true, [])
fill expected types i (v ∷ vs) =
    let rest = fill expected types (i + 1) vs in
    let written : Bool × List _ = (rest.0, v ∷ rest.1) in
    if not (types i == expected) then (false, []) else written

-- The end of the entry points whose elements have one.
unfoldable pub fill_out : {A : Type 0} → ℕ → (ℕ → ℕ) → List A → ℕ → Bool → Listing A
unfolding fill
fill_out expected types all capacity array_out =
    let (good, written) = fill expected types 0 (take (lesser capacity (length all)) all) in
    if not (capacity == 0) && array_out
    then ((if good then success else validation_failure), some (length all), written)
    else (success, some (length all), [])

-- XrExtensionProperties
pub record ExtensionProperties : Type 0 where
  pub extension_name : List ℕ
  pub extension_version : ℕ

abbrev extension : List ℕ → ExtensionProperties
extension name = record { extension_name = name; extension_version = 1 }

abbrev pub k_extensions : List ExtensionProperties
k_extensions =
    extension (codes "XR_KHR_android_create_instance")
    ∷ extension (codes "XR_KHR_opengl_es_enable")
    ∷ extension (codes "XR_KHR_vulkan_enable")
    ∷ []

is_named : Option (List ℕ) → Bool
is_named none = false
is_named (some []) = false
is_named (some (_ ∷ _)) = true

unfoldable pub enumerate_instance_extension_properties :
    Option (List ℕ) → ℕ → Bool → Bool → (ℕ → ℕ) → Listing ExtensionProperties
unfolding is_named fill_out
enumerate_instance_extension_properties layer_name capacity count_out array_out types =
    if is_named layer_name
    then refuse api_layer_not_present
    else if not count_out
    then refuse validation_failure
    else fill_out type_extension_properties types k_extensions capacity array_out

unfoldable pub enumerate_view_configurations : Handle → ℕ → ℕ → Bool → Bool → Listing ℕ
unfolding is_valid_instance write_out
enumerate_view_configurations instance system_id capacity count_out array_out =
    if not (is_valid_instance instance)
    then refuse handle_invalid
    else if not (system_id == k_system_id)
    then refuse system_invalid
    else if not count_out
    then refuse validation_failure
    else write_out (primary_stereo ∷ []) capacity array_out

unfoldable pub enumerate_environment_blend_modes : Handle → ℕ → ℕ → ℕ → Bool → Bool → Listing ℕ
unfolding is_valid_instance write_out
enumerate_environment_blend_modes instance system_id configuration capacity count_out array_out =
    if not (is_valid_instance instance)
    then refuse handle_invalid
    else if not (system_id == k_system_id)
    then refuse system_invalid
    else if not (configuration == primary_stereo)
    then refuse view_configuration_type_unsupported
    else if not count_out
    then refuse validation_failure
    else write_out (environment_blend_mode_opaque ∷ []) capacity array_out

-- GL_RGBA8, GL_SRGB8_ALPHA8, VK_FORMAT_R8G8B8A8_UNORM and VK_FORMAT_B8G8R8A8_UNORM
abbrev pub k_formats : List ℕ
k_formats = 0x8058 ∷ 0x8c43 ∷ 37 ∷ 43 ∷ []

unfoldable pub enumerate_swapchain_formats : Handle → ℕ → Bool → Bool → Listing ℕ
unfolding is_valid_session write_out
enumerate_swapchain_formats session capacity count_out array_out =
    if not (is_valid_session session)
    then refuse handle_invalid
    else if not count_out
    then refuse validation_failure
    else write_out k_formats capacity array_out

abbrev pub k_spaces : List ℕ
k_spaces = reference_space_view ∷ reference_space_local ∷ reference_space_stage ∷ []

unfoldable pub enumerate_reference_spaces : Handle → ℕ → Bool → Bool → Listing ℕ
unfolding is_valid_session write_out
enumerate_reference_spaces session capacity count_out array_out =
    if not (is_valid_session session)
    then refuse handle_invalid
    else if not count_out
    then refuse validation_failure
    else write_out k_spaces capacity array_out

-- XrViewConfigurationView
pub record ViewConfigurationView : Type 0 where
  pub recommended_image_rect_width : ℕ
  pub max_image_rect_width : ℕ
  pub recommended_image_rect_height : ℕ
  pub max_image_rect_height : ℕ
  pub recommended_swapchain_sample_count : ℕ
  pub max_swapchain_sample_count : ℕ

abbrev k_view : ViewConfigurationView
k_view = record {
  recommended_image_rect_width = 1024;
  max_image_rect_width = 1024;
  recommended_image_rect_height = 1024;
  max_image_rect_height = 1024;
  recommended_swapchain_sample_count = 1;
  max_swapchain_sample_count = 1;
}

abbrev pub k_views : List ViewConfigurationView
k_views = k_view ∷ k_view ∷ []

unfoldable pub enumerate_view_configuration_views :
    Handle → ℕ → ℕ → ℕ → Bool → Bool → (ℕ → ℕ) → Listing ViewConfigurationView
unfolding is_valid_instance fill_out
enumerate_view_configuration_views instance system_id configuration capacity count_out array_out
      types =
    if not (is_valid_instance instance)
    then refuse handle_invalid
    else if not (system_id == k_system_id)
    then refuse system_invalid
    else if not (configuration == primary_stereo)
    then refuse view_configuration_type_unsupported
    else if not count_out
    then refuse validation_failure
    else fill_out type_view_configuration_view types k_views capacity array_out

abbrev pub texture_names : Runtime → List ℕ
texture_names r =
    r.gl_swapchain_textures.first ∷ r.gl_swapchain_textures.second ∷ r.gl_swapchain_textures.third
    ∷ []

-- The type of the first element says which kind of images the client wants.
images_of : ℕ → (ℕ → ℕ) → ℕ → Bool → Runtime → Listing ℕ
unfolding fill_out
images_of kind types capacity array_out r =
    if not (not (capacity == 0) && array_out)
    then (success, some 3, [])
    else if kind == type_swapchain_image_opengl_es_khr
    then fill_out type_swapchain_image_opengl_es_khr types (texture_names r) capacity array_out
    else if kind == type_swapchain_image_vulkan_khr
    then fill_out type_swapchain_image_vulkan_khr types (0 ∷ 0 ∷ 0 ∷ []) capacity array_out
    else (validation_failure, some 3, [])

unfoldable pub enumerate_swapchain_images : Handle → ℕ → Bool → Bool → (ℕ → ℕ) → Runtime → Listing ℕ
unfolding is_valid_swapchain images_of
enumerate_swapchain_images swapchain capacity count_out array_out types r =
    if not (is_valid_swapchain r swapchain)
    then refuse handle_invalid
    else if not count_out
    then refuse validation_failure
    else images_of (types 0) types capacity array_out r
