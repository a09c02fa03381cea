-- ===== src/Runtime/System.antt =====
-- android-runtime/session.cpp: the loader's first calls, and the entry points that report on the
-- instance and the system. What an entry point writes is `some …`.
use axrb.Common.{ℕ, Bool, ◌&&◌, ◌||◌, not, Option, none, some, List, ltb, ◌==◌, if◌then◌else◌}
use axrb.Xr.{
  XrResult, Handle, Typed, has_type, make_version, success, handle_invalid, system_invalid,
  validation_failure, initialization_failed, api_version_unsupported, form_factor_unsupported,
  view_configuration_type_unsupported, k_system_id, primary_stereo, head_mounted_display,
}
use axrb.Xr.StructureType.{
  type_instance_properties, type_system_get_info, type_system_properties,
  type_graphics_requirements_opengl_es_khr, type_graphics_requirements_vulkan_khr,
  type_view_configuration_properties,
}
use axrb.Runtime.{is_valid_instance}
use axrb.Runtime.Path.{codes}
use axrb.Pose.Client.{PoseClient, set_android_context}

-- XrNegotiateLoaderInfo
pub record NegotiateLoaderInfo : Type 0 where
  pub struct_type : ℕ
  pub struct_version : ℕ
  pub struct_size : ℕ
  pub min_interface_version : ℕ
  pub max_interface_version : ℕ
  pub min_api_version : ℕ
  pub max_api_version : ℕ

-- XrNegotiateRuntimeRequest without the function pointer, which is always xrGetInstanceProcAddr_impl.
pub record NegotiateRuntimeRequest : Type 0 where
  pub struct_type : ℕ
  pub struct_version : ℕ
  pub struct_size : ℕ
  pub runtime_interface_version : ℕ
  pub runtime_api_version : ℕ

-- XR_LOADER_INTERFACE_STRUCT_LOADER_INFO and XR_LOADER_INTERFACE_STRUCT_RUNTIME_REQUEST
abbrev pub loader_info : ℕ
loader_info = 1

abbrev pub runtime_request : ℕ
runtime_request = 3

-- The sizes that the platform gives to the two structures.
pub record StructSizes : Type 0 where
  pub loader_info_size : ℕ
  pub runtime_request_size : ℕ

negotiate : StructSizes → NegotiateLoaderInfo → XrResult × Option NegotiateRuntimeRequest
negotiate sizes info =
    if not (info.struct_type == loader_info)
      || (not (info.struct_version == 1) || not (info.struct_size == sizes.loader_info_size))
    then (initialization_failed, none)
    else if ltb 1 info.min_interface_version || ltb info.max_interface_version 1
    then (initialization_failed, none)
    else if ltb (make_version 1 0 0) info.min_api_version
        || ltb info.max_api_version (make_version 1 0 0)
    then (api_version_unsupported, none)
    else (
      success,
      some (record {
        struct_type = runtime_request;
        struct_version = 1;
        struct_size = sizes.runtime_request_size;
        runtime_interface_version = 1;
        runtime_api_version = make_version 1 0 0;
      }),
    )

unfoldable pub negotiate_loader_runtime_interface :
    StructSizes → Option NegotiateLoaderInfo → Bool → XrResult × Option NegotiateRuntimeRequest
unfolding negotiate
negotiate_loader_runtime_interface sizes none request_out = (validation_failure, none)
negotiate_loader_runtime_interface sizes (some info) request_out =
    if not request_out then (validation_failure, none) else negotiate sizes info

-- Whether the two pointers are not null.
pub record AndroidLoaderInitInfo : Type 0 where
  pub application_vm : Bool
  pub application_context : Bool

-- On Android. `env` is whether GetEnv gives an environment.
unfoldable pub initialize_loader :
    Option AndroidLoaderInitInfo → Bool → PoseClient → XrResult × PoseClient
unfolding set_android_context
initialize_loader none env c = (validation_failure, c)
initialize_loader (some init_info) env c =
    if init_info.application_vm && init_info.application_context
    then (success, set_android_context init_info.application_vm init_info.application_context env c)
    else (success, c)

pub record InstanceProperties : Type 0 where
  pub runtime_version : ℕ
  pub runtime_name : List ℕ

unfoldable pub get_instance_properties : Handle → Typed → XrResult × Option InstanceProperties
unfolding is_valid_instance
get_instance_properties instance properties =
    if not (is_valid_instance instance)
    then (handle_invalid, none)
    else if not (has_type properties type_instance_properties)
    then (validation_failure, none)
    else (
      success,
      some (record {
        runtime_version = make_version 0 1 0;
        runtime_name = codes "Android XR Bridge Runtime";
      }),
    )

pub record SystemGetInfo : Type 0 where
  pub type : ℕ
  pub form_factor : ℕ

unfoldable pub get_system : Handle → Option SystemGetInfo → Bool → XrResult × Option ℕ
unfolding is_valid_instance
get_system instance none system_id_out =
    if not (is_valid_instance instance) then (handle_invalid, none) else (validation_failure, none)
get_system instance (some info) system_id_out =
    if not (is_valid_instance instance)
    then (handle_invalid, none)
    else if not system_id_out || not (info.type == type_system_get_info)
    then (validation_failure, none)
    else if not (info.form_factor == head_mounted_display)
    then (form_factor_unsupported, none)
    else (success, some k_system_id)

pub record SystemProperties : Type 0 where
  pub system_id : ℕ
  pub vendor_id : ℕ
  pub system_name : List ℕ
  pub max_swapchain_image_height : ℕ
  pub max_swapchain_image_width : ℕ
  pub max_layer_count : ℕ
  pub orientation_tracking : ℕ
  pub position_tracking : ℕ

unfoldable pub get_system_properties : Handle → ℕ → Typed → XrResult × Option SystemProperties
unfolding is_valid_instance
get_system_properties instance system_id properties =
    if not (is_valid_instance instance)
    then (handle_invalid, none)
    else if not (system_id == k_system_id)
    then (system_invalid, none)
    else if not (has_type properties type_system_properties)
    then (validation_failure, none)
    else (
      success,
      some (record {
        system_id = k_system_id;
        vendor_id = 0;
        system_name = codes "AXRB Fake HMD";
        max_swapchain_image_height = 4096;
        max_swapchain_image_width = 4096;
        max_layer_count = 16;
        orientation_tracking = 1;
        position_tracking = 1;
      }),
    )

-- The lowest and the highest version of the graphics library.
pub record GraphicsRequirements : Type 0 where
  pub min_api_version_supported : ℕ
  pub max_api_version_supported : ℕ

unfoldable pub get_opengl_es_graphics_requirements :
    Handle → ℕ → Typed → XrResult × Option GraphicsRequirements
unfolding is_valid_instance
get_opengl_es_graphics_requirements instance system_id requirements =
    if not (is_valid_instance instance)
    then (handle_invalid, none)
    else if not (system_id == k_system_id)
    then (system_invalid, none)
    else if not (has_type requirements type_graphics_requirements_opengl_es_khr)
    then (validation_failure, none)
    else (
      success,
      some (record {
        min_api_version_supported = make_version 3 0 0;
        max_api_version_supported = make_version 3 2 0;
      }),
    )

unfoldable pub get_vulkan_graphics_requirements :
    Handle → ℕ → Typed → XrResult × Option GraphicsRequirements
unfolding is_valid_instance
get_vulkan_graphics_requirements instance system_id requirements =
    if not (is_valid_instance instance)
    then (handle_invalid, none)
    else if not (system_id == k_system_id)
    then (system_invalid, none)
    else if not (has_type requirements type_graphics_requirements_vulkan_khr)
    then (validation_failure, none)
    else (
      success,
      some (record {
        min_api_version_supported = make_version 1 0 0;
        max_api_version_supported = make_version 1 1 0;
      }),
    )

pub record ViewConfigurationProperties : Type 0 where
  pub view_configuration_type : ℕ
  pub fov_mutable : ℕ

unfoldable pub get_view_configuration_properties :
    Handle → ℕ → ℕ → Typed → XrResult × Option ViewConfigurationProperties
unfolding is_valid_instance
get_view_configuration_properties instance system_id configuration properties =
    if not (is_valid_instance instance)
    then (handle_invalid, none)
    else if not (system_id == k_system_id)
    then (system_invalid, none)
    else if not (configuration == primary_stereo)
    then (view_configuration_type_unsupported, none)
    else if not (has_type properties type_view_configuration_properties)
    then (validation_failure, none)
    else (success, some (record { view_configuration_type = primary_stereo; fov_mutable = 0 }))
