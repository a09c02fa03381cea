-- ===== src/Runtime/Swapchain.antt =====
-- android-runtime/session.cpp: the swapchain entry points.
use axrb.Common.{
  ℕ, u32, ◌+◌, ◌%◌, Bool, true, false, ◌||◌, not, Option, none, some, ◌==◌, if◌then◌else◌,
}
use axrb.Xr.{
  XrResult, Handle, Typed, has_type, success, validation_failure, handle_invalid,
  call_order_invalid,
}
use axrb.Xr.StructureType.{
  type_swapchain_create_info, type_swapchain_image_acquire_info, type_swapchain_image_wait_info,
  type_swapchain_image_release_info,
}
use axrb.Runtime.{
  Runtime, Reply, Textures, fail, is_valid_session, is_valid_swapchain, destroy_swapchain_images,
  create_opengles_swapchain_images,
}

-- XrSwapchainCreateInfo without the flags, which are not read.
pub record SwapchainCreateInfo : Type 0 where
  pub type : ℕ
  pub format : ℕ
  pub sample_count : ℕ
  pub width : ℕ
  pub height : ℕ
  pub face_count : ℕ
  pub array_size : ℕ
  pub mip_count : ℕ

-- `generated` is what `glGenTextures` stores for the new swapchain.
start_swapchain : SwapchainCreateInfo → Textures → Runtime → Runtime
unfolding create_opengles_swapchain_images
start_swapchain info generated r = create_opengles_swapchain_images generated (record r {
  swapchain_created = true;
  swapchain_image_acquired = false;
  swapchain_image_waited = false;
  next_swapchain_image = 0;
  current_swapchain_image = 0;
  last_released_swapchain_image = 0;
  swapchain_width = info.width;
  swapchain_height = info.height;
  swapchain_array_size = info.array_size;
  swapchain_format = info.format;
})

unfoldable pub create_swapchain :
    Handle → Option SwapchainCreateInfo → Bool → Textures → Runtime → Reply Handle
unfolding is_valid_session start_swapchain
create_swapchain session none swapchain_out generated r =
    if not (is_valid_session session) then fail handle_invalid r else fail validation_failure r
create_swapchain session (some info) swapchain_out generated r =
    if not (is_valid_session session)
    then fail handle_invalid r
    else if not swapchain_out || not (info.type == type_swapchain_create_info)
    then fail validation_failure r
    else if info.width == 0
        || (info.height == 0
            || (info.sample_count == 0
                || (info.face_count == 0 || (info.array_size == 0 || info.mip_count == 0))))
    then fail validation_failure r
    else (success, some Handle.swapchain_handle, start_swapchain info generated r)

unfoldable pub destroy_swapchain : Handle → Runtime → XrResult × Runtime
unfolding is_valid_swapchain destroy_swapchain_images
destroy_swapchain swapchain r =
    if not (is_valid_swapchain r swapchain) then (handle_invalid, r) else (
      success,
      destroy_swapchain_images (record r {
        swapchain_created = false;
        swapchain_image_acquired = false;
        swapchain_image_waited = false;
      }),
    )

unfoldable pub acquire_swapchain_image : Handle → Typed → Bool → Runtime → Reply ℕ
unfolding is_valid_swapchain
acquire_swapchain_image swapchain acquire_info index_out r =
    if not (is_valid_swapchain r swapchain)
    then fail handle_invalid r
    else if not index_out || not (has_type acquire_info type_swapchain_image_acquire_info)
    then fail validation_failure r
    else if r.swapchain_image_acquired
    then fail call_order_invalid r
    else (
      success,
      some r.next_swapchain_image,
      record r {
        current_swapchain_image = r.next_swapchain_image;
        next_swapchain_image = u32 (r.next_swapchain_image + 1) % 3;
        swapchain_image_acquired = true;
        swapchain_image_waited = false;
      },
    )

unfoldable pub wait_swapchain_image : Handle → Typed → Runtime → XrResult × Runtime
unfolding is_valid_swapchain
wait_swapchain_image swapchain wait_info r =
    if not (is_valid_swapchain r swapchain)
    then (handle_invalid, r)
    else if not (has_type wait_info type_swapchain_image_wait_info)
    then (validation_failure, r)
    else if not r.swapchain_image_acquired
    then (call_order_invalid, r)
    else (success, record r { swapchain_image_waited = true })

unfoldable pub release_swapchain_image : Handle → Typed → Runtime → XrResult × Runtime
unfolding is_valid_swapchain
release_swapchain_image swapchain release_info r =
    if not (is_valid_swapchain r swapchain)
    then (handle_invalid, r)
    else if not (has_type release_info type_swapchain_image_release_info)
    then (validation_failure, r)
    else if not r.swapchain_image_acquired || not r.swapchain_image_waited
    then (call_order_invalid, r)
    else (
      success,
      record r {
        swapchain_image_acquired = false;
        swapchain_image_waited = false;
        last_released_swapchain_image = r.current_swapchain_image;
      },
    )
