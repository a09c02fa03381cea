-- ===== src/Runtime/Frame.antt =====
-- android-runtime/session.cpp: xrWaitFrame, xrBeginFrame, xrEndFrame, and the part of
-- maybe_send_swapchain_image that decides whether and what to read back from OpenGL ES.
use axrb.Common.{
  ℕ, zero, suc, ◌+◌, ◌*◌, u64, ◌||◌, not, Option, none, some, ltb, ◌==◌, if◌then◌else◌,
}
use axrb.Xr.{
  XrResult, Handle, Typed, has_type, focused, same_state, success, handle_invalid,
  validation_failure, session_not_running,
}
use axrb.Xr.StructureType.{
  type_frame_wait_info, type_frame_state, type_frame_begin_info, type_frame_end_info,
}
use axrb.Runtime.{Runtime, Textures, is_valid_session}

-- XrFrameState
pub record FrameState : Type 0 where
  pub predicted_display_time : ℕ
  pub predicted_display_period : ℕ
  pub should_render : ℕ

-- `now` is what the steady clock shows.
unfoldable pub wait_frame : Handle → Typed → Typed → ℕ → Runtime → XrResult × Option FrameState
unfolding is_valid_session
wait_frame session frame_wait_info frame_state now r =
    if not (is_valid_session session)
    then (handle_invalid, none)
    else if not (same_state r.session_state focused)
    then (session_not_running, none)
    else if not (has_type frame_wait_info type_frame_wait_info)
        || not (has_type frame_state type_frame_state)
    then (validation_failure, none)
    else (
      success,
      some (record {
        predicted_display_time = now + 11_111_111;
        predicted_display_period = 11_111_111;
        should_render = 1;
      }),
    )

unfoldable pub begin_frame : Handle → Typed → Runtime → XrResult
unfolding is_valid_session
begin_frame session frame_begin_info r =
    if not (is_valid_session session)
    then handle_invalid
    else if not (same_state r.session_state focused)
    then session_not_running
    else if not (has_type frame_begin_info type_frame_begin_info)
    then validation_failure
    else success

-- `g_glSwapchainTextures[i]`; `none` is a read out of bounds.
unfoldable pub texture_at : Textures → ℕ → Option ℕ
texture_at t zero = some t.first
texture_at t (suc zero) = some t.second
texture_at t (suc (suc zero)) = some t.third
texture_at t (suc (suc (suc _))) = none

-- What is read back and handed to the image transport.
pub record Readback : Type 0 where
  pub sequence : ℕ
  pub source_texture : ℕ
  pub width : ℕ
  pub height : ℕ
  pub layers : ℕ
  pub payload_bytes : ℕ

abbrev pub max_transport_dimension : ℕ
max_transport_dimension = 512

abbrev pub max_payload_bytes : ℕ
max_payload_bytes = 128 * 1024 * 1024

abbrev transport_size : ℕ → ℕ
transport_size n = if ltb max_transport_dimension n then max_transport_dimension else n

-- The sizes are checked after the sequence number is taken.
unfoldable pub readback_of : ℕ → Runtime → Option Readback
readback_of texture r =
    let width = transport_size r.swapchain_width in
    let height = transport_size r.swapchain_height in
    let layer_bytes = u64 (u64 (width * height) * 4) in
    let payload_bytes = u64 (layer_bytes * r.swapchain_array_size) in
    if ltb 4096 r.swapchain_width || (ltb 4096 r.swapchain_height || ltb 4 r.swapchain_array_size)
    then none
    else if ltb max_payload_bytes payload_bytes
    then none
    else some (record {
      sequence = r.image_frame_sequence;
      source_texture = texture;
      width = width;
      height = height;
      layers = r.swapchain_array_size;
      payload_bytes = payload_bytes;
    })

-- A read out of bounds is undefined behaviour, and shown as no texture here.
unfoldable pub send_texture : Option ℕ → Runtime → Option Readback × Runtime
unfolding readback_of
send_texture none r = (none, r)
send_texture (some texture) r = if texture == 0 then (none, r) else (
  readback_of texture r,
  record r { image_frame_sequence = u64 (r.image_frame_sequence + 1) },
)

unfoldable pub maybe_send_swapchain_image : Runtime → Option Readback × Runtime
unfolding texture_at send_texture
maybe_send_swapchain_image r =
    if not r.swapchain_created
      || (r.swapchain_width == 0 || (r.swapchain_height == 0 || r.swapchain_array_size == 0))
    then (none, r)
    else send_texture (texture_at r.gl_swapchain_textures r.last_released_swapchain_image) r

-- The image goes out before the session state is tested.
end_frame_after : Option Readback × Runtime → XrResult × Option Readback × Runtime
end_frame_after (image, r) =
    if not (same_state r.session_state focused)
    then (session_not_running, image, r)
    else (success, image, r)

unfoldable pub end_frame : Handle → Typed → Runtime → XrResult × Option Readback × Runtime
unfolding is_valid_session maybe_send_swapchain_image end_frame_after
end_frame session frame_end_info r =
    if not (is_valid_session session)
    then (handle_invalid, none, r)
    else if not (has_type frame_end_info type_frame_end_info)
    then (validation_failure, none, r)
    else end_frame_after (maybe_send_swapchain_image r)
