-- ===== src/Host/Decode.antt =====
-- decode_video_frame_to_image of host-bridge/openxr_host.cpp: a raw video frame as an image.
use axrb.Common.{
  ℕ, ◌*◌, ◌≤◌, ◌<◌, ◌≡◌, refl, sym, u64, true, ◌||◌, not, Option, none, some, List, length, ◌==◌,
  if◌then◌else◌, arith,
}
use axrb.Video.Frame.{EncodedVideoFrame, k_encoded_video_codec_axrb_rgba8}
use axrb.Image.Header.{ImageFrameHeader, valid_image_header, max_image_payload}
use axrb.Image.Client.{client_header}

abbrev pub frame_bytes : EncodedVideoFrame → ℕ
frame_bytes frame = u64 (u64 (frame.width * frame.height) * 4)

-- The header and the pixels; `padding` is what lies in the header's padding.
unfoldable pub decode_video_frame_to_image :
    ℕ → EncodedVideoFrame → Option (ImageFrameHeader × List ℕ)
decode_video_frame_to_image padding frame =
    if not (frame.codec == k_encoded_video_codec_axrb_rgba8)
    then none
    else if frame.width == 0
        || (frame.height == 0 || not (length frame.payload == frame_bytes frame))
    then none
    else some (
      client_header frame.frame_id frame.width frame.height 1 (frame_bytes frame)
          frame.capture_time_ns padding,
      frame.payload,
    )

-- What is decoded, and how.
pub decode_raw :
    (padding : ℕ) (frame : EncodedVideoFrame)
    → frame.codec ≡ k_encoded_video_codec_axrb_rgba8
    → 0 < frame.width
    → 0 < frame.height
    → length frame.payload ≡ frame_bytes frame
    → decode_video_frame_to_image padding frame
      ≡ some (
        client_header frame.frame_id frame.width frame.height 1
            (frame_bytes frame)
            frame.capture_time_ns
            padding,
        frame.payload,
      )
unfolding decode_video_frame_to_image
decode_raw padding frame codec wide high size = ground arith

-- What a frame must be to be decoded.
record IsRaw (frame : EncodedVideoFrame) : Type 0 where
  codec : frame.codec ≡ k_encoded_video_codec_axrb_rgba8
  size : length frame.payload ≡ frame_bytes frame

decoded-IsRaw :
    (padding : ℕ) (frame : EncodedVideoFrame) (image : ImageFrameHeader × List ℕ)
    → decode_video_frame_to_image padding frame ≡ some image
    → IsRaw frame
unfolding decode_video_frame_to_image
decoded-IsRaw padding frame image e = record { codec = ground arith; size = ground arith }

decoded_image :
    (padding : ℕ) (frame : EncodedVideoFrame) (image : ImageFrameHeader × List ℕ)
    → decode_video_frame_to_image padding frame ≡ some image
    → image ≡ (
      client_header frame.frame_id frame.width frame.height 1
          (frame_bytes frame)
          frame.capture_time_ns
          padding,
      frame.payload,
    )
unfolding decode_video_frame_to_image
decoded_image padding frame image e = ground arith

one_layer : (a size : ℕ) → size ≡ u64 (u64 a * 4) → size ≡ u64 (u64 (u64 a * 1) * 4)
one_layer a size e = omega arith

header_passes :
    (frame : EncodedVideoFrame) (padding : ℕ)
    → frame_bytes frame ≤ max_image_payload
    → valid_image_header (
        client_header frame.frame_id frame.width frame.height 1
          (frame_bytes frame)
          frame.capture_time_ns
          padding)
      ≡ true
unfolding valid_image_header client_header
header_passes frame padding h =
    ground (arith, one_layer (frame.width * frame.height) (frame_bytes frame) refl)

-- A video frame of at most 128 MiB that the host decodes becomes an image with the frame's payload as its
-- pixels, and with a header that says how many there are and that passes the image server's checks.
pub decoded_accepted :
    (padding : ℕ) (frame : EncodedVideoFrame) (image : ImageFrameHeader × List ℕ)
    → decode_video_frame_to_image padding frame ≡ some image
    → length frame.payload ≤ max_image_payload
    → (image.1 ≡ frame.payload)
      × (image.0.payload_size ≡ length image.1)
      × (valid_image_header image.0 ≡ true)
decoded_accepted padding frame image e h =
    let raw = decoded-IsRaw padding frame image e in
    rw (decoded_image padding frame image e) (
      refl,
      unfold client_header in sym raw.size,
      header_passes frame padding (omega (arith, raw.size)),
    )
