-- ===== src/Video/Synthetic.antt =====
-- make_synthetic_encoded_frame and make_synthetic_rgba_frame of protocol/video_transport.cpp. `now` is
-- what the clock says.
use axrb.Common.{
  ℕ, zero, suc, ◌+◌, ◌-◌, ◌*◌, ◌/◌, ◌%◌, ◌≡◌, refl, ◌∙◌, u32, u64, true, List, [], ◌∷◌, length,
  replicate, overwrite, length-overwrite, length-replicate, ltb, ◌==◌, if◌then◌else◌,
}
use axrb.Video.Frame.{
  EncodedVideoFrame, k_encoded_video_codec_opaque_test, k_encoded_video_codec_axrb_rgba8,
}

-- The low byte.
abbrev pub u8 : ℕ → ℕ
u8 n = n % 256

-- The loop over the payload: how many bytes are left, and the next.
unfoldable pub opaque_bytes : ℕ → ℕ → ℕ → List ℕ
opaque_bytes frame_id zero i = []
opaque_bytes frame_id (suc left) i =
    u8 (u64 (u64 (frame_id * 31) + u32 (i * 17))) ∷ opaque_bytes frame_id left (i + 1)

unfoldable pub make_synthetic_encoded_frame : ℕ → ℕ → ℕ → ℕ → ℕ → EncodedVideoFrame
unfolding opaque_bytes
make_synthetic_encoded_frame frame_id now width height payload_size = record {
  stream_id = 1;
  codec = k_encoded_video_codec_opaque_test;
  frame_id = frame_id;
  capture_time_ns = now;
  width = width;
  height = height;
  key_frame = frame_id % 90 == 0;
  payload = opaque_bytes frame_id payload_size 0;
}

-- What a coordinate is divided by.
abbrev span : ℕ → ℕ
span n = if ltb 1 n then n - 1 else 1

module _ (tick width height : ℕ) where
  -- The four bytes of a pixel.
  unfoldable pub rgba_pixel : ℕ → ℕ → List ℕ
  rgba_pixel y x =
      u8 (u32 (x * 255) / span width)
      ∷ u8 (u32 (y * 255) / span height)
      ∷ (if u32 (x / 16 + y / 16 + tick) % 2 == 0 then 255 else u8 (u32 (tick * 7)))
      ∷ 255
      ∷ []

  -- The loop over `x`: how many are left, and the next.
  unfoldable pub rgba_row : ℕ → ℕ → ℕ → List ℕ → List ℕ
  unfolding rgba_pixel
  rgba_row y zero x payload = payload
  rgba_row y (suc left) x payload =
      rgba_row y left (x + 1) (overwrite payload (u64 (u64 (y * width + x) * 4)) (rgba_pixel y x))

  -- The loop over `y`.
  unfoldable pub rgba_rows : ℕ → ℕ → List ℕ → List ℕ
  unfolding rgba_row
  rgba_rows zero y payload = payload
  rgba_rows (suc left) y payload = rgba_rows left (y + 1) (rgba_row y width 0 payload)

unfoldable pub make_synthetic_rgba_frame : ℕ → ℕ → ℕ → ℕ → EncodedVideoFrame
unfolding rgba_rows
make_synthetic_rgba_frame frame_id now width height = record {
  stream_id = 1;
  codec = k_encoded_video_codec_axrb_rgba8;
  frame_id = frame_id;
  capture_time_ns = now;
  width = width;
  height = height;
  key_frame = true;
  payload =
      rgba_rows (u32 frame_id) width height height 0 (replicate (u64 (u64 (width * height) * 4)) 0);
}

length-rgba_row :
    (tick width height y left x : ℕ) (payload : List ℕ)
    → length (rgba_row tick width height y left x payload) ≡ length payload
unfolding rgba_row
length-rgba_row tick width height y zero x payload = refl
length-rgba_row tick width height y (suc left) x payload =
    length-rgba_row tick width height y left (x + 1) _
    ∙ length-overwrite payload (u64 (u64 (y * width + x) * 4)) (rgba_pixel tick width height y x)

length-rgba_rows :
    (tick width height left y : ℕ) (payload : List ℕ)
    → length (rgba_rows tick width height left y payload) ≡ length payload
unfolding rgba_rows
length-rgba_rows tick width height zero y payload = refl
length-rgba_rows tick width height (suc left) y payload =
    length-rgba_rows tick width height left (y + 1) (rgba_row tick width height y width 0 payload)
    ∙ length-rgba_row tick width height y width 0 payload

-- The payload is as large as the product of the sides says in 64 bits.
pub length-rgba_payload :
    (frame_id now width height : ℕ)
    → length (EncodedVideoFrame.payload (make_synthetic_rgba_frame frame_id now width height))
      ≡ u64 (u64 (width * height) * 4)
unfolding make_synthetic_rgba_frame
length-rgba_payload frame_id now width height =
    length-rgba_rows (u32 frame_id) width height height 0 _ ∙ length-replicate _ 0

two_columns :
    EncodedVideoFrame.payload (make_synthetic_rgba_frame 1 9 2 1)
    ≡ 0 ∷ 0 ∷ 7 ∷ 255 ∷ 255 ∷ 0 ∷ 7 ∷ 255 ∷ []
unfolding make_synthetic_rgba_frame
two_columns = refl
