-- ===== src/Host/Examples.antt =====
-- A raw video frame of one pixel, decoded.
use axrb.Common.{ℕ, ◌≡◌, refl, true, some, List, [], ◌∷◌}
use axrb.Video.Frame.{EncodedVideoFrame}
use axrb.Image.Header.{ImageFrameHeader}
use axrb.Image.Client.{client_header}
use axrb.Host.Decode.{decode_video_frame_to_image}

abbrev raw_pixel : EncodedVideoFrame
raw_pixel = record {
  stream_id = 1;
  codec = 100;
  frame_id = 2;
  capture_time_ns = 9;
  width = 1;
  height = 1;
  key_frame = true;
  payload = 255 ∷ 0 ∷ 0 ∷ 255 ∷ [];
}

abbrev pixel_image : ImageFrameHeader × List ℕ
pixel_image = (client_header 2 1 1 1 4 9 0, 255 ∷ 0 ∷ 0 ∷ 255 ∷ [])

raw_pixel_decoded : decode_video_frame_to_image 0 raw_pixel ≡ some pixel_image
unfolding decode_video_frame_to_image
raw_pixel_decoded = refl
