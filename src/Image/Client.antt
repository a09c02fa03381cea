-- ===== src/Image/Client.antt =====
-- ImageTransportClient::send_frame of android-runtime/session.cpp, on an open connection.
use axrb.Common.{ℕ, List, ◌++◌}
use axrb.Image.Header.{
  ImageFrameHeader, image_header_bytes, k_image_frame_magic, k_image_frame_version,
  k_image_frame_type_rgba8, k_image_frame_format_rgba8, image_header_size,
}

-- `now` is what the clock shows, and `padding` what lies in the padding.
unfoldable pub client_header : ℕ → ℕ → ℕ → ℕ → ℕ → ℕ → ℕ → ImageFrameHeader
client_header sequence width height layers payload_size now padding = record {
  magic = k_image_frame_magic;
  version = k_image_frame_version;
  type = k_image_frame_type_rgba8;
  header_size = image_header_size;
  width = width;
  height = height;
  layers = layers;
  format = k_image_frame_format_rgba8;
  bytes_per_pixel = 4;
  reserved = 0;
  padding = padding;
  sequence = sequence;
  monotonic_time_ns = now;
  payload_size = payload_size;
}

-- The bytes of the two `send_all` calls, where both succeed.
unfoldable pub sent_bytes : ImageFrameHeader → List ℕ → List ℕ
sent_bytes h payload = image_header_bytes h ++ payload
