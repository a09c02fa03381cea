-- ===== src/Image/Examples.antt =====
-- Images sent and received, evaluated.
use axrb.Common.{◌*◌, ◌≤◌, ◌≡◌, refl, true, none, some, [], ◌∷◌, arith}
use axrb.Runtime.{Runtime, loaded}
use axrb.Runtime.Frame.{Readback, maybe_send_swapchain_image, send_texture, readback_of}
use axrb.Video.Packet.{le_bytes}
use axrb.Image.Header.{ImageFrameHeader, image_header_bytes, valid_image_header}
use axrb.Image.Stream.{Connection, bytes_of}
use axrb.Image.Server.{ImageFrame, serve_with_callback}
use axrb.Image.Client.{client_header, sent_bytes}
use axrb.Image.Fragments.{NoEmpty}
use axrb.Image.Layout.{FitsImage, length-image_header_bytes}
use axrb.Image.Transfer.{IsSendableImage, stream_bytes, images_received}
use axrb.Image.Readback.{readback_accepted}

-- One pixel in one layer.
abbrev pixel_header : ImageFrameHeader
pixel_header = client_header 3 1 1 1 4 9 0

abbrev pixel : ImageFrame
pixel = (pixel_header, 255 ∷ 0 ∷ 0 ∷ 255 ∷ [])

pixel-FitsImage : FitsImage pixel_header
unfolding client_header
pixel-FitsImage = record {
  magic = omega arith;
  version = omega arith;
  type = omega arith;
  header_size = omega arith;
  width = omega arith;
  height = omega arith;
  layers = omega arith;
  format = omega arith;
  bytes_per_pixel = omega arith;
  reserved = omega arith;
  padding = omega arith;
  sequence = omega arith;
  monotonic_time_ns = omega arith;
  payload_size = omega arith;
}

pixel-IsSendableImage : IsSendableImage pixel
unfolding client_header valid_image_header
pixel-IsSendableImage = record { fits = pixel-FitsImage; valid = refl; size = refl }

-- The header, and the payload in two fragments.
abbrev pixel_stream : Connection
pixel_stream = image_header_bytes pixel_header ∷ (255 ∷ 0 ∷ []) ∷ (0 ∷ 255 ∷ []) ∷ []

pixel_stream-NoEmpty : NoEmpty pixel_stream
pixel_stream-NoEmpty =
    (omega (arith, length-image_header_bytes pixel_header), (omega arith, (omega arith, tt)))

pixel_stream-bytes_of : bytes_of pixel_stream ≡ stream_bytes (pixel ∷ [])
unfolding sent_bytes image_header_bytes le_bytes
pixel_stream-bytes_of = refl

images_received_example : serve_with_callback true 0 (some pixel_stream ∷ []) ≡ (pixel ∷ [], none)
images_received_example =
    images_received (pixel ∷ []) pixel_stream (pixel-IsSendableImage, tt) pixel_stream-NoEmpty
      pixel_stream-bytes_of

abbrev with_swapchain : Runtime
with_swapchain = record loaded {
  swapchain_created = true;
  swapchain_width = 1024;
  swapchain_height = 256;
  swapchain_array_size = 2;
  gl_swapchain_textures = record { first = 11; second = 12; third = 13 };
}

abbrev taken : Readback
taken = record {
  sequence = 0;
  source_texture = 11;
  width = 512;
  height = 256;
  layers = 2;
  payload_bytes = 1048576;
}

taken_sent : (maybe_send_swapchain_image with_swapchain).0 ≡ some taken
unfolding maybe_send_swapchain_image send_texture readback_of loaded
taken_sent = refl

readback_accepted_example :
    (valid_image_header (client_header 0 512 256 2 1048576 9 0) ≡ true)
    × (1048576 ≡ 512 * 256 * 2 * 4)
    × (1048576 ≤ 4 * 1024 * 1024)
readback_accepted_example = readback_accepted with_swapchain taken 9 0 taken_sent
