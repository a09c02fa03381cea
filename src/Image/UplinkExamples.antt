-- ===== src/Image/UplinkExamples.antt =====
-- Calls of the image client: a connection that breaks within the second frame, and a new one.
use axrb.Common.{ℕ, ◌+◌, ◌<◌, ◌^◌, ◌≡◌, refl, true, none, some, List, [], ◌∷◌, take, arith}
use axrb.Video.Packet.{le_bytes}
use axrb.Image.Header.{image_header_bytes, valid_image_header}
use axrb.Image.Layout.{FitsImage}
use axrb.Image.Stream.{Connection}
use axrb.Image.Server.{serve_with_callback}
use axrb.Image.Client.{client_header, sent_bytes}
use axrb.Image.Transfer.{IsSendableImage}
use axrb.Image.Uplink.{
  ConnectAnswer, no_socket, connects, ensure_image_connected, send_all, send_both, SendCall,
  frame_of, send_image_frame,
}
use axrb.Image.Whole.{SendsAll, send_calls, no_line}
use axrb.Image.Restarts.{Carries, frames_of, broken_connections_served}

-- One pixel, at a time in nanoseconds.
abbrev send_pixel : ℕ → ConnectAnswer → List ℕ → SendCall
send_pixel now answer sends = record {
  sequence = 3;
  width = 1;
  height = 1;
  layers = 1;
  payload = 255 ∷ 0 ∷ 0 ∷ 255 ∷ [];
  now = now;
  padding = 0;
  answer = answer;
  sends = sends;
}

abbrev start : ℕ
start = 5000000000

abbrev four_calls : List SendCall
four_calls =
    send_pixel start (connects 8) (60 ∷ 4 ∷ 4 ∷ [])
    ∷ send_pixel start (connects 9) (40 ∷ 0 ∷ [])
    ∷ send_pixel start (connects 9) []
    ∷ send_pixel (start + 2000000000) (connects 10) (64 ∷ 4 ∷ [])
    ∷ []

abbrev broken : Connection
broken =
    image_header_bytes (frame_of (send_pixel start no_socket [])).0
    ∷ (255 ∷ 0 ∷ 0 ∷ 255 ∷ [])
    ∷ take 40 (image_header_bytes (frame_of (send_pixel start no_socket [])).0)
    ∷ []

first_frame_only :
    frames_of (send_calls four_calls no_line).ended ≡ frame_of (send_pixel start no_socket []) ∷ []
unfolding send_calls send_image_frame ensure_image_connected send_both send_all image_header_bytes
    le_bytes
first_frame_only = refl

carries : Carries (send_calls four_calls no_line).ended (broken ∷ [])
unfolding send_calls send_image_frame ensure_image_connected send_both send_all image_header_bytes
    le_bytes sent_bytes
carries = (((omega arith, (omega arith, (omega arith, tt))), refl), tt)

fits :
    (now : ℕ) (answer : ConnectAnswer) (sends : List ℕ)
    → now < 2 ^ 64
    → FitsImage (frame_of (send_pixel now answer sends)).0
unfolding client_header
fits now answer sends h = record {
  magic = omega arith;
  version = omega arith;
  type = omega arith;
  header_size = omega arith;
  width = omega arith;
  height = omega arith;
  layers = omega arith;
  format = omega arith;
  bytes_per_pixel = omega arith;
  reserved = omega arith;
  padding = omega arith;
  sequence = omega arith;
  monotonic_time_ns = h;
  payload_size = omega arith;
}

sendable :
    (now : ℕ) (answer : ConnectAnswer) (sends : List ℕ)
    → now < 2 ^ 64
    → IsSendableImage (frame_of (send_pixel now answer sends))
unfolding client_header valid_image_header
sendable now answer sends h = record { fits = fits now answer sends h; valid = refl; size = refl }

four_calls-SendsAll : SendsAll four_calls
four_calls-SendsAll = (
  sendable start (connects 8) (60 ∷ 4 ∷ 4 ∷ []) (omega arith),
  (
    sendable start (connects 9) (40 ∷ 0 ∷ []) (omega arith),
    (
      sendable start (connects 9) [] (omega arith),
      (sendable (start + 2000000000) (connects 10) (64 ∷ 4 ∷ []) (omega arith), tt),
    ),
  ),
)

broken_connections_served_example :
    serve_with_callback true 0 (some broken ∷ [])
    ≡ (frames_of (send_calls four_calls no_line).ended, none)
broken_connections_served_example =
    broken_connections_served four_calls (broken ∷ []) four_calls-SendsAll carries
