-- ===== src/Video/Sender.antt =====
-- UdpVideoSender of protocol/video_transport.cpp: cutting a frame into packets.
use axrb.Common.{
  ℕ, zero, suc, ◌+◌, ◌-◌, ◌^◌, u16, u32, min, Bool, true, false, ◌||◌, ◌&&◌, not, List, [], ◌∷◌,
  ◌++◌, length, take, drop, ltb, ◌==◌, if◌then◌else◌, Option, none, some,
}
use axrb.Video.Frame.{EncodedVideoFrame}
use axrb.Video.Packet.{
  Header, encode_header, k_encoded_video_packet_magic, k_encoded_video_packet_version,
  k_encoded_video_header_size, k_encoded_video_payload_max, key_frame_flag, end_of_frame_flag,
  max_frame_size,
}

-- `socket` is 0 where there is none, and `invalid_socket` stands for -1.
pub record Sender : Type 0 where
  pub socket : ℕ

abbrev pub invalid_socket : ℕ
invalid_socket = 2 ^ 64 - 1

unfoldable pub socket_is_open : ℕ → Bool
socket_is_open socket = not (socket == 0) && not (socket == invalid_socket)

unfoldable pub close : Sender → Sender
unfolding socket_is_open
close s = if socket_is_open s.socket then record s { socket = 0 } else s

open_with : Option ℕ → Sender → Bool × Sender
open_with none s = (false, s)
open_with (some socket) s =
    if socket == invalid_socket then (false, s) else (true, record s { socket = socket })

-- `runtime_ok`: the socket library is there. `created`: the socket, where the host was resolved.
unfoldable pub open_sender : Bool → Option ℕ → Sender → Bool × Sender
unfolding close open_with
open_sender runtime_ok created s =
    if not runtime_ok then (false, close s) else open_with created (close s)

abbrev pub chunk_size_at : EncodedVideoFrame → ℕ → ℕ
chunk_size_at frame offset = min k_encoded_video_payload_max (u32 (length frame.payload) - offset)

-- The flags, of which each is a bit of its own.
abbrev pub flags_at : EncodedVideoFrame → ℕ → ℕ
flags_at frame offset =
    (if frame.key_frame then key_frame_flag else 0)
    + (if u32 (offset + chunk_size_at frame offset) == length frame.payload
        then end_of_frame_flag
        else 0)

unfoldable pub header_at : EncodedVideoFrame → ℕ → Header
header_at frame offset = record {
  magic = k_encoded_video_packet_magic;
  version = k_encoded_video_packet_version;
  header_size = k_encoded_video_header_size;
  stream_id = frame.stream_id;
  codec = frame.codec;
  frame_id = frame.frame_id;
  capture_time_ns = frame.capture_time_ns;
  width = frame.width;
  height = frame.height;
  frame_size = u32 (length frame.payload);
  chunk_offset = offset;
  chunk_size = u16 (chunk_size_at frame offset);
  flags = flags_at frame offset;
  reserved = 0;
  reserved2 = 0;
}

unfoldable pub body_at : EncodedVideoFrame → ℕ → List ℕ
body_at frame offset = take (chunk_size_at frame offset) (drop offset frame.payload)

-- The bytes that go to `sendto`.
unfoldable pub packet_at : EncodedVideoFrame → ℕ → List ℕ
unfolding header_at body_at
packet_at frame offset = encode_header (header_at frame offset) ++ body_at frame offset

-- The loop of send_frame, with the packets that it hands to `sendto`. `accepted` says at which
-- offsets `sendto` takes the whole packet.
unfoldable pub send_from : ℕ → EncodedVideoFrame → (ℕ → Bool) → ℕ → Bool × List (List ℕ)
send_from zero frame accepted offset = (true, [])
send_from (suc fuel) frame accepted offset =
    let next = send_from fuel frame accepted (u32 (offset + chunk_size_at frame offset)) in
    let sent : Bool × List (List ℕ) = (next.0, packet_at frame offset ∷ next.1) in
    if not (ltb offset (length frame.payload))
    then (true, [])
    else if not (accepted offset)
    then (false, packet_at frame offset ∷ [])
    else sent

is_empty : List ℕ → Bool
is_empty [] = true
is_empty (_ ∷ _) = false

-- A round for each byte is enough, since a chunk has one byte at least.
unfoldable pub send_frame : Sender → EncodedVideoFrame → (ℕ → Bool) → Bool × List (List ℕ)
unfolding socket_is_open is_empty send_from
send_frame s frame accepted =
    if not (socket_is_open s.socket)
      || (is_empty frame.payload || ltb max_frame_size (length frame.payload))
    then (false, [])
    else send_from (length frame.payload) frame accepted 0
