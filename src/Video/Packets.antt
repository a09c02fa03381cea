-- ===== src/Video/Packets.antt =====
-- The packets that UdpVideoSender::send_frame of protocol/video_transport.cpp makes, as the receiver
-- reads them.
use axrb.Common.{
  ℕ, zero, suc, ◌+◌, ◌^◌, ◌≤◌, ◌<◌, ◌≡◌, refl, ap, ◌∙◌, true, List, [], ◌∷◌, length, take, drop,
  get_or-take, get_or-drop, length-take, length-drop, length-append, arith,
}
use axrb.Video.Frame.{EncodedVideoFrame}
use axrb.Video.Packet.{valid_packet, decode_header, encode_header, max_frame_size}
use axrb.Video.Receiver.{Receiver, receive_datagram, receive_packet, buffer_size}
use axrb.Video.Sender.{chunk_size_at, header_at, body_at, packet_at}
use axrb.Video.Wire.{Fits, decode-encode_header, length-encode_header}
use axrb.Video.Integrity.{IsPiece}

-- A frame that the sender takes, with fields of their machine types.
pub record IsSendable (f : EncodedVideoFrame) : Type 0 where
  pub stream_id : f.stream_id < 256 ^ 4
  pub codec : f.codec < 256 ^ 4
  pub frame_id : f.frame_id < 256 ^ 8
  pub capture_time_ns : f.capture_time_ns < 256 ^ 8
  pub width : f.width < 256 ^ 4
  pub height : f.height < 256 ^ 4
  pub some_bytes : 0 < length f.payload
  pub frame_fits : length f.payload ≤ max_frame_size

pub chunk_size_bounds :
    (f : EncodedVideoFrame) (off : ℕ)
    → IsSendable f
    → off < length f.payload
    → (0 < chunk_size_at f off)
      × (chunk_size_at f off ≤ 1200)
      × (off + chunk_size_at f off ≤ length f.payload)
chunk_size_bounds f off s h =
    (omega (arith, s.frame_fits), omega arith, omega (arith, s.frame_fits))

pub length-body_at :
    (f : EncodedVideoFrame) (off : ℕ)
    → IsSendable f
    → off < length f.payload
    → length (body_at f off) ≡ chunk_size_at f off
unfolding body_at
length-body_at f off s h = omega (
  arith,
  length-take (chunk_size_at f off) (drop off f.payload),
  length-drop off f.payload,
  chunk_size_bounds f off s h,
)

header_at-Fits :
    (f : EncodedVideoFrame) (off : ℕ)
    → IsSendable f
    → off < length f.payload
    → Fits (header_at f off)
unfolding header_at
header_at-Fits f off s h = record {
  magic = omega arith;
  version = omega arith;
  header_size = omega arith;
  stream_id = s.stream_id;
  codec = s.codec;
  frame_id = s.frame_id;
  capture_time_ns = s.capture_time_ns;
  width = s.width;
  height = s.height;
  frame_size = omega arith;
  chunk_offset = omega (arith, s.frame_fits);
  chunk_size = omega arith;
  flags = ground arith;
  reserved = omega arith;
  reserved2 = omega arith;
}

pub header_at-valid :
    (f : EncodedVideoFrame) (off : ℕ)
    → IsSendable f
    → off < length f.payload
    → valid_packet (header_at f off) (64 + chunk_size_at f off) ≡ true
unfolding header_at valid_packet
header_at-valid f off s h = ground (arith, chunk_size_bounds f off s h, s.frame_fits, s.some_bytes)

pub header_at-IsPiece :
    (f : EncodedVideoFrame) (off : ℕ)
    → IsSendable f
    → off < length f.payload
    → IsPiece f (header_at f off) (body_at f off)
unfolding header_at body_at
header_at-IsPiece f off s h = record {
  stream_id = refl;
  codec = refl;
  frame_id = refl;
  capture_time_ns = refl;
  width = refl;
  height = refl;
  key_frame = ground arith;
  frame_size = omega (arith, s.frame_fits);
  chunk_size = omega (arith, length-body_at f off s h, chunk_size_bounds f off s h);
  bytes = λ j p.
      get_or-take (chunk_size_at f off) (drop off f.payload) j 0 (omega arith)
      ∙ get_or-drop off f.payload j 0;
}

take_all : (n : ℕ) (xs : List ℕ) → length xs ≤ n → take n xs ≡ xs
take_all zero [] h = refl
take_all (suc n) [] h = refl
take_all zero (x ∷ xs) h = absurd (omega arith)
take_all (suc n) (x ∷ xs) h = ap (λ ys. x ∷ ys) (take_all n xs (omega arith))

length-packet_at :
    (f : EncodedVideoFrame) (off : ℕ)
    → IsSendable f
    → off < length f.payload
    → length (packet_at f off) ≡ 64 + chunk_size_at f off
unfolding packet_at
length-packet_at f off s h = omega (
  arith,
  length-append (encode_header (header_at f off)) (body_at f off),
  length-encode_header (header_at f off),
  length-body_at f off s h,
)

-- The receiver takes the datagram for the header and the chunk that the sender wrote.
pub receive-packet_at :
    (f : EncodedVideoFrame) (off : ℕ) (r : Receiver)
    → IsSendable f
    → off < length f.payload
    → receive_datagram (packet_at f off) r
      ≡ receive_packet (header_at f off) (body_at f off) (64 + chunk_size_at f off) r
unfolding receive_datagram
receive-packet_at f off r s h =
    let len = length-packet_at f off s h in
    let whole : take buffer_size (packet_at f off) ≡ packet_at f off =
      take_all buffer_size (packet_at f off) (omega (arith, len)) in
    let decoded : decode_header (packet_at f off) ≡ (header_at f off, body_at f off) =
      unfold packet_at in
      decode-encode_header (header_at f off) (body_at f off) (header_at-Fits f off s h) in
    rw (whole, len, decoded) refl

-- What the receiver's buffer decodes to.
pub decode-packet_at :
    (f : EncodedVideoFrame) (off : ℕ)
    → IsSendable f
    → off < length f.payload
    → decode_header (take buffer_size (packet_at f off)) ≡ (header_at f off, body_at f off)
decode-packet_at f off s h =
    rw
      (take_all buffer_size (packet_at f off)
        (omega (arith, length-packet_at f off s h, chunk_size_bounds f off s h)))
      (unfold packet_at in
        decode-encode_header (header_at f off) (body_at f off) (header_at-Fits f off s h))
