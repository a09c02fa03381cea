-- ===== src/Video/Wire.antt =====
-- The header's bytes: what is written is what is read back.
use axrb.Common.{
  ℕ, zero, suc, ◌/◌, ◌^◌, ◌<◌, ◌≡◌, refl, ap, List, ◌++◌, length, arith, append_assoc,
  length-append,
}
use native.Mathlib.Nat.{pow-suc}
use axrb.Video.Packet.{Header, le_bytes, read_le, encode_header, decode_header}

pub length-le_bytes : (k x : ℕ) → length (le_bytes k x) ≡ k
unfolding le_bytes
length-le_bytes zero x = refl
length-le_bytes (suc k) x = ap suc (length-le_bytes k (x / 256))

pub read_le-le_bytes :
    (k x : ℕ) (rest : List ℕ) → x < 256 ^ k → read_le k (le_bytes k x ++ rest) ≡ (x, rest)
unfolding le_bytes read_le
read_le-le_bytes zero x rest h = ground arith
read_le-le_bytes (suc k) x rest h =
    let small : x / 256 < 256 ^ k = omega (arith, pow-suc 256 k) in
    ground (arith, read_le-le_bytes k (x / 256) rest small)

-- The fields have the widths of the struct.
pub record Fits (h : Header) : Type 0 where
  pub magic : h.magic < 256 ^ 4
  pub version : h.version < 256 ^ 2
  pub header_size : h.header_size < 256 ^ 2
  pub stream_id : h.stream_id < 256 ^ 4
  pub codec : h.codec < 256 ^ 4
  pub frame_id : h.frame_id < 256 ^ 8
  pub capture_time_ns : h.capture_time_ns < 256 ^ 8
  pub width : h.width < 256 ^ 4
  pub height : h.height < 256 ^ 4
  pub frame_size : h.frame_size < 256 ^ 4
  pub chunk_offset : h.chunk_offset < 256 ^ 4
  pub chunk_size : h.chunk_size < 256 ^ 2
  pub flags : h.flags < 256 ^ 2
  pub reserved : h.reserved < 256 ^ 4
  pub reserved2 : h.reserved2 < 256 ^ 8

-- The header that is written is the one that is read, and the body follows it.
pub decode-encode_header :
    (h : Header) (body : List ℕ) → Fits h → decode_header (encode_header h ++ body) ≡ (h, body)
unfolding encode_header decode_header
decode-encode_header h body f = simp (
  append_assoc,
  read_le-le_bytes 4 h.magic _ f.magic,
  read_le-le_bytes 2 h.version _ f.version,
  read_le-le_bytes 2 h.header_size _ f.header_size,
  read_le-le_bytes 4 h.stream_id _ f.stream_id,
  read_le-le_bytes 4 h.codec _ f.codec,
  read_le-le_bytes 8 h.frame_id _ f.frame_id,
  read_le-le_bytes 8 h.capture_time_ns _ f.capture_time_ns,
  read_le-le_bytes 4 h.width _ f.width,
  read_le-le_bytes 4 h.height _ f.height,
  read_le-le_bytes 4 h.frame_size _ f.frame_size,
  read_le-le_bytes 4 h.chunk_offset _ f.chunk_offset,
  read_le-le_bytes 2 h.chunk_size _ f.chunk_size,
  read_le-le_bytes 2 h.flags _ f.flags,
  read_le-le_bytes 4 h.reserved _ f.reserved,
  read_le-le_bytes 8 h.reserved2 _ f.reserved2,
)

pub length-encode_header : (h : Header) → length (encode_header h) ≡ 64
unfolding encode_header
length-encode_header h = simp (length-append, length-le_bytes)
