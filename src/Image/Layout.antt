-- ===== src/Image/Layout.antt =====
-- The 64 bytes of ImageFrameHeader of protocol/image_frame.h: what is written is read back.
use axrb.Common.{ℕ, ◌^◌, ◌<◌, ◌≡◌, [], append-nil, length, length-append}
use axrb.Video.Packet.{le_bytes, read_le}
use axrb.Video.Wire.{read_le-le_bytes, length-le_bytes}
use axrb.Image.Header.{ImageFrameHeader, image_header_bytes, read_image_header}

-- The fields have the widths of the struct.
pub record FitsImage (h : ImageFrameHeader) : Type 0 where
  pub magic : h.magic < 256 ^ 4
  pub version : h.version < 256 ^ 2
  pub type : h.type < 256 ^ 2
  pub header_size : h.header_size < 256 ^ 4
  pub width : h.width < 256 ^ 4
  pub height : h.height < 256 ^ 4
  pub layers : h.layers < 256 ^ 4
  pub format : h.format < 256 ^ 4
  pub bytes_per_pixel : h.bytes_per_pixel < 256 ^ 4
  pub reserved : h.reserved < 256 ^ 4
  pub padding : h.padding < 256 ^ 4
  pub sequence : h.sequence < 256 ^ 8
  pub monotonic_time_ns : h.monotonic_time_ns < 256 ^ 8
  pub payload_size : h.payload_size < 256 ^ 8

read_last : (x : ℕ) → x < 256 ^ 8 → read_le 8 (le_bytes 8 x) ≡ (x, [])
read_last x h = rw append-nil at (read_le-le_bytes 8 x [] h)

-- The image header that is written is the one that is read, where its fields fit their types.
pub read-image_header_bytes :
    (h : ImageFrameHeader) → FitsImage h → read_image_header (image_header_bytes h) ≡ h
unfolding image_header_bytes read_image_header
read-image_header_bytes h f = simp (
  read_le-le_bytes 4 h.magic _ f.magic,
  read_le-le_bytes 2 h.version _ f.version,
  read_le-le_bytes 2 h.type _ f.type,
  read_le-le_bytes 4 h.header_size _ f.header_size,
  read_le-le_bytes 4 h.width _ f.width,
  read_le-le_bytes 4 h.height _ f.height,
  read_le-le_bytes 4 h.layers _ f.layers,
  read_le-le_bytes 4 h.format _ f.format,
  read_le-le_bytes 4 h.bytes_per_pixel _ f.bytes_per_pixel,
  read_le-le_bytes 4 h.reserved _ f.reserved,
  read_le-le_bytes 4 h.padding _ f.padding,
  read_le-le_bytes 8 h.sequence _ f.sequence,
  read_le-le_bytes 8 h.monotonic_time_ns _ f.monotonic_time_ns,
  read_last h.payload_size f.payload_size,
)

pub length-image_header_bytes : (h : ImageFrameHeader) → length (image_header_bytes h) ≡ 64
unfolding image_header_bytes
length-image_header_bytes h = simp (length-append, length-le_bytes)
