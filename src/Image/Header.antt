-- ===== src/Image/Header.antt =====
-- ImageFrameHeader of protocol/image_frame.h, its 64 bytes, and the checks that TcpImageServer makes
-- in protocol/image_transport.cpp. Both ends are little-endian.
use axrb.Common.{ℕ, ◌*◌, u64, Bool, true, false, ◌||◌, not, List, ◌++◌, ltb, ◌==◌, if◌then◌else◌}
use axrb.Video.Packet.{le_bytes, read_le}

abbrev pub k_image_frame_magic : ℕ
k_image_frame_magic = 0x49585241

abbrev pub k_image_frame_version : ℕ
k_image_frame_version = 1

abbrev pub k_image_frame_type_rgba8 : ℕ
k_image_frame_type_rgba8 = 2

abbrev pub k_image_frame_format_rgba8 : ℕ
k_image_frame_format_rgba8 = 1

abbrev pub image_header_size : ℕ
image_header_size = 64

abbrev pub max_image_payload : ℕ
max_image_payload = 128 * 1024 * 1024

-- `padding` is the four bytes that align `sequence`.
pub record ImageFrameHeader : Type 0 where
  pub magic : ℕ
  pub version : ℕ
  pub type : ℕ
  pub header_size : ℕ
  pub width : ℕ
  pub height : ℕ
  pub layers : ℕ
  pub format : ℕ
  pub bytes_per_pixel : ℕ
  pub reserved : ℕ
  pub padding : ℕ
  pub sequence : ℕ
  pub monotonic_time_ns : ℕ
  pub payload_size : ℕ

-- The header as it lies in memory.
unfoldable pub image_header_bytes : ImageFrameHeader → List ℕ
image_header_bytes h =
    le_bytes 4 h.magic
    ++ (le_bytes 2 h.version
        ++ (le_bytes 2 h.type
            ++ (le_bytes 4 h.header_size
                ++ (le_bytes 4 h.width
                    ++ (le_bytes 4 h.height
                        ++ (le_bytes 4 h.layers
                            ++ (le_bytes 4 h.format
                                ++ (le_bytes 4 h.bytes_per_pixel
                                    ++ (le_bytes 4 h.reserved
                                        ++ (le_bytes 4 h.padding
                                            ++ (le_bytes 8 h.sequence
                                                ++ (le_bytes 8 h.monotonic_time_ns
                                                    ++ le_bytes 8 h.payload_size))))))))))))

unfoldable pub read_image_header : List ℕ → ImageFrameHeader
read_image_header b0 =
    let (magic, b1) = read_le 4 b0 in
    let (version, b2) = read_le 2 b1 in
    let (type, b3) = read_le 2 b2 in
    let (header_size, b4) = read_le 4 b3 in
    let (width, b5) = read_le 4 b4 in
    let (height, b6) = read_le 4 b5 in
    let (layers, b7) = read_le 4 b6 in
    let (format, b8) = read_le 4 b7 in
    let (bytes_per_pixel, b9) = read_le 4 b8 in
    let (reserved, b10) = read_le 4 b9 in
    let (padding, b11) = read_le 4 b10 in
    let (sequence, b12) = read_le 8 b11 in
    let (monotonic_time_ns, b13) = read_le 8 b12 in
    let (payload_size, b14) = read_le 8 b13 in
    record {
      magic = magic;
      version = version;
      type = type;
      header_size = header_size;
      width = width;
      height = height;
      layers = layers;
      format = format;
      bytes_per_pixel = bytes_per_pixel;
      reserved = reserved;
      padding = padding;
      sequence = sequence;
      monotonic_time_ns = monotonic_time_ns;
      payload_size = payload_size;
    }

-- The products are made in 64 bits.
unfoldable pub expected_size : ImageFrameHeader → ℕ
expected_size h = u64 (u64 (u64 (h.width * h.height) * h.layers) * h.bytes_per_pixel)

-- The two checks of a header; `type` is not checked.
unfoldable pub valid_image_header : ImageFrameHeader → Bool
unfolding expected_size
valid_image_header h =
    if not (h.magic == k_image_frame_magic)
      || (not (h.version == k_image_frame_version)
          || (not (h.header_size == image_header_size)
              || (not (h.format == k_image_frame_format_rgba8) || not (h.bytes_per_pixel == 4))))
    then false
    else if not (h.payload_size == expected_size h) || ltb max_image_payload h.payload_size
    then false
    else true
