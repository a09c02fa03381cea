-- ===== src/Video/Packet.antt =====
-- protocol/video_packet.h: the 64-byte packet header and its bytes on the wire, and `valid_packet` of
-- protocol/video_transport.cpp. Both ends are little-endian, and the header is copied as it lies.
use axrb.Common.{
  ℕ, zero, suc, ◌+◌, ◌-◌, ◌*◌, ◌/◌, ◌%◌, Bool, true, false, ◌||◌, List, [], ◌∷◌, ◌++◌, ltb, ◌==◌,
  not, if◌then◌else◌,
}

abbrev pub k_encoded_video_packet_magic : ℕ
k_encoded_video_packet_magic = 0x56525841

abbrev pub k_encoded_video_packet_version : ℕ
k_encoded_video_packet_version = 1

abbrev pub k_encoded_video_header_size : ℕ
k_encoded_video_header_size = 64

abbrev pub k_encoded_video_payload_max : ℕ
k_encoded_video_payload_max = 1200

-- kEncodedVideoPacketKeyFrame and kEncodedVideoPacketEndOfFrame
abbrev pub key_frame_flag : ℕ
key_frame_flag = 1

abbrev pub end_of_frame_flag : ℕ
end_of_frame_flag = 2

abbrev pub max_frame_size : ℕ
max_frame_size = 64 * 1024 * 1024

-- EncodedVideoPacketHeader
pub record Header : Type 0 where
  pub magic : ℕ
  pub version : ℕ
  pub header_size : ℕ
  pub stream_id : ℕ
  pub codec : ℕ
  pub frame_id : ℕ
  pub capture_time_ns : ℕ
  pub width : ℕ
  pub height : ℕ
  pub frame_size : ℕ
  pub chunk_offset : ℕ
  pub chunk_size : ℕ
  pub flags : ℕ
  pub reserved : ℕ
  pub reserved2 : ℕ

-- The low bytes of a number, lowest first.
unfoldable pub le_bytes : ℕ → ℕ → List ℕ
le_bytes zero x = []
le_bytes (suc k) x = (x % 256) ∷ le_bytes k (x / 256)

-- A field read from a buffer that is filled up with zeros, and the bytes behind it.
unfoldable pub read_le : ℕ → List ℕ → ℕ × List ℕ
read_le zero bytes = (0, bytes)
read_le (suc k) [] = (0, [])
read_le (suc k) (b ∷ bytes) = let (x, rest) = read_le k bytes in (b + 256 * x, rest)

-- `memcpy` of the header into the packet.
unfoldable pub encode_header : Header → List ℕ
encode_header h =
    le_bytes 4 h.magic
    ++ (le_bytes 2 h.version
        ++ (le_bytes 2 h.header_size
            ++ (le_bytes 4 h.stream_id
                ++ (le_bytes 4 h.codec
                    ++ (le_bytes 8 h.frame_id
                        ++ (le_bytes 8 h.capture_time_ns
                            ++ (le_bytes 4 h.width
                                ++ (le_bytes 4 h.height
                                    ++ (le_bytes 4 h.frame_size
                                        ++ (le_bytes 4 h.chunk_offset
                                            ++ (le_bytes 2 h.chunk_size
                                                ++ (le_bytes 2 h.flags
                                                    ++ (le_bytes 4 h.reserved
                                                        ++ le_bytes 8 h.reserved2)))))))))))))

-- The view of the receive buffer as a header, and the bytes behind the header.
unfoldable pub decode_header : List ℕ → Header × List ℕ
decode_header b0 =
    let (magic, b1) = read_le 4 b0 in
    let (version, b2) = read_le 2 b1 in
    let (header_size, b3) = read_le 2 b2 in
    let (stream_id, b4) = read_le 4 b3 in
    let (codec, b5) = read_le 4 b4 in
    let (frame_id, b6) = read_le 8 b5 in
    let (capture_time_ns, b7) = read_le 8 b6 in
    let (width, b8) = read_le 4 b7 in
    let (height, b9) = read_le 4 b8 in
    let (frame_size, b10) = read_le 4 b9 in
    let (chunk_offset, b11) = read_le 4 b10 in
    let (chunk_size, b12) = read_le 2 b11 in
    let (flags, b13) = read_le 2 b12 in
    let (reserved, b14) = read_le 4 b13 in
    let (reserved2, b15) = read_le 8 b14 in
    (
      record {
        magic = magic;
        version = version;
        header_size = header_size;
        stream_id = stream_id;
        codec = codec;
        frame_id = frame_id;
        capture_time_ns = capture_time_ns;
        width = width;
        height = height;
        frame_size = frame_size;
        chunk_offset = chunk_offset;
        chunk_size = chunk_size;
        flags = flags;
        reserved = reserved;
        reserved2 = reserved2;
      },
      b15,
    )

-- The subtraction is made only where the offset is at most the frame size.
unfoldable pub valid_packet : Header → ℕ → Bool
valid_packet header packet_size =
    if not (header.magic == k_encoded_video_packet_magic)
      || (not (header.version == k_encoded_video_packet_version)
          || not (header.header_size == k_encoded_video_header_size))
    then false
    else if header.chunk_size == 0
        || (ltb k_encoded_video_payload_max header.chunk_size
            || not (packet_size == k_encoded_video_header_size + header.chunk_size))
    then false
    else if header.frame_size == 0
        || (ltb max_frame_size header.frame_size
            || (ltb header.frame_size header.chunk_offset
                || ltb (header.frame_size - header.chunk_offset) header.chunk_size))
    then false
    else true
