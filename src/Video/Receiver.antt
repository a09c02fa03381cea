-- ===== src/Video/Receiver.antt =====
-- UdpVideoReceiver::receive of protocol/video_transport.cpp: reassembling frames from packets that
-- may be lost, repeated and out of order.
use axrb.Common.{
  ℕ, zero, suc, ◌+◌, ◌%◌, u32, Bool, true, false, Option, none, some, List, [], ◌∷◌, length, get_or,
  take, replicate, ltb, ◌==◌, not, if◌then◌else◌, set, overwrite,
}
use axrb.Video.Frame.{EncodedVideoFrame}
use axrb.Video.Packet.{Header, decode_header, valid_packet}

-- `received` has a 1 for each byte that has come.
pub record FrameAssembly : Type 0 where
  pub frame : EncodedVideoFrame
  pub received : List ℕ
  pub received_bytes : ℕ

-- `frames` is the map from frame ids, with distinct keys.
abbrev pub Frames : Type 0
Frames = List (ℕ × FrameAssembly)

pub record Receiver : Type 0 where
  pub frames : Frames
  pub completed : ℕ
  pub invalid_packets : ℕ

abbrev pub new_receiver : Receiver
new_receiver = record { frames = []; completed = 0; invalid_packets = 0 }

-- What `frames[id]` makes.
abbrev pub new_assembly : FrameAssembly
new_assembly = record {
  frame = record {
    stream_id = 1;
    codec = 0;
    frame_id = 0;
    capture_time_ns = 0;
    width = 0;
    height = 0;
    key_frame = false;
    payload = [];
  };
  received = [];
  received_bytes = 0;
}

unfoldable pub find_frame : ℕ → Frames → Option FrameAssembly
find_frame id [] = none
find_frame id ((k, a) ∷ rest) = if k == id then some a else find_frame id rest

unfoldable pub store : ℕ → FrameAssembly → Frames → Frames
store id a [] = (id, a) ∷ []
store id a ((k, b) ∷ rest) = if k == id then (id, a) ∷ rest else (k, b) ∷ store id a rest

unfoldable pub erase : ℕ → Frames → Frames
erase id [] = []
erase id ((k, a) ∷ rest) = if k == id then rest else (k, a) ∷ erase id rest

-- The key of `min_element`, from the best so far.
unfoldable pub oldest : ℕ → Frames → ℕ
oldest best [] = best
oldest best ((k, a) ∷ rest) = oldest (if ltb k best then k else best) rest

unfoldable pub evict_once : Frames → Frames
unfolding erase oldest
evict_once [] = []
evict_once ((k, a) ∷ rest) = erase (oldest k rest) ((k, a) ∷ rest)

-- `while (frames.size() > 8) …`, with the number of rounds left.
unfoldable pub evict : ℕ → Frames → Frames
unfolding evict_once
evict zero frames = frames
evict (suc n) frames = elim (ltb 8 (length frames)) [
  | true ↦ evict n (evict_once frames)
  | false ↦ frames
]

is_empty : List ℕ → Bool
is_empty [] = true
is_empty (_ ∷ _) = false

start_assembly : Header → FrameAssembly → FrameAssembly
start_assembly header a = record a {
  frame = record {
    stream_id = header.stream_id;
    codec = header.codec;
    frame_id = header.frame_id;
    capture_time_ns = header.capture_time_ns;
    width = header.width;
    height = header.height;
    key_frame = not (header.flags % 2 == 0);
    payload = replicate header.frame_size 0;
  };
  received = replicate header.frame_size 0;
}

-- The first packet of a frame sets up its assembly.
unfoldable pub prepare : Header → Option FrameAssembly → FrameAssembly
unfolding start_assembly is_empty
prepare header none = start_assembly header new_assembly
prepare header (some a) = if is_empty a.frame.payload then start_assembly header a else a

-- One round of the loop that counts bytes which had not come before.
unfoldable pub mark_byte : ℕ → List ℕ × ℕ → List ℕ × ℕ
mark_byte i (received, count) =
    if get_or received i 1 == 0 then (set received i 1, u32 (count + 1)) else (received, count)

unfoldable pub mark_chunk : ℕ → ℕ → List ℕ × ℕ → List ℕ × ℕ
unfolding mark_byte
mark_chunk zero i marks = marks
mark_chunk (suc n) i marks = mark_chunk n (i + 1) (mark_byte i marks)

-- The bytes of the chunk are the first `chunk_size` behind the header.
unfoldable pub add_chunk : Header → List ℕ → FrameAssembly → FrameAssembly
unfolding mark_chunk
add_chunk header body a =
    let (received, count) =
      mark_chunk header.chunk_size header.chunk_offset (a.received, a.received_bytes) in
    record {
      frame = record a.frame {
        payload = overwrite a.frame.payload header.chunk_offset (take header.chunk_size body);
      };
      received = received;
      received_bytes = count;
    }

-- Eviction needs a round for each frame beyond eight at most.
abbrev pub trim : Frames → Frames
trim frames = evict (length frames) frames

unfoldable pub deliver : ℕ → FrameAssembly → Receiver → Option EncodedVideoFrame × Receiver
unfolding store erase evict
deliver id a r =
    let frames = store id a r.frames in
    if a.received_bytes == length a.frame.payload
    then (
      some a.frame,
      record r { frames = trim (erase id frames); completed = u32 (r.completed + 1) },
    )
    else (none, record r { frames = trim frames })

-- A packet whose frame size is not that of the assembly drops the whole frame.
unfoldable pub accept :
    Header → List ℕ → FrameAssembly → Receiver → Option EncodedVideoFrame × Receiver
unfolding add_chunk deliver erase
accept header body a r =
    if not (length a.frame.payload == header.frame_size)
    then (none, record r { frames = erase header.frame_id r.frames })
    else deliver header.frame_id (add_chunk header body a) r

-- What one packet does, with the frame that goes to the callback.
unfoldable pub receive_packet : Header → List ℕ → ℕ → Receiver → Option EncodedVideoFrame × Receiver
unfolding valid_packet find_frame prepare accept
receive_packet header body received r =
    if not (valid_packet header received)
    then (none, record r { invalid_packets = u32 (r.invalid_packets + 1) })
    else accept header body (prepare header (find_frame header.frame_id r.frames)) r

-- `recv` cuts a datagram to the size of the buffer.
abbrev pub buffer_size : ℕ
buffer_size = 64 + 1200

unfoldable pub receive_datagram : List ℕ → Receiver → Option EncodedVideoFrame × Receiver
receive_datagram bytes r =
    let buffer = take buffer_size bytes in
    let (header, body) = decode_header buffer in receive_packet header body (length buffer) r
