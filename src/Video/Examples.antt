-- ===== src/Video/Examples.antt =====
-- Frames, packets and runs of the video transport, evaluated.
use axrb.Common.{ℕ, ◌+◌, ◌≤◌, ◌≡◌, ◌⊎◌, ◌↔◌, refl, u32, true, List, [], ◌∷◌, ◌++◌, length, arith}
use axrb.Video.Frame.{EncodedVideoFrame}
use axrb.Video.Packet.{encode_header, decode_header, read_le, le_bytes, valid_packet}
use axrb.Video.Receiver.{
  Frames, new_receiver, new_assembly, find_frame, erase, prepare, receive_packet, receive_datagram,
  accept, add_chunk, mark_chunk, mark_byte, deliver, store, evict,
}
use axrb.Video.Sender.{Sender, socket_is_open, header_at, body_at, packet_at, send_frame}
use axrb.Video.Loop.{
  Event, timeout, datagram, exits, waiting, receive_loop, receive, goes_on, received_bytes,
  after_frame,
}
use axrb.Video.Invariant.{ReceiverInv, new_receiver-Inv, receive_packet-Inv, chunk_in_bounds}
use axrb.Video.Exit.{receive_exit, empty_datagram_lem}
use axrb.Video.Delivery.{IsGenuine, AllSent, receive_intact}
use axrb.Video.Packets.{IsSendable, decode-packet_at, header_at-IsPiece}
use axrb.Video.RoundTrip.{all_accepted, datagrams, send_receive}

abbrev sample : EncodedVideoFrame
sample = record {
  stream_id = 1;
  codec = 100;
  frame_id = 41;
  capture_time_ns = 5;
  width = 2;
  height = 1;
  key_frame = true;
  payload = 7 ∷ 8 ∷ 9 ∷ [];
}

sample-IsSendable : IsSendable sample
sample-IsSendable = record {
  stream_id = omega arith;
  codec = omega arith;
  frame_id = omega arith;
  capture_time_ns = omega arith;
  width = omega arith;
  height = omega arith;
  some_bytes = omega arith;
  frame_fits = omega arith;
}

abbrev sender : Sender
sender = record { socket = 3 }

abbrev two_frames : Frames
two_frames = (9, new_assembly) ∷ (4, new_assembly) ∷ []

receive_packet-Inv_example :
    ReceiverInv (receive_packet (header_at sample 0) (body_at sample 0) 67 new_receiver).1
receive_packet-Inv_example =
    receive_packet-Inv (header_at sample 0) (body_at sample 0) 67 new_receiver new_receiver-Inv

chunk_in_bounds_example :
    (64 + (header_at sample 0).chunk_size ≤ 67)
    × ((header_at sample 0).chunk_offset + (header_at sample 0).chunk_size
        ≤ length (prepare (header_at sample 0) (find_frame 41 new_receiver.frames)).frame.payload)
    × ((header_at sample 0).chunk_offset + (header_at sample 0).chunk_size
        ≤ length (prepare (header_at sample 0) (find_frame 41 new_receiver.frames)).received)
unfolding header_at valid_packet prepare find_frame
chunk_in_bounds_example =
    chunk_in_bounds (header_at sample 0) 67 new_receiver new_receiver-Inv refl refl

send_receive_example :
    ((send_frame sender sample all_accepted).0 ≡ true)
    × (receive_loop 0 (datagrams (send_frame sender sample all_accepted).1) new_receiver ≡ (
      sample ∷ [],
      waiting,
      record new_receiver { completed = u32 (new_receiver.completed + 1) },
    ))
unfolding socket_is_open find_frame
send_receive_example =
    send_receive sample sender new_receiver sample-IsSendable refl refl (omega arith)

abbrev always_sample : ℕ → EncodedVideoFrame
always_sample _ = sample

packet_at-IsGenuine-sample : IsGenuine always_sample (packet_at sample 0)
packet_at-IsGenuine-sample =
    let decoded = decode-packet_at sample 0 sample-IsSendable (omega arith) in
    rw decoded (λ e. header_at-IsPiece sample 0 sample-IsSendable (omega arith))

empty-IsGenuine : IsGenuine always_sample []
unfolding decode_header read_le valid_packet
empty-IsGenuine = λ e. absurd (cc e)

-- A packet twice, a timeout before and an empty datagram between.
abbrev noisy : List Event
noisy = timeout ∷ datagram (packet_at sample 0) ∷ datagram [] ∷ datagram (packet_at sample 0) ∷ []

receive_intact_example : AllSent always_sample (receive true 0 noisy).0
receive_intact_example =
    receive_intact always_sample 0 noisy
      (packet_at-IsGenuine-sample, (empty-IsGenuine, (packet_at-IsGenuine-sample, tt)))

receive_exit_example :
    let out = receive true 1 (datagram (packet_at sample 0) ∷ []) in
    (length out.0 ≤ 1)
    × ((out.1 ≡ exits 0) ↔ (length out.0 ≡ 1))
    × ((out.1 ≡ exits 0) ⊎ ((out.1 ≡ exits 1) ⊎ (out.1 ≡ waiting)))
receive_exit_example =
    receive_exit 1 (datagram (packet_at sample 0) ∷ []) (omega arith) (omega arith)

-- The run of that example returns 0.
receive-sample : receive true 1 (datagram (packet_at sample 0) ∷ []) ≡ (sample ∷ [], exits 0)
unfolding receive receive_loop goes_on received_bytes after_frame receive_datagram receive_packet
    decode_header read_le encode_header le_bytes header_at body_at packet_at valid_packet find_frame
    prepare accept add_chunk mark_chunk mark_byte deliver store erase evict
receive-sample = refl

abbrev broken : List Event
broken = datagram (1 ∷ []) ∷ []

broken_waits : (receive_loop 2 broken new_receiver).1 ≡ waiting
unfolding receive_loop goes_on received_bytes after_frame receive_datagram receive_packet
    decode_header read_le valid_packet
broken_waits = refl

empty_datagram_lem_example :
    receive_loop 2 (broken ++ datagram [] ∷ datagram (packet_at sample 0) ∷ []) new_receiver
    ≡ ((receive_loop 2 broken new_receiver).0, exits 1, (receive_loop 2 broken new_receiver).2)
empty_datagram_lem_example =
    empty_datagram_lem 2 broken (datagram (packet_at sample 0) ∷ []) new_receiver (omega arith)
      broken_waits
