-- ===== src/Video/RoundTrip.antt =====
-- A frame from UdpVideoSender::send_frame to the callback of UdpVideoReceiver::receive.
use axrb.Common.{
  ℕ, zero, suc, ◌+◌, ◌≤◌, ◌<◌, ◌≡◌, refl, ap, ◌∙◌, u32, Bool, true, false, none, some, List, [],
  ◌∷◌, ◌++◌, map, length, arith, ltb, ◌==◌, ==_iff, lt→ltb, ltb→lt, Bool-cases, inl, inr,
}
use axrb.Video.Frame.{EncodedVideoFrame}
use axrb.Video.Packet.{encode_header, le_bytes}
use axrb.Video.Receiver.{Frames, Receiver, find_frame, receive_datagram}
use axrb.Video.Sender.{Sender, socket_is_open, chunk_size_at, packet_at, send_from, send_frame}
use axrb.Video.Loop.{
  Event, datagram, waiting, Result, receive_loop, received_bytes, after_frame, goes_on,
}
use axrb.Video.Integrity.{complete_frame}
use axrb.Video.Packets.{IsSendable, chunk_size_bounds}
use axrb.Video.Progress.{
  Progress, Ready, Progress-bytes, add_chunk-Progress, first-Ready, next-Ready, packet_added,
  extended, deliver_open, deliver_full,
}

low_test : (a b : ℕ) → a < b → (a == b) ≡ false
low_test a b h = ground arith

abbrev next_offset : EncodedVideoFrame → ℕ → ℕ
next_offset f off = off + chunk_size_at f off

module _ (f : EncodedVideoFrame) (fs : Frames) (s : IsSendable f)
    (new : find_frame f.frame_id fs ≡ none) (few : length fs < 8) where
  extended-Progress :
      (off : ℕ) (r : Receiver)
      → off < length f.payload
      → Ready f fs off r
      → Progress f (next_offset f off) (extended f off r)
  extended-Progress off r h ready = add_chunk-Progress f off _ s h ready.prepared

  extended_bytes :
      (off : ℕ) (r : Receiver)
      → off < length f.payload
      → Ready f fs off r
      → ((extended f off r).received_bytes ≡ next_offset f off)
        × (length (extended f off r).frame.payload ≡ length f.payload)
  extended_bytes off r h ready =
      let p = extended-Progress off r h ready in
      (Progress-bytes f (next_offset f off) _ (chunk_size_bounds f off s h).2 p, p.part.size)

  -- A packet before the last.
  packet_open :
      (off : ℕ) (r : Receiver)
      → next_offset f off < length f.payload
      → Ready f fs off r
      → receive_datagram (packet_at f off) r
        ≡ (none, record r { frames = fs ++ (f.frame_id, extended f off r) ∷ [] })
  packet_open off r h ready =
      let b = extended_bytes off r (omega arith) ready in
      packet_added f fs off r s (omega arith) ready
      ∙ deliver_open f.frame_id (extended f off r) fs r (low_test _ _ (omega (arith, b)))
          (ready.stores _) few

  -- The last packet.
  packet_full :
      (off : ℕ) (r : Receiver)
      → off < length f.payload
      → next_offset f off ≡ length f.payload
      → Ready f fs off r
      → receive_datagram (packet_at f off) r
        ≡ (some f, record r { frames = fs; completed = u32 (r.completed + 1) })
  packet_full off r h e ready =
      let b = extended_bytes off r h ready in
      let p = extended-Progress off r h ready in
      let full : (extended f off r).received_bytes ≡ length (extended f off r).frame.payload =
        omega (arith, b, e) in
      packet_added f fs off r s h ready
      ∙ deliver_full f.frame_id (extended f off r) fs r ((==_iff _ _).1 full) (ready.stores _) new
          few
      ∙ ap (λ g. (some g, record r { frames = fs; completed = u32 (r.completed + 1) }))
          (complete_frame f (extended f off r) p.alloc p.part full)

packet_comes :
    (f : EncodedVideoFrame) (off : ℕ)
    → received_bytes (datagram (packet_at f off)) ≡ some (packet_at f off)
unfolding received_bytes packet_at encode_header le_bytes
packet_comes f off = refl

loop_packet :
    (f : EncodedVideoFrame) (off : ℕ) (events : List Event) (r : Receiver)
    → receive_loop 0 (datagram (packet_at f off) ∷ events) r
      ≡ after_frame
          (receive_datagram (packet_at f off) r).0
          (receive_loop 0 events (receive_datagram (packet_at f off) r).1)
unfolding receive_loop goes_on
loop_packet f off events r = rw (packet_comes f off, receive_loop) refl

after_none : (out : Result) → after_frame none out ≡ out
unfolding after_frame
after_none out = refl

-- Every packet is taken by `sendto`.
abbrev pub all_accepted : ℕ → Bool
all_accepted _ = true

abbrev pub datagrams : List (List ℕ) → List Event
datagrams = map datagram

send_next :
    (fuel : ℕ) (f : EncodedVideoFrame) (off : ℕ)
    → IsSendable f
    → off < length f.payload
    → send_from (suc fuel) f all_accepted off ≡ (
      (send_from fuel f all_accepted (next_offset f off)).0,
      packet_at f off ∷ (send_from fuel f all_accepted (next_offset f off)).1,
    )
unfolding send_from
send_next fuel f off s h =
    let whole : u32 (off + chunk_size_at f off) ≡ next_offset f off =
      omega (arith, chunk_size_bounds f off s h, s.frame_fits) in
    rw (lt→ltb off (length f.payload) h, whole) refl

send_end :
    (fuel : ℕ) (f : EncodedVideoFrame) (off : ℕ)
    → off ≡ length f.payload
    → send_from fuel f all_accepted off ≡ (true, [])
unfolding send_from
send_end zero f off e = refl
send_end (suc fuel) f off e = ground arith

module _ (f : EncodedVideoFrame) (fs : Frames) (s : IsSendable f)
    (new : find_frame f.frame_id fs ≡ none) (few : length fs < 8) where
  -- The rest of the packets, from the one at `off` on.
  transfer_from :
      (fuel off : ℕ) (r : Receiver)
      → off < length f.payload
      → length f.payload ≤ off + fuel
      → Ready f fs off r
      → (send_from fuel f all_accepted off).0 ≡ true
        × (receive_loop 0 (datagrams (send_from fuel f all_accepted off).1) r
            ≡ (f ∷ [], waiting, record r { frames = fs; completed = u32 (r.completed + 1) }))
  transfer_from zero off r h enough ready = absurd (omega arith)
  transfer_from (suc fuel) off r h enough ready =
      let c = chunk_size_bounds f off s h in
      elim (Bool-cases (ltb (next_offset f off) (length f.payload))) [
        | inl more ↦
            let low : next_offset f off < length f.payload = ltb→lt _ _ more in
            let a = extended f off r in
            let r' = record r { frames = fs ++ (f.frame_id, a) ∷ [] } in
            let rest = transfer_from fuel (next_offset f off) r' low (omega (arith, c)) (
              next-Ready f fs (next_offset f off) a r new
                (extended-Progress f fs s new few off r h ready)) in
            rw (send_next fuel f off s h) (
              rest.0,
              loop_packet f off (datagrams (send_from fuel f all_accepted (next_offset f off)).1) r
                  ∙ rw (packet_open f fs s new few off r low ready) (after_none _ ∙ rest.1),
            )
        | inr last ↦
            let e : next_offset f off ≡ length f.payload = ground (arith, c) in
            rw (send_next fuel f off s h, send_end fuel f (next_offset f off) e)
              (
                refl,
                loop_packet f off [] r
                    ∙ rw (packet_full f fs s new few off r h e ready)
                        (unfold after_frame receive_loop goes_on in refl),
              )
      ]

sendable_sent :
    (f : EncodedVideoFrame) (s : Sender)
    → IsSendable f
    → socket_is_open s.socket ≡ true
    → send_frame s f all_accepted ≡ send_from (length f.payload) f all_accepted 0
unfolding send_frame
sendable_sent f s v o = ground (arith, v.some_bytes, v.frame_fits)

-- A frame of at most 64 MiB that send_frame cuts into packets, each taken by `sendto`, is delivered
-- once and whole by a receive loop without a limit that gets the packets in order and holds no packet
-- of that frame id and fewer than eight frames; the frames that it holds are left as they were.
pub send_receive :
    (f : EncodedVideoFrame) (s : Sender) (r : Receiver)
    → IsSendable f
    → socket_is_open s.socket ≡ true
    → find_frame f.frame_id r.frames ≡ none
    → length r.frames < 8
    → ((send_frame s f all_accepted).0 ≡ true)
      × (receive_loop 0 (datagrams (send_frame s f all_accepted).1) r
          ≡ (f ∷ [], waiting, record r { completed = u32 (r.completed + 1) }))
send_receive f s r v o new few = rw (sendable_sent f s v o) (
    transfer_from f r.frames v new few (length f.payload) 0 r v.some_bytes (omega arith)
      (first-Ready f r v new))
