-- ===== src/Video/Progress.antt =====
-- UdpVideoReceiver::receive of protocol/video_transport.cpp on the packets of UdpVideoSender::send_frame:
-- how a frame grows, packet by packet.
use axrb.Common.{
  ℕ, zero, suc, ◌+◌, ◌≤◌, ◌<◌, ◌≡◌, refl, sym, ap, ◌∙◌, u16, u32, true, false, ◌||◌, none, some,
  List, [], ◌∷◌, ◌++◌, length, length-append, get_or-replicate, arith, ltb, ◌==◌, ==_iff,
}
use axrb.Video.Frame.{EncodedVideoFrame}
use axrb.Video.Packet.{Header, valid_packet}
use axrb.Video.Receiver.{
  FrameAssembly, Frames, Receiver, find_frame, store, erase, prepare, add_chunk, accept, deliver,
  receive_packet, receive_datagram,
}
use axrb.Video.Sender.{chunk_size_at, header_at, body_at, packet_at}
use axrb.Video.Marks.{marked, is_marked, in_range, mark_chunk-Marks}
use axrb.Video.Table.{evict_few}
use axrb.Video.Invariant.{
  InFrame, valid_packet-InFrame, IsAllocated, start-Prepared, add_chunk-IsAllocated,
}
use axrb.Video.Integrity.{IsPart, start-IsPart, add_chunk-IsPart}
use axrb.Video.Packets.{
  IsSendable, chunk_size_bounds, header_at-valid, header_at-IsPiece, receive-packet_at,
}

stored_new :
    (id : ℕ) (a : FrameAssembly) (fs : Frames)
    → find_frame id fs ≡ none
    → store id a fs ≡ fs ++ (id, a) ∷ []
unfolding find_frame store
stored_new id a [] e = refl
stored_new id a ((k, b) ∷ fs) e = ground (arith, stored_new id a fs)

stored_again :
    (id : ℕ) (a b : FrameAssembly) (fs : Frames)
    → find_frame id fs ≡ none
    → store id b (fs ++ (id, a) ∷ []) ≡ fs ++ (id, b) ∷ []
unfolding find_frame store
stored_again id a b [] e = ground arith
stored_again id a b ((k, c) ∷ fs) e = ground (arith, stored_again id a b fs)

found_added :
    (id : ℕ) (a : FrameAssembly) (fs : Frames)
    → find_frame id fs ≡ none
    → find_frame id (fs ++ (id, a) ∷ []) ≡ some a
unfolding find_frame
found_added id a [] e = ground arith
found_added id a ((k, c) ∷ fs) e = ground (arith, found_added id a fs)

erased_added :
    (id : ℕ) (a : FrameAssembly) (fs : Frames)
    → find_frame id fs ≡ none
    → erase id (fs ++ (id, a) ∷ []) ≡ fs
unfolding find_frame erase
erased_added id a [] e = ground arith
erased_added id a ((k, c) ∷ fs) e = ground (arith, erased_added id a fs)

-- Exactly the first `off` bytes have come.
abbrev pub IsPrefix : ℕ → List ℕ → Type 0
IsPrefix off ms = (j : ℕ) → is_marked ms j ≡ ltb j off

marked_prefix : (off : ℕ) (ms : List ℕ) → off ≤ length ms → IsPrefix off ms → marked ms ≡ off
marked_prefix zero [] h p = refl
marked_prefix (suc off) [] h p = absurd (omega arith)
marked_prefix zero (m ∷ ms) h p =
    ground (arith, p 0, marked_prefix zero ms (omega arith) (λ j. ground (arith, p (suc j))))
marked_prefix (suc off) (m ∷ ms) h p =
    ground (arith, p 0, marked_prefix off ms (omega arith) (λ j. ground (arith, p (suc j))))

pub record Progress (f : EncodedVideoFrame) (off : ℕ) (a : FrameAssembly) : Type 0 where
  pub part : IsPart f a
  pub alloc : IsAllocated a
  pub own : a.frame.frame_id ≡ f.frame_id
  pub begun : IsPrefix off a.received

pub Progress-bytes :
    (f : EncodedVideoFrame) (off : ℕ) (a : FrameAssembly)
    → off ≤ length f.payload
    → Progress f off a
    → a.received_bytes ≡ off
Progress-bytes f off a h p =
    p.alloc.counted
    ∙ marked_prefix off a.received (omega (arith, p.alloc.flags, p.part.size)) p.begun

header_at-InFrame :
    (f : EncodedVideoFrame) (off : ℕ)
    → IsSendable f
    → off < length f.payload
    → InFrame (header_at f off) (64 + chunk_size_at f off)
header_at-InFrame f off s h =
    valid_packet-InFrame (header_at f off) (64 + chunk_size_at f off) (header_at-valid f off s h)

range_grown : (off n j : ℕ) → n ≤ 1200 → (ltb j off || in_range off (u16 n) j) ≡ ltb j (off + n)
range_grown off n j h = ground arith

prefix_grown :
    (f : EncodedVideoFrame) (off : ℕ) (a : FrameAssembly)
    → IsSendable f
    → off < length f.payload
    → Progress f off a
    → IsPrefix (off + chunk_size_at f off) (add_chunk (header_at f off) (body_at f off) a).received
unfolding add_chunk header_at
prefix_grown f off a s h p =
    let c = chunk_size_bounds f off s h in
    let m =
      mark_chunk-Marks (u16 (chunk_size_at f off)) off a.received a.received_bytes
        (omega (arith, c, p.alloc.flags, p.part.size))
        (omega (arith, p.alloc.bounded, p.alloc.flags)) p.alloc.counted in
    λ j.
      m.marks j
      ∙ ap (λ b. b || in_range off (u16 (chunk_size_at f off)) j) (p.begun j)
      ∙ range_grown off (chunk_size_at f off) j c.1

pub add_chunk-Progress :
    (f : EncodedVideoFrame) (off : ℕ) (a : FrameAssembly)
    → IsSendable f
    → off < length f.payload
    → Progress f off a
    → Progress f (off + chunk_size_at f off) (add_chunk (header_at f off) (body_at f off) a)
add_chunk-Progress f off a s h p =
    let v = header_at-InFrame f off s h in
    let piece = header_at-IsPiece f off s h in
    let size : length a.frame.payload ≡ (header_at f off).frame_size =
      p.part.size ∙ sym piece.frame_size in
    record {
      part =
          add_chunk-IsPart f (header_at f off) (64 + chunk_size_at f off) (body_at f off) a v piece
            p.alloc size p.part;
      alloc =
          add_chunk-IsAllocated (header_at f off) (64 + chunk_size_at f off) (body_at f off) a v
            p.alloc size;
      own = unfold add_chunk in p.own;
      begun = prefix_grown f off a s h p;
    }

-- What a receiver that holds `fs` besides the frame needs to take the packet at `off`.
pub record Ready (f : EncodedVideoFrame) (fs : Frames) (off : ℕ) (r : Receiver) : Type 0 where
  pub stores : (a : FrameAssembly) → store f.frame_id a r.frames ≡ fs ++ (f.frame_id, a) ∷ []
  pub prepared : Progress f off (prepare (header_at f off) (find_frame f.frame_id r.frames))

prepare_allocated : (h : Header) (a : FrameAssembly) → IsAllocated a → prepare h (some a) ≡ a
unfolding prepare
prepare_allocated h a w = ground (arith, w.allocated)

start-Progress :
    (f : EncodedVideoFrame) → IsSendable f → Progress f 0 (prepare (header_at f 0) none)
unfolding prepare
start-Progress f s =
    let piece = header_at-IsPiece f 0 s s.some_bytes in
    let part = start-IsPart f (header_at f 0) (body_at f 0) piece in
    record {
      part = part;
      alloc =
          (start-Prepared (header_at f 0) (64 + chunk_size_at f 0)
            (header_at-InFrame f 0 s s.some_bytes)).0;
      own = piece.frame_id;
      begun = λ j. ground (arith, get_or-replicate {A = ℕ} (header_at f 0).frame_size 0 j);
    }

pub first-Ready :
    (f : EncodedVideoFrame) (r : Receiver)
    → IsSendable f
    → find_frame f.frame_id r.frames ≡ none
    → Ready f r.frames 0 r
first-Ready f r s new = record {
  stores = λ a. stored_new f.frame_id a r.frames new;
  prepared = rw new (start-Progress f s);
}

pub next-Ready :
    (f : EncodedVideoFrame) (fs : Frames) (off : ℕ) (a : FrameAssembly) (r : Receiver)
    → find_frame f.frame_id fs ≡ none
    → Progress f off a
    → Ready f fs off (record r { frames = fs ++ (f.frame_id, a) ∷ [] })
next-Ready f fs off a r new p = record {
  stores = λ b. stored_again f.frame_id a b fs new;
  prepared = rw (found_added f.frame_id a fs new, prepare_allocated (header_at f off) a p.alloc) p;
}

receive_valid :
    (h : Header) (body : List ℕ) (size : ℕ) (r : Receiver)
    → valid_packet h size ≡ true
    → length (prepare h (find_frame h.frame_id r.frames)).frame.payload ≡ h.frame_size
    → receive_packet h body size r
      ≡ deliver h.frame_id (add_chunk h body (prepare h (find_frame h.frame_id r.frames))) r
unfolding receive_packet accept
receive_valid h body size r good same = rw (good, (==_iff _ _).1 same) refl

-- The assembly after the packet at `off`.
abbrev pub extended : EncodedVideoFrame → ℕ → Receiver → FrameAssembly
extended f off r =
    add_chunk (header_at f off) (body_at f off)
      (prepare (header_at f off) (find_frame f.frame_id r.frames))

pub packet_added :
    (f : EncodedVideoFrame) (fs : Frames) (off : ℕ) (r : Receiver)
    → IsSendable f
    → off < length f.payload
    → Ready f fs off r
    → receive_datagram (packet_at f off) r ≡ deliver f.frame_id (extended f off r) r
packet_added f fs off r s h ready =
    receive-packet_at f off r s h
    ∙ (unfold header_at in
        receive_valid (header_at f off) (body_at f off) (64 + chunk_size_at f off) r
          (header_at-valid f off s h)
          (ready.prepared.part.size ∙ sym (header_at-IsPiece f off s h).frame_size))

pub deliver_open :
    (id : ℕ) (a : FrameAssembly) (fs : Frames) (r : Receiver)
    → (a.received_bytes == length a.frame.payload) ≡ false
    → store id a r.frames ≡ fs ++ (id, a) ∷ []
    → length fs < 8
    → deliver id a r ≡ (none, record r { frames = fs ++ (id, a) ∷ [] })
unfolding deliver
deliver_open id a fs r open_ stored few =
    rw
      (
        open_,
        stored,
        evict_few (length (fs ++ (id, a) ∷ [])) (fs ++ (id, a) ∷ [])
            (omega (arith, length-append fs ((id, a) ∷ []))),
      )
      refl

pub deliver_full :
    (id : ℕ) (a : FrameAssembly) (fs : Frames) (r : Receiver)
    → (a.received_bytes == length a.frame.payload) ≡ true
    → store id a r.frames ≡ fs ++ (id, a) ∷ []
    → find_frame id fs ≡ none
    → length fs < 8
    → deliver id a r ≡ (some a.frame, record r { frames = fs; completed = u32 (r.completed + 1) })
unfolding deliver
deliver_full id a fs r full stored new few =
    rw (full, stored, erased_added id a fs new, evict_few (length fs) fs (omega arith)) refl
