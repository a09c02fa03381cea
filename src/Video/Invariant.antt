-- ===== src/Video/Invariant.antt =====
-- The receiver's state: the sizes of its buffers, its counters, and how many frames wait.
use axrb.Common.{
  ℕ, ◌+◌, ◌≤◌, ◌<◌, ◌≡◌, ◌≢◌, refl, true, none, some, inl, inr, List, length, take,
  length-replicate, length-overwrite, arith, ◌==◌, Bool-cases, Option-cases, ==_iff,
}
use axrb.Video.Packet.{Header, valid_packet, decode_header, max_frame_size}
use axrb.Video.Receiver.{
  FrameAssembly, Frames, Receiver, find_frame, erase, prepare, add_chunk, accept, deliver,
  receive_packet, receive_datagram, new_receiver, trim, buffer_size,
}
use axrb.Video.Marks.{marked, mark_chunk-Marks, marked-replicate}
use axrb.Video.Table.{
  AllFrames, Distinct, AllFrames-find, AllFrames-erase, AllFrames-store, AllFrames-erase-store,
  Distinct-erase, Distinct-store, length-erase-le, length-evict, evict_induction,
}

-- A valid packet's chunk is not empty, fills the packet behind the header, and lies in its frame.
pub record InFrame (h : Header) (size : ℕ) : Type 0 where
  pub some_bytes : 0 < h.chunk_size
  pub fits : h.chunk_size ≤ 1200
  pub whole : size ≡ 64 + h.chunk_size
  pub inside : h.chunk_offset + h.chunk_size ≤ h.frame_size
  pub frame_fits : h.frame_size ≤ max_frame_size

pub valid_packet-InFrame : (h : Header) (size : ℕ) → valid_packet h size ≡ true → InFrame h size
unfolding valid_packet
valid_packet-InFrame h size e = ground arith

-- An assembly with its buffers allocated.
pub record IsAllocated (a : FrameAssembly) : Type 0 where
  pub allocated : 0 < length a.frame.payload
  pub bounded : length a.frame.payload ≤ max_frame_size
  pub flags : length a.received ≡ length a.frame.payload
  pub counted : a.received_bytes ≡ marked a.received

-- One that waits in the map, under its own id.
pub record IsWaiting (id : ℕ) (a : FrameAssembly) : Type 0 where
  pub alloc : IsAllocated a
  pub open alloc use *
  pub own_id : a.frame.frame_id ≡ id
  pub missing : a.received_bytes ≢ length a.frame.payload

pub record ReceiverInv (r : Receiver) : Type 0 where
  pub waiting : AllFrames IsWaiting r.frames
  pub distinct : Distinct r.frames
  pub few : length r.frames ≤ 8

pub new_receiver-Inv : ReceiverInv new_receiver
new_receiver-Inv = record { waiting = tt; distinct = tt; few = omega arith }

abbrev pub Prepared : Header → FrameAssembly → Type 0
Prepared h a = IsAllocated a × (a.frame.frame_id ≡ h.frame_id)

pub start-Prepared : (h : Header) (size : ℕ) → InFrame h size → Prepared h (prepare h none)
unfolding prepare
start-Prepared h size v = (
  record {
    allocated = omega (arith, length-replicate {A = ℕ} h.frame_size 0, v.some_bytes, v.inside);
    bounded = omega (arith, length-replicate {A = ℕ} h.frame_size 0, v.frame_fits);
    flags = refl;
    counted = omega (arith, marked-replicate h.frame_size);
  },
  refl,
)

-- A waiting assembly is used as it is.
pub prepare_waiting :
    (h : Header) (a : FrameAssembly) → IsWaiting h.frame_id a → prepare h (some a) ≡ a
unfolding prepare
prepare_waiting h a w = ground arith

pub add_chunk-IsAllocated :
    (h : Header) (size : ℕ) (body : List ℕ) (a : FrameAssembly)
    → InFrame h size
    → IsAllocated a
    → length a.frame.payload ≡ h.frame_size
    → IsAllocated (add_chunk h body a)
unfolding add_chunk
add_chunk-IsAllocated h size body a v w e =
    let m =
      mark_chunk-Marks h.chunk_size h.chunk_offset a.received a.received_bytes
        (omega (arith, v.inside)) (omega arith) w.counted in
    let same = length-overwrite a.frame.payload h.chunk_offset (take h.chunk_size body) in
    record {
      allocated = omega (arith, same);
      bounded = omega (arith, same);
      flags = omega (arith, same, m.size);
      counted = m.count;
    }

record Kept (frames : Frames) : Type 0 where
  all_wait : AllFrames IsWaiting frames
  once : Distinct frames

erase-Kept : (id : ℕ) (frames : Frames) → Kept frames → Kept (erase id frames)
erase-Kept id frames k = record {
  all_wait = AllFrames-erase IsWaiting id frames k.all_wait;
  once = Distinct-erase id frames k.once;
}

trim-Inv :
    (frames : Frames) (completed invalid : ℕ)
    → Kept frames
    → ReceiverInv
        (record { frames = trim frames; completed = completed; invalid_packets = invalid })
trim-Inv frames completed invalid k =
    let t = evict_induction Kept erase-Kept (length frames) frames k in
    record {
      waiting = t.all_wait;
      distinct = t.once;
      few = length-evict (length frames) frames (omega arith);
    }

deliver-Inv :
    (id : ℕ) (a : FrameAssembly) (r : Receiver)
    → IsAllocated a
    → a.frame.frame_id ≡ id
    → ReceiverInv r
    → ReceiverInv (deliver id a r).1
unfolding deliver
deliver-Inv id a r w own v = elim (Bool-cases (a.received_bytes == length a.frame.payload)) [
  | inl full ↦ rw full (
      trim-Inv _ _ _ (record {
        all_wait = AllFrames-erase-store IsWaiting id a r.frames v.waiting;
        once = Distinct-erase id _ (Distinct-store id a r.frames v.distinct);
      }))
  | inr open_ ↦ rw open_ (
      trim-Inv _ _ _ (record {
        all_wait =
            AllFrames-store IsWaiting id a r.frames v.waiting
              (record { alloc = w; own_id = own; missing = ground arith });
        once = Distinct-store id a r.frames v.distinct;
      }))
]

accept-Inv :
    (h : Header) (size : ℕ) (body : List ℕ) (a : FrameAssembly) (r : Receiver)
    → InFrame h size
    → Prepared h a
    → ReceiverInv r
    → ReceiverInv (accept h body a r).1
unfolding accept
accept-Inv h size body a r p (w, own) v =
    elim (Bool-cases (length a.frame.payload == h.frame_size)) [
      | inl same ↦ rw same (
          deliver-Inv h.frame_id (add_chunk h body a) r
            (add_chunk-IsAllocated h size body a p w ((==_iff _ _).0 same))
            (unfold add_chunk in own) v)
      | inr other ↦ rw other (record {
        waiting = AllFrames-erase IsWaiting h.frame_id r.frames v.waiting;
        distinct = Distinct-erase h.frame_id r.frames v.distinct;
        few = omega (arith, length-erase-le h.frame_id r.frames, v.few);
      })
    ]

-- The assembly of a valid packet, found or new.
pub prepare-Prepared :
    (h : Header) (size : ℕ) (r : Receiver)
    → InFrame h size
    → ReceiverInv r
    → Prepared h (prepare h (find_frame h.frame_id r.frames))
prepare-Prepared h size r p v = elim (Option-cases (find_frame h.frame_id r.frames)) [
  | inl new ↦ rw new (start-Prepared h size p)
  | inr (a, found) ↦
      let w = AllFrames-find IsWaiting h.frame_id r.frames a v.waiting found in
      rw (found, prepare_waiting h a w) (w.alloc, w.own_id)
]

-- Any packet, valid or not, keeps the state well-formed: the frames that wait have distinct ids and
-- are eight at most, each has payload and flags of one size of at most 64 MiB, counts exactly the
-- bytes that have come, and lacks some.
pub receive_packet-Inv :
    (h : Header) (body : List ℕ) (size : ℕ) (r : Receiver)
    → ReceiverInv r
    → ReceiverInv (receive_packet h body size r).1
unfolding receive_packet
receive_packet-Inv h body size r v = elim (Bool-cases (valid_packet h size)) [
  | inr bad ↦ rw bad (record { waiting = v.waiting; distinct = v.distinct; few = v.few })
  | inl good ↦
      let p = valid_packet-InFrame h size good in
      rw good (accept-Inv h size body _ r p (prepare-Prepared h size r p v) v)
]

pub receive_datagram-Inv :
    (bytes : List ℕ) (r : Receiver) → ReceiverInv r → ReceiverInv (receive_datagram bytes r).1
unfolding receive_datagram
receive_datagram-Inv bytes r v =
    let (header, body) = decode_header (take buffer_size bytes) in
    receive_packet-Inv header body (length (take buffer_size bytes)) r v

-- The memcpy of a valid packet, made where the frame sizes agree, reads within the received bytes and
-- writes within the payload, and the loop behind it stays within the flags.
pub chunk_in_bounds :
    (h : Header) (size : ℕ) (r : Receiver)
    → ReceiverInv r
    → valid_packet h size ≡ true
    → length (prepare h (find_frame h.frame_id r.frames)).frame.payload ≡ h.frame_size
    → let a = prepare h (find_frame h.frame_id r.frames) in
      (64 + h.chunk_size ≤ size)
      × (h.chunk_offset + h.chunk_size ≤ length a.frame.payload)
      × (h.chunk_offset + h.chunk_size ≤ length a.received)
chunk_in_bounds h size r v good same =
    let p = valid_packet-InFrame h size good in
    let a = (prepare-Prepared h size r p v).0 in
    (omega (arith, p.whole), omega (arith, p.inside), omega (arith, p.inside, a.flags))
