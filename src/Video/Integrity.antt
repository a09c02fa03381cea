-- ===== src/Video/Integrity.antt =====
-- A frame that the receiver delivers is the frame that was sent, whatever happens to its packets.
use axrb.Common.{
  ℕ, ◌+◌, ◌-◌, ◌%◌, ◌≤◌, ◌<◌, ◌≡◌, sym, ap, ◌∙◌, true, false, not, Option, none, some, inl, inr,
  List, length, take, length-replicate, length-overwrite, get_or, get_or-overwrite, get_or-take,
  get_or-replicate, length-take, eq_of_get_or, arith, ◌==◌, ==_iff, Bool-cases, Option-cases,
  overwrite,
}
use axrb.Video.Frame.{EncodedVideoFrame}
use axrb.Video.Packet.{Header, valid_packet}
use axrb.Video.Receiver.{
  FrameAssembly, Frames, Receiver, find_frame, prepare, add_chunk, accept, deliver, receive_packet,
  trim,
}
use axrb.Video.Marks.{marked_all, is_marked, in_range, mark_chunk-Marks}
use axrb.Video.Table.{
  AllFrames, AllFrames-find, AllFrames-erase, AllFrames-store, AllFrames-erase-store,
  evict_induction,
}
use axrb.Video.Invariant.{
  InFrame, valid_packet-InFrame, IsAllocated, IsWaiting, ReceiverInv, Prepared, prepare_waiting,
  prepare-Prepared, add_chunk-IsAllocated,
}

-- The packet carries bytes of the frame, with the frame's own metadata.
pub record IsPiece (f : EncodedVideoFrame) (h : Header) (body : List ℕ) : Type 0 where
  pub stream_id : h.stream_id ≡ f.stream_id
  pub codec : h.codec ≡ f.codec
  pub frame_id : h.frame_id ≡ f.frame_id
  pub capture_time_ns : h.capture_time_ns ≡ f.capture_time_ns
  pub width : h.width ≡ f.width
  pub height : h.height ≡ f.height
  pub key_frame : not (h.flags % 2 == 0) ≡ f.key_frame
  pub frame_size : h.frame_size ≡ length f.payload
  pub chunk_size : h.chunk_size ≤ length body
  pub bytes : (j : ℕ) → j < h.chunk_size → get_or body j 0 ≡ get_or f.payload (h.chunk_offset + j) 0

-- The assembly has the frame's metadata and size, and its bytes where they are marked.
pub record IsPart (f : EncodedVideoFrame) (a : FrameAssembly) : Type 0 where
  pub header : record a.frame { payload = f.payload } ≡ f
  pub size : length a.frame.payload ≡ length f.payload
  pub agrees :
      (j : ℕ) → is_marked a.received j ≡ true → get_or a.frame.payload j 0 ≡ get_or f.payload j 0

pub start-IsPart :
    (f : EncodedVideoFrame) (h : Header) (body : List ℕ)
    → IsPiece f h body
    → IsPart f (prepare h none)
unfolding prepare
start-IsPart f h body p = record {
  header = ground arith;
  size = omega (arith, length-replicate {A = ℕ} h.frame_size 0, p.frame_size);
  agrees = λ j m. absurd (ground (arith, get_or-replicate {A = ℕ} h.frame_size 0 j));
}

-- Where the chunk does not lie the old byte counts.
overwritten_agrees :
    (xs body whole : List ℕ) (off n j : ℕ)
    → n ≤ length body
    → off + n ≤ length xs
    → ((k : ℕ) → k < n → get_or body k 0 ≡ get_or whole (off + k) 0)
    → (in_range off n j ≡ false → get_or xs j 0 ≡ get_or whole j 0)
    → get_or (overwrite xs off (take n body)) j 0 ≡ get_or whole j 0
overwritten_agrees xs body whole off n j short fits bytes old =
    let len : length (take n body) ≡ n = omega (arith, length-take n body) in
    let written = get_or-overwrite xs off (take n body) j 0 (omega arith) in
    elim (Bool-cases (in_range off n j)) [
      | inr out ↦ rw (written, len, out) (old out)
      | inl inside ↦
          let low : off ≤ j = ground arith in
          let high : j < off + n = ground arith in
          rw (written, len, inside)
            (get_or-take n body (j - off) 0 (omega arith)
              ∙ bytes (j - off) (omega arith)
              ∙ ap (λ k. get_or whole k 0) (omega arith))
    ]

pub add_chunk-IsPart :
    (f : EncodedVideoFrame) (h : Header) (size : ℕ) (body : List ℕ) (a : FrameAssembly)
    → InFrame h size
    → IsPiece f h body
    → IsAllocated a
    → length a.frame.payload ≡ h.frame_size
    → IsPart f a
    → IsPart f (add_chunk h body a)
unfolding add_chunk
add_chunk-IsPart f h size body a v p w e part =
    let m =
      mark_chunk-Marks h.chunk_size h.chunk_offset a.received a.received_bytes
        (omega (arith, v.inside, w.flags)) (omega (arith, w.bounded, w.flags)) w.counted in
    record {
      header = part.header;
      size = omega (
        arith,
        part.size,
        length-overwrite a.frame.payload h.chunk_offset (take h.chunk_size body),
      );
      agrees = λ j now_marked.
          overwritten_agrees a.frame.payload body f.payload h.chunk_offset h.chunk_size j
            p.chunk_size (omega (arith, v.inside)) p.bytes
            (λ out. part.agrees j (ground (arith, m.marks j)));
    }

pub complete_frame :
    (f : EncodedVideoFrame) (a : FrameAssembly)
    → IsAllocated a
    → IsPart f a
    → a.received_bytes ≡ length a.frame.payload
    → a.frame ≡ f
complete_frame f a w part full =
    let all_marked = λ (j : ℕ) (h : j < length a.received).
      marked_all a.received j (omega (arith, w.counted, w.flags)) h in
    let payload =
      eq_of_get_or a.frame.payload f.payload 0 part.size
        λ j h. part.agrees j (ground (arith, all_marked j (omega (arith, part.size, w.flags)))) in
    ap (λ p. record a.frame { payload = p }) payload ∙ part.header

module _ (sent : ℕ → EncodedVideoFrame) where
  abbrev pub AllParts : Frames → Type 0
  AllParts = AllFrames (λ id a. IsPart (sent id) a)

  -- What goes to the callback is the frame that was sent under its id.
  abbrev pub IsIntact : Option EncodedVideoFrame → Type 0
  IsIntact none = Unit {0}
  IsIntact (some g) = g ≡ sent g.frame_id

  pub record Sound (out : Option EncodedVideoFrame × Receiver) : Type 0 where
    pub parts : AllParts out.1.frames
    pub intact : IsIntact out.0

  trim-AllParts : (frames : Frames) → AllParts frames → AllParts (trim frames)
  trim-AllParts frames h =
      evict_induction AllParts (λ id fs k. AllFrames-erase (λ i a. IsPart (sent i) a) id fs k)
        (length frames) frames h

  deliver-Sound :
      (id : ℕ) (a : FrameAssembly) (r : Receiver)
      → IsAllocated a
      → a.frame.frame_id ≡ id
      → IsPart (sent id) a
      → AllParts r.frames
      → Sound (deliver id a r)
  unfolding deliver
  deliver-Sound id a r w own part h =
      elim (Bool-cases (a.received_bytes == length a.frame.payload)) [
        | inl full ↦ rw full (record {
          parts = trim-AllParts _ (AllFrames-erase-store _ id a r.frames h);
          intact = complete_frame (sent id) a w part ((==_iff _ _).0 full) ∙ ap sent (sym own);
        })
        | inr open_ ↦ rw open_ (record {
          parts = trim-AllParts _ (AllFrames-store _ id a r.frames h part);
          intact = tt;
        })
      ]

  accept-Sound :
      (h : Header) (size : ℕ) (body : List ℕ) (a : FrameAssembly) (r : Receiver)
      → InFrame h size
      → IsPiece (sent h.frame_id) h body
      → Prepared h a
      → IsPart (sent h.frame_id) a
      → AllParts r.frames
      → Sound (accept h body a r)
  unfolding accept
  accept-Sound h size body a r p piece (w, own) part all =
      elim (Bool-cases (length a.frame.payload == h.frame_size)) [
        | inl same ↦
            let e : length a.frame.payload ≡ h.frame_size = (==_iff _ _).0 same in
            rw same (
              deliver-Sound h.frame_id (add_chunk h body a) r
                (add_chunk-IsAllocated h size body a p w e) (unfold add_chunk in own)
                (add_chunk-IsPart (sent h.frame_id) h size body a p piece w e part) all)
        | inr other ↦
            rw other (record { parts = AllFrames-erase _ h.frame_id r.frames all; intact = tt })
      ]

  prepare-IsPart :
      (h : Header) (body : List ℕ) (r : Receiver)
      → IsPiece (sent h.frame_id) h body
      → ReceiverInv r
      → AllParts r.frames
      → IsPart (sent h.frame_id) (prepare h (find_frame h.frame_id r.frames))
  prepare-IsPart h body r piece v all = elim (Option-cases (find_frame h.frame_id r.frames)) [
    | inl new ↦ rw new (start-IsPart (sent h.frame_id) h body piece)
    | inr (a, found) ↦
        rw
          (
            found,
            prepare_waiting h a (AllFrames-find IsWaiting h.frame_id r.frames a v.waiting found),
          )
          (AllFrames-find _ h.frame_id r.frames a all found)
  ]

  pub receive_packet-Sound :
      (h : Header) (body : List ℕ) (size : ℕ) (r : Receiver)
      → (valid_packet h size ≡ true → IsPiece (sent h.frame_id) h body)
      → ReceiverInv r
      → AllParts r.frames
      → Sound (receive_packet h body size r)
  unfolding receive_packet
  receive_packet-Sound h body size r pieces v all = elim (Bool-cases (valid_packet h size)) [
    | inr bad ↦ rw bad (record { parts = all; intact = tt })
    | inl good ↦
        let p = valid_packet-InFrame h size good in
        rw good (
          accept-Sound h size body _ r p (pieces good) (prepare-Prepared h size r p v)
            (prepare-IsPart h body r (pieces good) v all) all)
  ]
