-- ===== src/Video/Exit.antt =====
-- UdpVideoReceiver::receive of protocol/video_transport.cpp: what the exit code says of the frames
-- that were delivered, and what an empty datagram does.
use axrb.Common.{
  ℕ, ◌+◌, ◌^◌, ◌≤◌, ◌<◌, ◌≡◌, ◌≢◌, ◌↔◌, refl, true, false, Option, none, some, List, [], ◌∷◌, ◌++◌,
  ◌==◌, if◌then◌else◌, arith, ◌⊎◌, inl, inr, length, take, Bool-cases, Option-cases, u32, ap, sym,
  ◌∙◌,
}
use axrb.Video.Frame.{EncodedVideoFrame}
use axrb.Video.Packet.{Header, valid_packet, decode_header}
use axrb.Video.Receiver.{
  FrameAssembly, Receiver, new_receiver, receive_datagram, receive_packet, accept, deliver,
  buffer_size,
}
use axrb.Video.Loop.{
  Event, datagram, exits, waiting, Result, goes_on, received_bytes, after_frame, receive_loop,
  receive,
}

abbrev count : Option EncodedVideoFrame → ℕ
count none = 0
count (some _) = 1

-- The counter counts the frames that go to the callback.
abbrev Counts : Receiver → Option EncodedVideoFrame × Receiver → Type 0
Counts r out = out.1.completed ≡ (if count out.0 == 0 then r.completed else u32 (r.completed + 1))

deliver-Counts : (id : ℕ) (a : FrameAssembly) (r : Receiver) → Counts r (deliver id a r)
unfolding deliver
deliver-Counts id a r = ground arith

accept-Counts :
    (h : Header) (body : List ℕ) (a : FrameAssembly) (r : Receiver) → Counts r (accept h body a r)
unfolding accept
accept-Counts h body a r = elim (Bool-cases (length a.frame.payload == h.frame_size)) [
  | inl same ↦ rw same (deliver-Counts h.frame_id _ r)
  | inr other ↦ rw other refl
]

receive_packet-Counts :
    (h : Header) (body : List ℕ) (size : ℕ) (r : Receiver) → Counts r (receive_packet h body size r)
unfolding receive_packet
receive_packet-Counts h body size r = elim (Bool-cases (valid_packet h size)) [
  | inl good ↦ rw good (accept-Counts h body _ r)
  | inr bad ↦ rw bad refl
]

receive_datagram-Counts : (bytes : List ℕ) (r : Receiver) → Counts r (receive_datagram bytes r)
unfolding receive_datagram
receive_datagram-Counts bytes r =
    let (header, body) = decode_header (take buffer_size bytes) in
    receive_packet-Counts header body (length (take buffer_size bytes)) r

-- Of a run that began with the counter at `before`.
record Tally (max_frames before : ℕ) (out : Result) : Type 0 where
  counter : out.2.completed ≡ before + length out.0
  most : out.2.completed ≤ max_frames
  done : (out.1 ≡ exits 0) ↔ (out.2.completed ≡ max_frames)
  ended : (out.1 ≡ exits 0) ⊎ ((out.1 ≡ exits 1) ⊎ (out.1 ≡ waiting))

Tally-stop :
    (max_frames : ℕ) (r : Receiver)
    → r.completed ≡ max_frames
    → Tally max_frames r.completed ([], exits 0, r)
Tally-stop max_frames r e = record {
  counter = omega arith;
  most = omega arith;
  done = (λ h. e, λ h. refl);
  ended = inl refl;
}

Tally-wait :
    (max_frames : ℕ) (r : Receiver)
    → r.completed < max_frames
    → Tally max_frames r.completed ([], waiting, r)
Tally-wait max_frames r h = record {
  counter = omega arith;
  most = omega arith;
  done = ground arith;
  ended = inr (inr refl);
}

Tally-timeout :
    (max_frames : ℕ) (r : Receiver)
    → r.completed < max_frames
    → Tally max_frames r.completed ([], exits (if r.completed == max_frames then 0 else 1), r)
Tally-timeout max_frames r h = record {
  counter = omega arith;
  most = omega arith;
  done = ground arith;
  ended = ground arith;
}

Tally-frame :
    (max_frames : ℕ) (r r' : Receiver) (frame : Option EncodedVideoFrame) (out : Result)
    → max_frames < 2 ^ 32
    → r.completed < max_frames
    → Counts r (frame, r')
    → Tally max_frames r'.completed out
    → Tally max_frames r.completed (after_frame frame out)
unfolding after_frame
Tally-frame max_frames r r' none out b h c t = record {
  counter = omega (arith, t.counter, c);
  most = t.most;
  done = t.done;
  ended = t.ended;
}
Tally-frame max_frames r r' (some f) (delivered, outcome, r'') b h c t = record {
  counter = omega (arith, t.counter, c);
  most = t.most;
  done = t.done;
  ended = t.ended;
}

receive_loop-Tally :
    (max_frames : ℕ) (events : List Event) (r : Receiver)
    → 0 < max_frames
    → max_frames < 2 ^ 32
    → r.completed ≤ max_frames
    → Tally max_frames r.completed (receive_loop max_frames events r)
unfolding receive_loop
receive_loop-Tally max_frames [] r p b h = elim (Bool-cases (goes_on max_frames r)) [
  | inl more ↦ rw more (Tally-wait max_frames r (unfold goes_on in ground arith))
  | inr stop ↦ rw (stop, receive_loop) (Tally-stop max_frames r (unfold goes_on in ground arith))
]
receive_loop-Tally max_frames (event ∷ events) r p b h = elim (Bool-cases (goes_on max_frames r)) [
  | inr stop ↦ rw (stop, receive_loop) (Tally-stop max_frames r (unfold goes_on in ground arith))
  | inl more ↦
      let low : r.completed < max_frames = unfold goes_on in ground arith in
      let bounded : (max_frames == 0) ≡ false = ground arith in
      elim (Option-cases (received_bytes event)) [
        | inl silent ↦ rw (more, receive_loop, silent, bounded) (Tally-timeout max_frames r low)
        | inr (bytes, came) ↦
            let c = receive_datagram-Counts bytes r in
            rw (more, receive_loop, came)
              (Tally-frame max_frames r (receive_datagram bytes r).1 _ _ b low c
                (receive_loop-Tally max_frames events _ p b (ground (arith, c))))
      ]
]

-- A bounded receive delivers at most the frames that it was asked for, and returns 0 exactly when it
-- delivered that many; else it returns 1 or waits for more packets.
pub receive_exit :
    (max_frames : ℕ) (events : List Event)
    → 0 < max_frames
    → max_frames < 2 ^ 32
    → let out = receive true max_frames events in
      (length out.0 ≤ max_frames)
      × ((out.1 ≡ exits 0) ↔ (length out.0 ≡ max_frames))
      × ((out.1 ≡ exits 0) ⊎ ((out.1 ≡ exits 1) ⊎ (out.1 ≡ waiting)))
unfolding receive
receive_exit max_frames events p b =
    let t = receive_loop-Tally max_frames events new_receiver p b (omega arith) in
    (
      omega (arith, t.counter, t.most),
      (λ h. omega (arith, t.counter, t.done.0 h), λ h. t.done.1 (omega (arith, t.counter))),
      t.ended,
    )

empty_datagram_ends :
    (max_frames : ℕ) (after : List Event) (r : Receiver)
    → 0 < max_frames
    → r.completed < max_frames
    → receive_loop max_frames (datagram [] ∷ after) r ≡ ([], exits 1, r)
unfolding receive_loop goes_on received_bytes
empty_datagram_ends max_frames after r p h = ground arith

after_frame_outcome :
    (frame : Option EncodedVideoFrame) (out : Result) → (after_frame frame out).1 ≡ out.1
unfolding after_frame
after_frame_outcome none out = refl
after_frame_outcome (some f) out = refl

after_frame_exits :
    (frame : Option EncodedVideoFrame) (out : Result)
    → after_frame frame (out.0, exits 1, out.2)
      ≡ ((after_frame frame out).0, exits 1, (after_frame frame out).2)
unfolding after_frame
after_frame_exits none out = refl
after_frame_exits (some f) out = refl

-- A bounded loop that has met a silent event does not wait.
silent_ends :
    (max_frames : ℕ) (event : Event) (events : List Event) (r : Receiver)
    → 0 < max_frames
    → received_bytes event ≡ none
    → (receive_loop max_frames (event ∷ events) r).1 ≢ waiting
unfolding receive_loop
silent_ends max_frames event events r p silent = elim (Bool-cases (goes_on max_frames r)) [
  | inl more ↦
      let bounded : (max_frames == 0) ≡ false = ground arith in
      rw (more, receive_loop, silent, bounded) (λ e. cc e)
  | inr stop ↦ rw (stop, receive_loop) (λ e. cc e)
]

-- The flaw: an empty datagram ends a bounded receive with exit code 1, as the timeout does: whatever
-- came before it and left the loop waiting, and whatever comes after it.
pub empty_datagram_lem :
    (max_frames : ℕ) (before after : List Event) (r : Receiver)
    → 0 < max_frames
    → (receive_loop max_frames before r).1 ≡ waiting
    → receive_loop max_frames (before ++ datagram [] ∷ after) r
      ≡ ((receive_loop max_frames before r).0, exits 1, (receive_loop max_frames before r).2)
unfolding receive_loop
empty_datagram_lem max_frames [] after r p w = elim (Bool-cases (goes_on max_frames r)) [
  | inl more ↦ rw more (empty_datagram_ends max_frames after r p (unfold goes_on in ground arith))
  | inr stop ↦ absurd (cc (rw stop at w))
]
empty_datagram_lem max_frames (event ∷ before) after r p w =
    elim (Bool-cases (goes_on max_frames r)) [
      | inr stop ↦ absurd (cc (rw (stop, receive_loop) at w))
      | inl more ↦ elim (Option-cases (received_bytes event)) [
        | inl silent ↦ absurd (silent_ends max_frames event before r p silent w)
        | inr (bytes, came) ↦
            let (frame, r') = receive_datagram bytes r in
            let w' = rw (more, receive_loop, came) at w in
            rw (more, receive_loop, came)
              (ap (after_frame frame) (
                  empty_datagram_lem max_frames before after r' p
                    (sym (after_frame_outcome frame (receive_loop max_frames before r')) ∙ w'))
                ∙ after_frame_exits frame (receive_loop max_frames before r'))
      ]
    ]
