-- ===== src/Video/Delivery.antt =====
-- UdpVideoReceiver::receive of protocol/video_transport.cpp: what reaches the callback in a whole run.
use axrb.Common.{
  ℕ, ◌≡◌, subst, true, Option, none, some, List, [], ◌∷◌, length, take, ◌==◌, Bool-cases,
  Option-cases, inl, inr,
}
use axrb.Video.Frame.{EncodedVideoFrame}
use axrb.Video.Packet.{valid_packet, decode_header}
use axrb.Video.Receiver.{Receiver, new_receiver, receive_datagram, buffer_size}
use axrb.Video.Loop.{
  Event, timeout, datagram, Result, goes_on, received_bytes, after_frame, receive_loop, receive,
}
use axrb.Video.Invariant.{ReceiverInv, receive_datagram-Inv, new_receiver-Inv}
use axrb.Video.Integrity.{IsPiece, IsIntact, AllParts, Sound, receive_packet-Sound}

-- A datagram that passes `valid_packet` carries bytes of the frame that was sent under its frame id.
abbrev pub IsGenuine : (ℕ → EncodedVideoFrame) → List ℕ → Type 0
IsGenuine sent bytes =
    let buffer = take buffer_size bytes in
    let decoded = decode_header buffer in
    valid_packet decoded.0 (length buffer) ≡ true
    → IsPiece (sent decoded.0.frame_id) decoded.0 decoded.1

abbrev pub AllGenuine : (ℕ → EncodedVideoFrame) → List Event → Type 0
AllGenuine sent [] = Unit {0}
AllGenuine sent (timeout ∷ events) = AllGenuine sent events
AllGenuine sent (datagram bytes ∷ events) = IsGenuine sent bytes × AllGenuine sent events

abbrev pub AllSent : (ℕ → EncodedVideoFrame) → List EncodedVideoFrame → Type 0
AllSent sent [] = Unit {0}
AllSent sent (f ∷ fs) = (f ≡ sent f.frame_id) × AllSent sent fs

module _ (sent : ℕ → EncodedVideoFrame) where
  receive_datagram-Sound :
      (bytes : List ℕ) (r : Receiver)
      → IsGenuine sent bytes
      → ReceiverInv r
      → AllParts sent r.frames
      → Sound sent (receive_datagram bytes r)
  unfolding receive_datagram
  receive_datagram-Sound bytes r g v all =
      let (header, body) = decode_header (take buffer_size bytes) in
      receive_packet-Sound sent header body (length (take buffer_size bytes)) r g v all

  after_frame-AllSent :
      (frame : Option EncodedVideoFrame) (out : Result)
      → IsIntact sent frame
      → AllSent sent out.0
      → AllSent sent (after_frame frame out).0
  unfolding after_frame
  after_frame-AllSent none out i h = h
  after_frame-AllSent (some f) out i h = (i, h)

  IsGenuine-bytes :
      (event : Event) (events : List Event) (bytes : List ℕ)
      → AllGenuine sent (event ∷ events)
      → received_bytes event ≡ some bytes
      → IsGenuine sent bytes
  unfolding received_bytes
  IsGenuine-bytes timeout events bytes g e = absurd (cc e)
  IsGenuine-bytes (datagram []) events bytes g e = absurd (cc e)
  IsGenuine-bytes (datagram (b ∷ bs)) events bytes g e =
      subst (IsGenuine sent) {x = b ∷ bs} (cc e) g.0

  AllGenuine-rest :
      (event : Event) (events : List Event)
      → AllGenuine sent (event ∷ events)
      → AllGenuine sent events
  AllGenuine-rest timeout events g = g
  AllGenuine-rest (datagram bytes) events g = g.1

  receive_loop-AllSent :
      (max_frames : ℕ) (events : List Event) (r : Receiver)
      → AllGenuine sent events
      → ReceiverInv r
      → AllParts sent r.frames
      → AllSent sent (receive_loop max_frames events r).0
  unfolding receive_loop
  receive_loop-AllSent max_frames [] r g v all = elim (Bool-cases (goes_on max_frames r)) [
    | inl more ↦ rw more tt
    | inr stop ↦ rw stop tt
  ]
  receive_loop-AllSent max_frames (event ∷ events) r g v all =
      elim (Bool-cases (goes_on max_frames r)) [
        | inr stop ↦ rw (stop, receive_loop) tt
        | inl more ↦ elim (Option-cases (received_bytes event)) [
          | inl silent ↦ elim (Bool-cases (max_frames == 0)) [
            | inl endless ↦
                rw (more, receive_loop, silent, endless)
                  (receive_loop-AllSent max_frames events r (AllGenuine-rest event events g) v all)
            | inr bounded ↦ rw (more, receive_loop, silent, bounded) tt
          ]
          | inr (bytes, came) ↦
              let s =
                receive_datagram-Sound bytes r (IsGenuine-bytes event events bytes g came) v all in
              rw (more, receive_loop, came)
                (after_frame-AllSent _ _ s.intact (
                  receive_loop-AllSent max_frames events (receive_datagram bytes r).1
                    (AllGenuine-rest event events g) (receive_datagram-Inv bytes r v) s.parts))
        ]
      ]

-- Every frame that reaches the callback is, byte for byte and with its metadata, the frame that was
-- sent under its id, whatever packets are lost, repeated, reordered or broken, where a packet that
-- passes `valid_packet` carries bytes of the frame with its id.
pub receive_intact :
    (sent : ℕ → EncodedVideoFrame) (max_frames : ℕ) (events : List Event)
    → AllGenuine sent events
    → AllSent sent (receive true max_frames events).0
unfolding receive
receive_intact sent max_frames events g =
    receive_loop-AllSent sent max_frames events new_receiver g new_receiver-Inv tt
