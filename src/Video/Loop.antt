-- ===== src/Video/Loop.antt =====
-- UdpVideoReceiver::receive of protocol/video_transport.cpp: the loop over what the socket gives, and
-- the exit code.
use axrb.Common.{
  ℕ, Bool, true, false, ◌||◌, Option, none, some, List, [], ◌∷◌, ltb, ◌==◌, if◌then◌else◌,
}
use axrb.Video.Frame.{EncodedVideoFrame}
use axrb.Video.Receiver.{Receiver, new_receiver, receive_datagram}

-- What `recv` answers: nothing within three seconds, or a datagram, which may be empty.
pub data Event : Type 0 where
  timeout : Event
  datagram : List ℕ → Event

-- The function has returned its exit code, or waits for the next event.
pub data Outcome : Type 0 where
  exits : ℕ → Outcome
  waiting : Outcome

-- The frames that went to the callback, in order.
abbrev pub Result : Type 0
Result = List EncodedVideoFrame × Outcome × Receiver

unfoldable pub goes_on : ℕ → Receiver → Bool
goes_on max_frames r = max_frames == 0 || ltb r.completed max_frames

-- `recv` returns 0 for an empty datagram, which the loop takes for the timeout.
unfoldable pub received_bytes : Event → Option (List ℕ)
received_bytes timeout = none
received_bytes (datagram []) = none
received_bytes (datagram (b ∷ bytes)) = some (b ∷ bytes)

unfoldable pub after_frame : Option EncodedVideoFrame → Result → Result
after_frame none out = out
after_frame (some f) (delivered, outcome, r) = (f ∷ delivered, outcome, r)

unfoldable pub receive_loop : ℕ → List Event → Receiver → Result
unfolding goes_on received_bytes after_frame
receive_loop max_frames [] r = if goes_on max_frames r then ([], waiting, r) else ([], exits 0, r)
receive_loop max_frames (event ∷ events) r = elim (goes_on max_frames r) [
  | false ↦ ([], exits 0, r)
  | true ↦ elim (received_bytes event) [
    | some bytes ↦
        let (frame, r') = receive_datagram bytes r in
        after_frame frame (receive_loop max_frames events r')
    | none ↦ elim (max_frames == 0) [
      | true ↦ receive_loop max_frames events r
      | false ↦ ([], exits (if r.completed == max_frames then 0 else 1), r)
    ]
  ]
]

-- `ready`: the socket library is there, the socket was made, and it was bound to the port.
unfoldable pub receive : Bool → ℕ → List Event → List EncodedVideoFrame × Outcome
unfolding receive_loop
receive false max_frames events = ([], exits 1)
receive true max_frames events =
    let (delivered, outcome, _) = receive_loop max_frames events new_receiver in
    (delivered, outcome)
