-- ===== src/Image/Uplink.antt =====
-- ImageTransportClient of android-runtime/session.cpp: how it connects, and what it sends. The flags
-- that keep it from logging a message twice are left out.
use axrb.Common.{
  ℕ, ◌+◌, Bool, true, false, not, Option, none, some, List, [], ◌∷◌, ◌++◌, length, take, drop, ltb,
  ◌==◌, if◌then◌else◌,
}
use axrb.Image.Header.{image_header_bytes}
use axrb.Image.Server.{ImageFrame}
use axrb.Image.Client.{client_header}

-- `socket_` is `none` where it is negative.
pub record ImageClient : Type 0 where
  pub socket : Option ℕ
  pub last_connect_attempt_ns : ℕ

-- What `socket` and `connect` give: no socket, or one that is refused or connected.
pub data ConnectAnswer : Type 0 where
  no_socket : ConnectAnswer
  refuses connects : ℕ → ConnectAnswer

abbrev pub two_seconds_ns : ℕ
two_seconds_ns = 2000000000

-- The new socket, if there is one, and what is closed.
abbrev pub connected_socket : ConnectAnswer → Option ℕ × List ℕ
connected_socket no_socket = (none, [])
connected_socket (refuses candidate) = (none, candidate ∷ [])
connected_socket (connects candidate) = (some candidate, [])

abbrev pub has_socket : Option ℕ → Bool
has_socket none = false
has_socket (some _) = true

-- `now` is what the clock shows, at least what it has shown before.
unfoldable pub ensure_image_connected :
    ℕ → ConnectAnswer → ImageClient → Bool × ImageClient × List ℕ
ensure_image_connected now answer c =
    let (socket, gone) = connected_socket answer in
    if has_socket c.socket
    then (true, c, [])
    else if ltb now (c.last_connect_attempt_ns + two_seconds_ns)
    then (false, c, [])
    else (has_socket socket, record { socket = socket; last_connect_attempt_ns = now }, gone)

pub data SendEnd : Type 0 where
  all_sent send_failed send_blocked : SendEnd

-- `answers` is what `send` gives, call by call: 0 where it fails, and else how many bytes it took, at
-- most those that are left. Where there are no more answers, the last call does not return. What is
-- given is how it ended, what was written, and the answers that are left.
unfoldable pub send_all : List ℕ → List ℕ → SendEnd × List ℕ × List ℕ
send_all data_ [] = if length data_ == 0 then (all_sent, [], []) else (send_blocked, [], [])
send_all data_ (sent ∷ answers) =
    let (end, written, left) = send_all (drop sent data_) answers in
    if length data_ == 0
    then (all_sent, [], sent ∷ answers)
    else if sent == 0
    then (send_failed, [], answers)
    else (end, take sent data_ ++ written, left)

-- The second call is made where the first one has sent everything.
abbrev pub and_then : SendEnd → List ℕ → SendEnd × List ℕ → SendEnd × List ℕ
and_then all_sent written (end, more) = (end, written ++ more)
and_then send_failed written later = (send_failed, written)
and_then send_blocked written later = (send_blocked, written)

-- `send_all(&header, …) && send_all(payload, …)`
unfoldable pub send_both : List ℕ → List ℕ → List ℕ → SendEnd × List ℕ
unfolding send_all
send_both header payload answers =
    let (end, written, left) = send_all header answers in
    let (payload_end, payload_written, payload_left) = send_all payload left in
    and_then end written (payload_end, payload_written)

-- A call of send_frame, with what the system answers.
pub record SendCall : Type 0 where
  pub sequence : ℕ
  pub width : ℕ
  pub height : ℕ
  pub layers : ℕ
  pub payload : List ℕ
  pub now : ℕ
  pub padding : ℕ
  pub answer : ConnectAnswer
  pub sends : List ℕ

abbrev pub frame_of : SendCall → ImageFrame
frame_of call = (
  client_header call.sequence call.width call.height call.layers (length call.payload) call.now
      call.padding,
  call.payload,
)

-- The result of send_frame, which is `none` where it does not return, the client, and what was
-- written to its socket.
abbrev pub FrameSent : Type 0
FrameSent = Option Bool × ImageClient × List ℕ

-- A failure closes the socket.
abbrev pub send_ended : SendEnd × List ℕ → ImageClient → FrameSent
send_ended (all_sent, written) c = (some true, c, written)
send_ended (send_failed, written) c = (some false, record c { socket = none }, written)
send_ended (send_blocked, written) c = (none, c, written)

unfoldable pub send_image_frame : SendCall → ImageClient → FrameSent
unfolding ensure_image_connected send_both
send_image_frame call c =
    let (connected, after, gone) = ensure_image_connected call.now call.answer c in
    if not connected
    then (some false, after, [])
    else send_ended (send_both (image_header_bytes (frame_of call).0) call.payload call.sends) after
