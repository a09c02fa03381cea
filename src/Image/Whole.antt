-- ===== src/Image/Whole.antt =====
-- The frames that ImageTransportClient sends, call by call: what a server gets on each connection.
use axrb.Common.{
  ℕ, zero, suc, ◌<◌, ◌≡◌, refl, sym, ap, subst, ◌∙◌, Bool, true, false, Option, none, some, List,
  [], ◌∷◌, ◌++◌, append_assoc, append-nil, length, length-append, take, drop, ◌==◌, if◌then◌else◌,
  arith, Bool-cases, inl, inr,
}
use axrb.Image.Header.{image_header_bytes}
use axrb.Image.Server.{ImageFrame}
use axrb.Image.Client.{sent_bytes}
use axrb.Image.Transfer.{stream_bytes, IsSendableImage, AllSendable}
use axrb.Image.Uplink.{
  ConnectAnswer, has_socket, ImageClient, ensure_image_connected, SendEnd, all_sent, send_failed,
  send_blocked, send_all, send_both, SendCall, frame_of, send_ended, send_image_frame, and_then,
  FrameSent,
}

take-drop {ℓ} : {A : Type ℓ} (n : ℕ) (xs : List A) → take n xs ++ drop n xs ≡ xs
take-drop zero xs = refl
take-drop (suc n) [] = refl
take-drop (suc n) (x ∷ xs) = ap (λ ys. x ∷ ys) (take-drop n xs)

-- What was written is the start of the data: all of it, or less where a call failed.
abbrev StartOf : List ℕ → SendEnd → List ℕ → Type 0
StartOf bytes all_sent written = written ≡ bytes
StartOf bytes send_failed written = (left : List ℕ) × (written ++ left ≡ bytes) × (0 < length left)
StartOf bytes send_blocked written = Unit {0}

StartOf-append :
    (first bytes written : List ℕ) (end : SendEnd)
    → StartOf bytes end written
    → StartOf (first ++ bytes) end (first ++ written)
StartOf-append first bytes written all_sent h = ap (λ w. first ++ w) h
StartOf-append first bytes written send_failed (left, whole, more) =
    (left, append_assoc first written left ∙ ap (λ w. first ++ w) whole, more)
StartOf-append first bytes written send_blocked h = tt

empty_of : (bytes : List ℕ) → (length bytes == 0) ≡ true → bytes ≡ []
empty_of [] h = refl
empty_of (b ∷ bytes) h = ground arith

send_all-StartOf :
    (bytes answers : List ℕ) → StartOf bytes (send_all bytes answers).0 (send_all bytes answers).1
unfolding send_all
send_all-StartOf bytes [] = elim (Bool-cases (length bytes == 0)) [
  | inl empty ↦ rw empty (sym (empty_of bytes empty))
  | inr more ↦ rw more tt
]
send_all-StartOf bytes (sent ∷ answers) = elim (Bool-cases (length bytes == 0)) [
  | inl empty ↦ rw empty (sym (empty_of bytes empty))
  | inr more ↦ elim (Bool-cases (sent == 0)) [
    | inl failed ↦ rw (more, failed) (bytes, refl, ground arith)
    | inr some_sent ↦
        rw (more, some_sent)
          (subst
            (λ b.
              StartOf b (send_all (drop sent bytes) answers).0
                (take sent bytes ++ (send_all (drop sent bytes) answers).1))
            (take-drop sent bytes)
            (StartOf-append (take sent bytes) (drop sent bytes) _ _
              (send_all-StartOf (drop sent bytes) answers)))
  ]
]

and_then-StartOf :
    (first second written : List ℕ) (end : SendEnd) (later : SendEnd × List ℕ)
    → StartOf first end written
    → StartOf second later.0 later.1
    → StartOf (first ++ second) (and_then end written later).0 (and_then end written later).1
and_then-StartOf first second written all_sent later h k =
    rw h (StartOf-append first second later.1 later.0 k)
and_then-StartOf first second written send_failed later (left, whole, more) k = (
  left ++ second,
  sym (append_assoc written left second) ∙ ap (λ w. w ++ second) whole,
  omega (arith, more, length-append left second),
)
and_then-StartOf first second written send_blocked later h k = tt

send_both-StartOf :
    (header payload answers : List ℕ)
    → StartOf
        (header ++ payload)
        (send_both header payload answers).0
        (send_both header payload answers).1
unfolding send_both
send_both-StartOf header payload answers =
    let left = (send_all header answers).2 in
    and_then-StartOf header payload (send_all header answers).1 (send_all header answers).0
      ((send_all payload left).0, (send_all payload left).1) (send_all-StartOf header answers)
      (send_all-StartOf payload left)

abbrev pub returns : Option Bool → Bool
returns none = false
returns (some _) = true

abbrev pub is_sent : Option Bool → Bool
is_sent (some true) = true
is_sent _ = false

-- The calls on one client: what its socket has got since it was connected, the frames of the calls that
-- returned true since then, and the same for each connection that the client has closed.
pub record Line : Type 0 where
  pub client : ImageClient
  pub bytes : List ℕ
  pub frames : List ImageFrame
  pub ended : List (List ImageFrame × List ℕ)

-- A connection goes on as long as the client keeps its socket, whatever the call gave.
abbrev pub line_after : SendCall → Line → Bool → FrameSent → Line
line_after call l connected (result, client, written) =
    let frames = if is_sent result then l.frames ++ frame_of call ∷ [] else l.frames in
    if has_socket client.socket
    then record { client = client; bytes = l.bytes ++ written; frames = frames; ended = l.ended }
    else if connected
    then record {
      client = client;
      bytes = [];
      frames = [];
      ended = l.ended ++ (frames, l.bytes ++ written) ∷ [];
    }
    else record l { client = client }

-- A call that does not return is the last one; the bytes of the calls before it are kept.
unfoldable pub send_calls : List SendCall → Line → Line
send_calls [] l = l
send_calls (call ∷ calls) l =
    let sent = send_image_frame call l.client in
    let after = line_after call l (ensure_image_connected call.now call.answer l.client).0 sent in
    let later = send_calls calls after in if returns sent.0 then later else l

-- Whole frames, and then less than one. All of them pass the server's checks.
pub record IsCut (connection : List ImageFrame × List ℕ) : Type 0 where
  pub sendable : AllSendable connection.0
  pub part : List ℕ
  pub left : List ℕ
  pub failed : ImageFrame
  pub failed_sendable : IsSendableImage failed
  pub whole : part ++ left ≡ sent_bytes failed.0 failed.1
  pub more : 0 < length left
  pub got : connection.1 ≡ stream_bytes connection.0 ++ part

abbrev pub AllCut : List (List ImageFrame × List ℕ) → Type 0
AllCut [] = Unit {0}
AllCut (connection ∷ connections) = IsCut connection × AllCut connections

abbrev pub IsWhole : Line → Type 0
IsWhole l = (l.bytes ≡ stream_bytes l.frames) × AllSendable l.frames × AllCut l.ended

abbrev pub SendsAll : List SendCall → Type 0
SendsAll [] = Unit {0}
SendsAll (call ∷ calls) = IsSendableImage (frame_of call) × SendsAll calls

AllSendable-append :
    (frames : List ImageFrame) (last : ImageFrame)
    → AllSendable frames
    → IsSendableImage last
    → AllSendable (frames ++ last ∷ [])
AllSendable-append [] last all ok = (ok, tt)
AllSendable-append (f ∷ fs) last all ok = (all.0, AllSendable-append fs last all.1 ok)

AllCut-append :
    (connections : List (List ImageFrame × List ℕ)) (last : List ImageFrame × List ℕ)
    → AllCut connections
    → IsCut last
    → AllCut (connections ++ last ∷ [])
AllCut-append [] last all cut = (cut, tt)
AllCut-append (c ∷ cs) last all cut = (all.0, AllCut-append cs last all.1 cut)

stream_bytes-append :
    (frames : List ImageFrame) (frame : ImageFrame)
    → stream_bytes (frames ++ frame ∷ []) ≡ stream_bytes frames ++ sent_bytes frame.0 frame.1
stream_bytes-append [] frame = append-nil (sent_bytes frame.0 frame.1)
stream_bytes-append (f ∷ fs) frame =
    ap (λ bs. sent_bytes f.0 f.1 ++ bs) (stream_bytes-append fs frame)
    ∙ sym (append_assoc (sent_bytes f.0 f.1) (stream_bytes fs) (sent_bytes frame.0 frame.1))

send_ended-IsWhole :
    (call : SendCall) (l : Line) (both : SendEnd × List ℕ) (c : ImageClient)
    → has_socket c.socket ≡ true
    → returns (send_ended both c).0 ≡ true
    → IsSendableImage (frame_of call)
    → StartOf (sent_bytes (frame_of call).0 (frame_of call).1) both.0 both.1
    → IsWhole l
    → IsWhole (line_after call l true (send_ended both c))
send_ended-IsWhole call l (all_sent, written) c open_ on ok start h = rw open_ (
  rw (h.0, start) (sym (stream_bytes-append l.frames (frame_of call))),
  AllSendable-append l.frames (frame_of call) h.1 ok,
  h.2,
)
send_ended-IsWhole call l (send_failed, written) c open_ on ok (left, whole, more) h = (
  refl,
  tt,
  AllCut-append l.ended (l.frames, l.bytes ++ written) h.2
      (record {
        sendable = h.1;
        part = written;
        left = left;
        failed = frame_of call;
        failed_sendable = ok;
        whole = whole;
        more = more;
        got = ap (λ bs. bs ++ written) h.0;
      }),
)
send_ended-IsWhole call l (send_blocked, written) c open_ on ok start h = absurd (cc on)

-- ensure_connected says whether the client has a socket afterwards.
connected_lem :
    (now : ℕ) (answer : ConnectAnswer) (c : ImageClient)
    → let (connected, after, gone) = ensure_image_connected now answer c in
      has_socket after.socket ≡ connected
unfolding ensure_image_connected
connected_lem now answer c = ground arith

line_after-IsWhole :
    (call : SendCall) (l : Line)
    → returns (send_image_frame call l.client).0 ≡ true
    → IsSendableImage (frame_of call)
    → IsWhole l
    → IsWhole (
        line_after call l
          (ensure_image_connected call.now call.answer l.client).0
          (send_image_frame call l.client))
unfolding send_image_frame sent_bytes
line_after-IsWhole call l on ok h =
    let has = connected_lem call.now call.answer l.client in
    elim (Bool-cases (ensure_image_connected call.now call.answer l.client).0) [
      | inr closed ↦ rw (closed, has ∙ closed) h
      | inl open_ ↦ rw open_ (
          send_ended-IsWhole call l
            (send_both (image_header_bytes (frame_of call).0) call.payload call.sends)
            (ensure_image_connected call.now call.answer l.client).1 (has ∙ open_) (rw open_ at on)
            ok (send_both-StartOf (image_header_bytes (frame_of call).0) call.payload call.sends) h)
    ]

abbrev pub no_line : Line
no_line = record {
  client = record { socket = none; last_connect_attempt_ns = 0 };
  bytes = [];
  frames = [];
  ended = [];
}

calls_keep :
    (calls : List SendCall) (l : Line) → SendsAll calls → IsWhole l → IsWhole (send_calls calls l)
unfolding send_calls
calls_keep [] l ok h = h
calls_keep (call ∷ calls) l ok h = elim (Bool-cases (returns (send_image_frame call l.client).0)) [
  | inl on ↦ rw on (calls_keep calls _ ok.1 (line_after-IsWhole call l on ok.0 h))
  | inr stuck ↦ rw stuck h
]

pub send_calls-IsWhole :
    (calls : List SendCall) → SendsAll calls → IsWhole (send_calls calls no_line)
send_calls-IsWhole calls ok = calls_keep calls no_line ok (refl, tt, tt)
