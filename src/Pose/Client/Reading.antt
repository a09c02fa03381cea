-- ===== src/Pose/Client/Reading.antt =====
-- What PoseClient::read_available_frames of android-runtime/pose_client.cpp makes of the bytes that a
-- pose server sends.
use axrb.Common.{
  ℕ, zero, suc, ◌+◌, ◌-◌, ◌≤◌, ◌<◌, ◌≡◌, refl, sym, ap, ◌∙◌, Bool, true, false, List, [], ◌∷◌, ◌++◌,
  append_assoc, append-nil, length, take, length-append, ◌==◌, if◌then◌else◌, arith, Bool-cases,
  inl, inr,
}
use mathlib.Core.Path.{ap₂}
use axrb.Pose.Frame.{PoseFrame, pose_frame_size, pose_frame_bytes}
use axrb.Pose.Client.{
  PoseClient, RecvAnswer, got, ended, would_block, failed, close_socket, take_frame, read_frames,
  read_available_frames, CallAnswers, query_pose_broker, ensure_connected, latest_pose_frame,
}
use axrb.Pose.Client.Bytes.{IsSent, read-pose_frame_bytes, length-pose_frame_bytes}

-- The bytes of frames that a server sends one after the other, each with what lies in its padding.
abbrev pub frames_bytes : List (ℕ × PoseFrame) → List ℕ
frames_bytes [] = []
frames_bytes ((padding, f) ∷ frames) = pose_frame_bytes padding f ++ frames_bytes frames

abbrev pub last_frame : List (ℕ × PoseFrame) → PoseFrame → PoseFrame
last_frame [] latest = latest
last_frame ((padding, f) ∷ frames) latest = last_frame frames f

abbrev pub AllSent : List (ℕ × PoseFrame) → Type 0
AllSent [] = Unit {0}
AllSent ((padding, f) ∷ frames) = IsSent f × AllSent frames

-- Bytes, as long as they come.
abbrev pub bytes_of : List RecvAnswer → List ℕ
bytes_of (got (b ∷ bytes) ∷ answers) = (b ∷ bytes) ++ bytes_of answers
bytes_of answers = []

-- How the bytes end: the connection is lost, or `recv` would block, or the call still waits.
pub data Stop : Type 0 where
  lost blocked waiting : Stop

abbrev pub stop_of : List RecvAnswer → Stop
stop_of [] = waiting
stop_of (got (b ∷ bytes) ∷ answers) = stop_of answers
stop_of (would_block ∷ answers) = blocked
stop_of (answer ∷ answers) = lost

-- The result of the call, where it is left with a client.
abbrev pub stopped : Stop → PoseClient → Bool × PoseClient
stopped waiting c = (false, c)
stopped blocked c = (true, c)
stopped lost c = (true, record c { socket_open = false })

-- `recv` gives no more bytes than it is asked for; `n` bytes of the frame have come.
abbrev pub Respects : ℕ → List RecvAnswer → Type 0
Respects n (got bytes ∷ answers) =
    (n + length bytes ≤ pose_frame_size)
    × Respects (if n + length bytes == pose_frame_size then 0 else n + length bytes) answers
Respects n answers = Unit {0}

take_all : (n : ℕ) (xs : List ℕ) → length xs ≤ n → take n xs ≡ xs
take_all zero [] h = refl
take_all zero (x ∷ xs) h = absurd (omega arith)
take_all (suc n) [] h = refl
take_all (suc n) (x ∷ xs) h = ap (λ ys. x ∷ ys) (take_all n xs (omega arith))

append_split :
    (xs xs' : List ℕ) {ys ys' : List ℕ}
    → length xs ≡ length xs'
    → xs ++ ys ≡ xs' ++ ys'
    → (xs ≡ xs') × (ys ≡ ys')
append_split [] [] e p = (refl, p)
append_split [] (x ∷ xs') e p = absurd (omega arith)
append_split (x ∷ xs) [] e p = absurd (omega arith)
append_split (x ∷ xs) (x' ∷ xs') {ys} {ys'} e p =
    let tails : xs ++ ys ≡ xs' ++ ys' = cc in
    let both = append_split xs xs' (omega arith) tails in
    let heads : x ≡ x' = cc in (ap₂ ◌∷◌ heads both.0, both.1)

-- With less than a frame left, no whole frame is left.
none_left :
    (frames : List (ℕ × PoseFrame)) (partial buffer : List ℕ) (latest : PoseFrame)
    → buffer ≡ frames_bytes frames ++ partial
    → length buffer < pose_frame_size
    → last_frame frames latest ≡ latest
none_left [] partial buffer latest e h = refl
none_left ((padding, f) ∷ frames) partial buffer latest e h = absurd (
    omega (
      arith,
      ap length e,
      length-append (frames_bytes ((padding, f) ∷ frames)) partial,
      length-append (pose_frame_bytes padding f) (frames_bytes frames),
      length-pose_frame_bytes padding f,
    ))

take_frame_lem :
    (padding : ℕ) (f : PoseFrame) (bytes : List ℕ) (c : PoseClient)
    → IsSent f
    → bytes ≡ pose_frame_bytes padding f
    → take_frame bytes c ≡ record c { latest = f }
unfolding take_frame
take_frame_lem padding f bytes c s e = rw (e, read-pose_frame_bytes padding f s, s.valid) refl

-- The loops after a frame, and within one.
frame_came :
    (buffer bytes : List ℕ) (b : ℕ) (answers : List RecvAnswer) (c : PoseClient)
    → length buffer + length (b ∷ bytes) ≡ pose_frame_size
    → read_frames buffer (got (b ∷ bytes) ∷ answers) c
      ≡ read_frames [] answers (take_frame (buffer ++ (b ∷ bytes)) c)
unfolding read_frames
frame_came buffer bytes b answers c whole =
    let all : take (pose_frame_size - length buffer) (b ∷ bytes) ≡ b ∷ bytes =
      take_all _ (b ∷ bytes) (omega arith) in
    let size : (length (buffer ++ (b ∷ bytes)) == pose_frame_size) ≡ true =
      ground (arith, length-append buffer (b ∷ bytes)) in
    rw (all, size) refl

part_came :
    (buffer bytes : List ℕ) (b : ℕ) (answers : List RecvAnswer) (c : PoseClient)
    → length buffer + length (b ∷ bytes) < pose_frame_size
    → read_frames buffer (got (b ∷ bytes) ∷ answers) c
      ≡ read_frames (buffer ++ (b ∷ bytes)) answers c
unfolding read_frames
part_came buffer bytes b answers c part =
    let all : take (pose_frame_size - length buffer) (b ∷ bytes) ≡ b ∷ bytes =
      take_all _ (b ∷ bytes) (omega arith) in
    let size : (length (buffer ++ (b ∷ bytes)) == pose_frame_size) ≡ false =
      ground (arith, length-append buffer (b ∷ bytes)) in
    rw (all, size) refl

Read : List RecvAnswer → List ℕ → List (ℕ × PoseFrame) → PoseClient → Type 0
Read answers buffer frames c =
    read_frames buffer answers c
    ≡ stopped (stop_of answers) (record c { latest = last_frame frames c.latest })

stops_now :
    (s : Stop) (frames : List (ℕ × PoseFrame)) (partial buffer : List ℕ) (c : PoseClient)
    → length buffer < pose_frame_size
    → buffer ++ [] ≡ frames_bytes frames ++ partial
    → stopped s c ≡ stopped s (record c { latest = last_frame frames c.latest })
stops_now s frames partial buffer c h e =
    rw (none_left frames partial buffer c.latest (sym (append-nil buffer) ∙ e) h) refl

-- What follows the last byte of a frame, given the theorem for the answers that are left.
whole_frame :
    (answers : List RecvAnswer) (bytes : List ℕ) (frames : List (ℕ × PoseFrame)) (partial : List ℕ)
    (c : PoseClient)
    → length bytes ≡ pose_frame_size
    → length partial < pose_frame_size
    → AllSent frames
    → bytes ++ bytes_of answers ≡ frames_bytes frames ++ partial
    → ((padding : ℕ) (f : PoseFrame) (fs : List (ℕ × PoseFrame))
        → AllSent fs
        → (c' : PoseClient) → [] ++ bytes_of answers ≡ frames_bytes fs ++ partial
        → Read answers [] fs c')
    → read_frames [] answers (take_frame bytes c)
      ≡ stopped (stop_of answers) (record c { latest = last_frame frames c.latest })
unfolding Read
whole_frame answers bytes [] partial c size k sent e next =
    absurd (omega (arith, ap length e, length-append bytes (bytes_of answers)))
whole_frame answers bytes ((padding, f) ∷ frames) partial c size k sent e next =
    let (same, rest) =
      append_split bytes (pose_frame_bytes padding f)
        (size ∙ sym (length-pose_frame_bytes padding f))
        (e ∙ append_assoc (pose_frame_bytes padding f) (frames_bytes frames) partial) in
    rw (take_frame_lem padding f bytes c sent.0 same)
      (next padding f frames sent.1 (record c { latest = f }) rest)

read_frames_lem :
    (answers : List RecvAnswer) (buffer : List ℕ) (frames : List (ℕ × PoseFrame)) (partial : List ℕ)
    (c : PoseClient)
    → length buffer < pose_frame_size
    → length partial < pose_frame_size
    → AllSent frames
    → Respects (length buffer) answers
    → buffer ++ bytes_of answers ≡ frames_bytes frames ++ partial
    → Read answers buffer frames c
unfolding read_frames Read
read_frames_lem [] buffer frames partial c h k sent r e =
    stops_now waiting frames partial buffer c h e
read_frames_lem (ended ∷ answers) buffer frames partial c h k sent r e =
    stops_now lost frames partial buffer c h e
read_frames_lem (would_block ∷ answers) buffer frames partial c h k sent r e =
    stops_now blocked frames partial buffer c h e
read_frames_lem (failed ∷ answers) buffer frames partial c h k sent r e =
    stops_now lost frames partial buffer c h e
read_frames_lem (got [] ∷ answers) buffer frames partial c h k sent r e =
    stops_now lost frames partial buffer c h e
read_frames_lem (got (b ∷ bytes) ∷ answers) buffer frames partial c h k sent r e =
    let buffer' = buffer ++ (b ∷ bytes) in
    let size = length-append buffer (b ∷ bytes) in
    let e' : buffer' ++ bytes_of answers ≡ frames_bytes frames ++ partial =
      append_assoc buffer (b ∷ bytes) (bytes_of answers) ∙ e in
    elim (Bool-cases (length buffer + length (b ∷ bytes) == pose_frame_size)) [
      | inr part ↦
          let r' : Respects (length buffer') answers = rw size (rw part at (r.1)) in
          part_came buffer bytes b answers c (ground arith)
          ∙ read_frames_lem answers buffer' frames partial c (ground (arith, size)) k sent r' e'
      | inl whole ↦
          frame_came buffer bytes b answers c (ground arith)
          ∙ whole_frame answers buffer' frames partial c (ground (arith, size)) k sent e'
              (λ padding f fs s c' e''.
                read_frames_lem answers [] fs partial c' (omega arith) k s (rw whole at (r.1)) e'')
    ]

-- However the bytes are cut into what `recv` gives, where it gives no more than it is asked for: if the
-- bytes that come are whole frames that pass the check, and then less than a frame, the client has the
-- last of these frames afterwards, or the one that it had where there is none. It has lost the
-- connection exactly when the bytes end with the connection, and the call returns exactly when they end
-- with it or with `recv` refusing to block.
pub receive_poses :
    (answers : List RecvAnswer) (frames : List (ℕ × PoseFrame)) (partial : List ℕ) (c : PoseClient)
    → length partial < pose_frame_size
    → AllSent frames
    → Respects 0 answers
    → bytes_of answers ≡ frames_bytes frames ++ partial
    → read_available_frames answers c
      ≡ stopped (stop_of answers) (record c { latest = last_frame frames c.latest })
unfolding read_available_frames Read
receive_poses answers frames partial c k sent r e =
    read_frames_lem answers [] frames partial c (omega arith) k sent r e

-- A socket that blocks: `recv` gives neither EAGAIN nor EWOULDBLOCK.
abbrev pub AlwaysBlocks : List RecvAnswer → Type 0
AlwaysBlocks [] = Unit {0}
AlwaysBlocks (would_block ∷ answers) = ⊥
AlwaysBlocks (answer ∷ answers) = AlwaysBlocks answers

read_frames_blocks :
    (answers : List RecvAnswer) (buffer : List ℕ) (c : PoseClient)
    → AlwaysBlocks answers
    → (read_frames buffer answers c).0 ≡ true
    → (read_frames buffer answers c).1.socket_open ≡ false
unfolding read_frames close_socket
read_frames_blocks [] buffer c blocks e = cc
read_frames_blocks (ended ∷ answers) buffer c blocks e = refl
read_frames_blocks (would_block ∷ answers) buffer c blocks e = absurd blocks
read_frames_blocks (failed ∷ answers) buffer c blocks e = refl
read_frames_blocks (got [] ∷ answers) buffer c blocks e = refl
read_frames_blocks (got (b ∷ bytes) ∷ answers) buffer c blocks e =
    read_frames_blocks answers _ _ blocks e

-- The flaw: the client leaves its socket blocking, so with a connection, and no pose from the broker,
-- latest_pose_frame returns only when the connection is lost: as long as a server sends frames, the
-- application that asked for a pose waits.
pub blocked_until_lost :
    (a : CallAnswers) (c : PoseClient)
    → (query_pose_broker a.broker c).0 ≡ false
    → (ensure_connected a.hosts (query_pose_broker a.broker c).1).0 ≡ true
    → AlwaysBlocks a.received
    → (latest_pose_frame a c).0 ≡ true
    → (latest_pose_frame a c).2.socket_open ≡ false
unfolding latest_pose_frame read_available_frames
blocked_until_lost a c no_pose connected blocks e =
    let at = query_pose_broker a.broker c in
    let reads = ensure_connected a.hosts at.1 in
    rw (no_pose, connected)
      (read_frames_blocks a.received [] reads.2 blocks (rw (no_pose, connected) at e))
