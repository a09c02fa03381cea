-- ===== src/Host/Run.antt =====
-- OpenXrHost::run of host-bridge/openxr_host.cpp: the command line, and the loops of the two modes that
-- send video. A text is its bytes.
use axrb.Common.{
  ℕ, zero, suc, ◌+◌, ◌-◌, ◌*◌, ◌^◌, Bool, ◌&&◌, not, Option, none, some, List, [], ◌∷◌, ◌++◌,
  get_elem?, ltb, leb, ◌==◌, if◌then◌else◌,
}
use axrb.Runtime.Path.{codes, same_text}
use axrb.Video.Frame.{EncodedVideoFrame}
use axrb.Video.Sender.{Sender, send_frame}

-- What std::from_chars says of a text, read as an unsigned number of 32 bits: the number and what
-- follows its digits, or one of two errors.
pub data FromChars : Type 0 where
  invalid_argument result_out_of_range : FromChars
  parsed : ℕ → List ℕ → FromChars

abbrev pub is_digit : ℕ → Bool
is_digit c = leb b'0' c && leb c b'9'

-- The number that the digits at the front spell behind `n`, and what follows them.
unfoldable pub scan_digits : List ℕ → ℕ → ℕ × List ℕ
scan_digits [] n = (n, [])
scan_digits (c ∷ text) n =
    if is_digit c then scan_digits text (n * 10 + (c - b'0')) else (n, c ∷ text)

unfoldable pub from_chars : List ℕ → FromChars
unfolding scan_digits
from_chars [] = invalid_argument
from_chars (c ∷ text) =
    let (n, rest) = scan_digits (c ∷ text) 0 in
    if not (is_digit c)
    then invalid_argument
    else if leb (2 ^ 32) n
    then result_out_of_range
    else parsed n rest

-- The whole text was read, without an error.
unfoldable pub whole_text : FromChars → Option ℕ
whole_text (parsed n []) = some n
whole_text _ = none

unfoldable pub parse_u32 : List ℕ → Option ℕ
unfolding from_chars whole_text
parse_u32 text = whole_text (from_chars text)

unfoldable pub at_most_65535 : Option ℕ → Option ℕ
at_most_65535 none = none
at_most_65535 (some n) = if ltb 65535 n then none else some n

unfoldable pub parse_u16 : List ℕ → Option ℕ
unfolding from_chars whole_text at_most_65535
parse_u16 text = at_most_65535 (whole_text (from_chars text))

-- What the program goes on to: an exit code, or a server, receiver or sender with its arguments.
pub data Launch : Type 0 where
  exits : ℕ → Launch
  serve_gpu_fds : List ℕ → ℕ → Launch
  video_recv_udp : ℕ → ℕ → Launch
  video_send_synthetic : List ℕ → ℕ → ℕ → ℕ → Launch
  video_send_rgba : List ℕ → ℕ → ℕ → ℕ → ℕ → ℕ → Launch
  serve serve_openxr : ℕ → ℕ → Launch

-- An argument that may be left out, and a number that ends the program where it is none.
abbrev pub argument : Option (List ℕ) → List ℕ → List ℕ
argument none default = default
argument (some text) default = text

unfoldable pub number : (List ℕ → Option ℕ) → Option (List ℕ) → ℕ → (ℕ → Launch) → Launch
number parse none default next = next default
number parse (some text) default next = elim (parse text) [ none ↦ exits 2 | some n ↦ next n ]

-- `arguments` are those from argv[2] on.
unfoldable pub run_mode : List ℕ → List (List ℕ) → Launch
unfolding number parse_u16 parse_u32 same_text
run_mode mode arguments =
    let at = get_elem? arguments in
    let gpu : Launch =
      number parse_u32 (at 1) 0
        (λ frames. serve_gpu_fds (argument (at 0) (codes "/tmp/axrb-gpu-frame.sock")) frames) in
    let recv : Launch =
      number parse_u16 (at 0) 38492
        (λ port. number parse_u32 (at 1) 0 (λ frames. video_recv_udp port frames)) in
    let sends : (ℕ → ℕ → ℕ → Launch) → Launch = λ next. number parse_u16 (at 1) 38492 (λ port.
      number parse_u32 (at 2) 900 (λ frames.
        number parse_u32 (at 3) 90 (λ fps. if fps == 0 then exits 2 else next port frames fps))) in
    let host = argument (at 0) (codes "127.0.0.1") in
    let serves : (ℕ → ℕ → Launch) → Launch = λ next.
      number parse_u16 (at 0) 38490
        (λ port. number parse_u32 (at 1) 0 (λ frames. next port frames)) in
    if same_text mode (codes "--smoke")
    then exits 0
    else if same_text mode (codes "--serve-gpu-fds")
    then gpu
    else if same_text mode (codes "--video-recv-udp")
    then recv
    else if same_text mode (codes "--video-send-synthetic")
    then sends (λ port frames fps. video_send_synthetic host port frames fps)
    else if same_text mode (codes "--video-send-rgba")
    then sends (λ port frames fps. number parse_u32 (at 4) 320 (λ width.
      number parse_u32 (at 5) 180 (λ height. video_send_rgba host port frames fps width height)))
    else if same_text mode (codes "--serve")
    then serves serve
    else if same_text mode (codes "--serve-openxr")
    then serves serve_openxr
    else exits 2

-- `arguments` are those from argv[1] on.
unfoldable pub run : List (List ℕ) → Launch
unfolding run_mode
run [] = exits 0
run (mode ∷ arguments) = run_mode mode arguments

-- The loop over the frames: how many are left, and the next. The exit code, and what went to `sendto`.
unfoldable pub send_video :
    (ℕ → EncodedVideoFrame) → (ℕ → ℕ → Bool) → Sender → ℕ → ℕ → ℕ × List (List ℕ)
send_video make accepted s zero i = (0, [])
send_video make accepted s (suc left) i =
    let (sent, packets) = send_frame s (make i) (accepted i) in
    let (code, more) = send_video make accepted s left (i + 1) in
    if not sent then (1, packets) else (code, packets ++ more)
