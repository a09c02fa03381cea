-- ===== src/Host/Stream.antt =====
-- host-bridge/openxr_host.cpp: the frames of `--video-send-rgba`, from the sender to the image that the
-- host shows.
use axrb.Common.{
  le_mul, ℕ, zero, suc, ◌+◌, ◌*◌, ◌^◌, ◌<◌, ◌≤◌, ◌≡◌, refl, ap, sym, ◌∙◌, u32, Bool, true, none,
  some, List, [], ◌∷◌, ◌++◌, length, arith,
}
use axrb.Image.Client.{client_header}
use axrb.Video.Frame.{EncodedVideoFrame}
use axrb.Video.Receiver.{Receiver, new_receiver, find_frame}
use axrb.Video.Loop.{Event, datagram, goes_on, waiting, receive_loop, receive}
use axrb.Video.Batches.{receive_loop-append}
use axrb.Video.Sender.{Sender, socket_is_open, send_frame}
use axrb.Video.Packets.{IsSendable}
use axrb.Video.Packet.{max_frame_size}
use axrb.Video.RoundTrip.{all_accepted, datagrams, send_receive}
use axrb.Video.Synthetic.{make_synthetic_rgba_frame, length-rgba_payload}
use axrb.Host.Decode.{decode_video_frame_to_image, frame_bytes, decode_raw}
use axrb.Host.Upload.Indexes.{IsImage}
use axrb.Host.Run.{send_video}

-- The frames with the numbers from `i` on.
abbrev pub frames_from : (ℕ → EncodedVideoFrame) → ℕ → ℕ → List EncodedVideoFrame
frames_from make zero i = []
frames_from make (suc left) i = make i ∷ frames_from make left (i + 1)

abbrev pub always : ℕ → ℕ → Bool
always i = all_accepted

datagrams-append : (xs ys : List (List ℕ)) → datagrams (xs ++ ys) ≡ datagrams xs ++ datagrams ys
datagrams-append [] ys = refl
datagrams-append (x ∷ xs) ys = ap (λ zs. datagram x ∷ zs) (datagrams-append xs ys)

send_video_step :
    (make : ℕ → EncodedVideoFrame) (s : Sender) (left i : ℕ)
    → (send_frame s (make i) all_accepted).0 ≡ true
    → send_video make always s (suc left) i ≡ (
      (send_video make always s left (i + 1)).0,
      (send_frame s (make i) all_accepted).1 ++ (send_video make always s left (i + 1)).1,
    )
unfolding send_video
send_video_step make s left i ok = rw ok refl

none_held :
    (f : EncodedVideoFrame) (r : Receiver) → r.frames ≡ [] → find_frame f.frame_id r.frames ≡ none
unfolding find_frame
none_held f r empty = rw empty refl

-- What the loop makes of a frame's packets, and then of others.
batch_then :
    (f : EncodedVideoFrame) (events : List Event) (more : List Event) (r r' : Receiver)
    → receive_loop 0 events r ≡ (f ∷ [], waiting, r')
    → receive_loop 0 (events ++ more) r
      ≡ (f ∷ (receive_loop 0 more r').0, (receive_loop 0 more r').1, (receive_loop 0 more r').2)
batch_then f events more r r' e = receive_loop-append events more r ∙ rw e refl

stream_received :
    (make : ℕ → EncodedVideoFrame) (s : Sender) (left i : ℕ) (r : Receiver)
    → socket_is_open s.socket ≡ true
    → ((k : ℕ) → i ≤ k → k < i + left → IsSendable (make k))
    → r.frames ≡ []
    → let (code, packets) = send_video make always s left i in
      let (delivered, outcome, r') = receive_loop 0 (datagrams packets) r in
      (code ≡ 0) × (delivered ≡ frames_from make left i) × (outcome ≡ waiting)
unfolding send_video receive_loop goes_on
stream_received make s zero i r o sendable empty = (refl, refl, refl)
stream_received make s (suc left) i r o sendable empty =
    let f = make i in
    let r' : Receiver = record r { completed = u32 (r.completed + 1) } in
    let (sent, came) =
      send_receive f s r (sendable i (omega arith) (omega arith)) o (none_held f r empty)
        (omega (arith, ap length empty)) in
    let (code, delivered, outcome) =
      stream_received make s left (i + 1) r' o (λ k le lt. sendable k (omega arith) (omega arith))
        empty in
    rw
      (
        send_video_step make s left i sent,
        datagrams-append (send_frame s f all_accepted).1 (send_video make always s left (i + 1)).1,
        batch_then f _ (datagrams (send_video make always s left (i + 1)).1) r r' came,
      )
      (code, ap (λ fs. f ∷ fs) delivered, outcome)

module _ (now : ℕ → ℕ) (width height : ℕ) (wide : 0 < width) (high : 0 < height)
    (small : width * height * 4 ≤ max_frame_size) where
  abbrev rgba : ℕ → EncodedVideoFrame
  rgba i = make_synthetic_rgba_frame i (now i) width height

  length-rgba : (i : ℕ) → length (EncodedVideoFrame.payload (rgba i)) ≡ width * height * 4
  length-rgba i = length-rgba_payload i (now i) width height ∙ omega (arith, small)

  rgba-IsSendable : (i : ℕ) → i < 2 ^ 32 → now i < 2 ^ 64 → IsSendable (rgba i)
  unfolding make_synthetic_rgba_frame
  rgba-IsSendable i h t = record {
    stream_id = omega arith;
    codec = omega arith;
    frame_id = omega arith;
    capture_time_ns = omega arith;
    width = omega (arith, small, le_mul width height high);
    height = omega (arith, small, le_mul height width wide);
    some_bytes = omega (arith, length-rgba i, le_mul width height high, wide);
    frame_fits = omega (arith, length-rgba i, small);
  }

  rgba_decoded :
      (padding i : ℕ)
      → decode_video_frame_to_image padding (rgba i)
        ≡ some (
          client_header i width height 1 (width * height * 4) (now i) padding,
          EncodedVideoFrame.payload (rgba i),
        )
  unfolding make_synthetic_rgba_frame
  rgba_decoded padding i =
      let bytes : frame_bytes (rgba i) ≡ width * height * 4 = omega (arith, small) in
      decode_raw padding (rgba i) refl wide high (length-rgba i ∙ sym bytes)
      ∙ ap
          (λ n.
            some (
              client_header i width height 1 n (now i) padding,
              EncodedVideoFrame.payload (rgba i),
            ))
          bytes

  rgba-IsImage :
      (padding i : ℕ)
      → IsImage
          (client_header i width height 1 (width * height * 4) (now i) padding)
          (EncodedVideoFrame.payload (rgba i))
  unfolding client_header
  rgba-IsImage padding i = record {
    bytes_per_pixel = refl;
    size = length-rgba i ∙ omega arith;
    small = omega (arith, small);
  }

-- The frames of `--video-send-rgba`, where the sides are positive and an image has 64 MiB at most, and
-- `sendto` takes all packets: the sender ends with code 0; a receiver without a limit that gets the
-- packets in order delivers the frames, each once and in order, and waits for more; and the host decodes
-- each of them to an image of one layer with the frame's number, time and pixels, and with as many bytes
-- as an upload needs.
pub rgba_stream_shown :
    (now : ℕ → ℕ) (width height frames padding : ℕ) (s : Sender)
    → 0 < width
    → 0 < height
    → width * height * 4 ≤ max_frame_size
    → frames ≤ 2 ^ 32
    → ((i : ℕ) → now i < 2 ^ 64)
    → socket_is_open s.socket ≡ true
    → let make : ℕ → EncodedVideoFrame = λ i. make_synthetic_rgba_frame i (now i) width height in
      let (code, packets) = send_video make always s frames 0 in
      (code ≡ 0)
      × (receive true 0 (datagrams packets) ≡ (frames_from make frames 0, waiting))
      × ((i : ℕ)
          → let h = client_header i width height 1 (width * height * 4) (now i) padding in
            (decode_video_frame_to_image padding (make i)
              ≡ some (h, EncodedVideoFrame.payload (make i)))
            × IsImage h (EncodedVideoFrame.payload (make i)))
unfolding receive
rgba_stream_shown now width height frames padding s wide high small few clock o =
    let make : ℕ → EncodedVideoFrame = λ i. make_synthetic_rgba_frame i (now i) width height in
    let (code, delivered, outcome) =
      stream_received make s frames 0 new_receiver o
        (λ k le lt. rgba-IsSendable now width height wide high small k (omega arith) (clock k))
        refl in
    (
      code,
      rw (delivered, outcome) refl,
      λ i. (
        rgba_decoded now width height wide high small padding i,
        rgba-IsImage now width height wide high small padding i,
      ),
    )
