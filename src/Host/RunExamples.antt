-- ===== src/Host/RunExamples.antt =====
-- Command lines of the host program, and one frame of one pixel from the sender to the host's image.
use axrb.Common.{ℕ, ◌*◌, ◌^◌, ◌<◌, ◌≤◌, ◌≡◌, ◌↔◌, refl, true, some, [], ◌∷◌, arith}
use axrb.Runtime.Path.{codes}
use axrb.Image.Client.{client_header}
use axrb.Video.Frame.{EncodedVideoFrame}
use axrb.Video.Loop.{waiting, receive}
use axrb.Video.Sender.{Sender, socket_is_open}
use axrb.Video.RoundTrip.{datagrams}
use axrb.Video.Synthetic.{make_synthetic_rgba_frame}
use axrb.Host.Decode.{decode_video_frame_to_image}
use axrb.Host.Upload.Indexes.{IsImage}
use axrb.Host.Run.{exits, video_recv_udp, serve_openxr, parse_u32, parse_u16, run, send_video}
use axrb.Host.Arguments.{Spells, parse_iff}
use axrb.Host.Stream.{frames_from, always, rgba_stream_shown}

receiver_started :
    run (codes "--video-recv-udp" ∷ codes "5000" ∷ codes "007" ∷ []) ≡ video_recv_udp 5000 7
unfolding run
receiver_started = refl

port_refused : run (codes "--serve-openxr" ∷ codes "65536" ∷ []) ≡ exits 2
unfolding run
port_refused = refl

tail_refused : run (codes "--serve" ∷ codes "80 " ∷ []) ≡ exits 2
unfolding run
tail_refused = refl

port_defaulted : run (codes "--serve-openxr" ∷ []) ≡ serve_openxr 38490 0
unfolding run
port_defaulted = refl

parse_iff_example :
    ((parse_u32 (codes "65536") ≡ some 65536) ↔ (Spells (codes "65536") 65536 × (65536 < 2 ^ 32)))
    × ((parse_u16 (codes "65536") ≡ some 65536) ↔ (Spells (codes "65536") 65536 × (65536 ≤ 65535)))
parse_iff_example = parse_iff (codes "65536") 65536

abbrev open_socket : Sender
open_socket = record { socket = 3 }

abbrev at_nine : ℕ → ℕ
at_nine i = 9

abbrev one_pixel : ℕ → EncodedVideoFrame
one_pixel i = make_synthetic_rgba_frame i (at_nine i) 1 1

rgba_stream_shown_example :
    ((send_video one_pixel always open_socket 2 0).0 ≡ 0)
    × (receive true 0 (datagrams (send_video one_pixel always open_socket 2 0).1)
        ≡ (frames_from one_pixel 2 0, waiting))
    × ((i : ℕ)
        → (decode_video_frame_to_image 0 (one_pixel i)
            ≡ some (client_header i 1 1 1 (1 * 1 * 4) (at_nine i) 0, (one_pixel i).payload))
          × IsImage (client_header i 1 1 1 (1 * 1 * 4) (at_nine i) 0) (one_pixel i).payload)
unfolding socket_is_open
rgba_stream_shown_example =
    rgba_stream_shown at_nine 1 1 2 0 open_socket (omega arith) (omega arith) (omega arith)
      (omega arith) (λ i. omega arith) refl
