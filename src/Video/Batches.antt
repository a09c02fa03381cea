-- ===== src/Video/Batches.antt =====
-- UdpVideoReceiver::receive of protocol/video_transport.cpp without a limit: what it makes of events
-- that come after others.
use axrb.Common.{◌≡◌, refl, ap, ◌∙◌, Option, some, none, List, [], ◌∷◌, ◌++◌}
use axrb.Video.Frame.{EncodedVideoFrame}
use axrb.Video.Receiver.{Receiver, receive_datagram}
use axrb.Video.Loop.{
  Event, timeout, datagram, Result, goes_on, received_bytes, after_frame, receive_loop,
}

abbrev pub then_result : List EncodedVideoFrame → Result → Result
then_result delivered (more, outcome, r) = (delivered ++ more, outcome, r)

after_frame-then_result :
    (frame : Option EncodedVideoFrame) (out : Result) (next : Receiver → Result)
    → after_frame frame (then_result out.0 (next out.2))
      ≡ then_result (after_frame frame out).0 (next (after_frame frame out).2)
unfolding after_frame
after_frame-then_result none out next = refl
after_frame-then_result (some f) out next = refl

pub receive_loop-append :
    (xs ys : List Event) (r : Receiver)
    → receive_loop 0 (xs ++ ys) r
      ≡ then_result (receive_loop 0 xs r).0 (receive_loop 0 ys (receive_loop 0 xs r).2)
unfolding receive_loop goes_on received_bytes
receive_loop-append [] ys r = refl
receive_loop-append (timeout ∷ xs) ys r = receive_loop-append xs ys r
receive_loop-append (datagram [] ∷ xs) ys r = receive_loop-append xs ys r
receive_loop-append (datagram (b ∷ bytes) ∷ xs) ys r =
    let (frame, r') = receive_datagram (b ∷ bytes) r in
    ap (after_frame frame) (receive_loop-append xs ys r')
    ∙ after_frame-then_result frame (receive_loop 0 xs r') (receive_loop 0 ys)
