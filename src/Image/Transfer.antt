-- ===== src/Image/Transfer.antt =====
-- Images from ImageTransportClient::send_frame of android-runtime/session.cpp to the callback of
-- TcpImageServer in protocol/image_transport.cpp.
use axrb.Common.{
  ℕ, zero, suc, ◌+◌, ◌≤◌, ◌≡◌, refl, sym, ap, subst, ◌∙◌, true, none, some, List, [], ◌∷◌, ◌++◌,
  append_assoc, append-nil, length, length-append, take, drop, arith, inl, inr, u32,
}
use axrb.Image.Header.{image_header_bytes, read_image_header, valid_image_header, image_header_size}
use axrb.Image.Stream.{Connection, recv_all, bytes_of}
use axrb.Image.Server.{
  ImageFrame, recv_image, after_header, serve_client, serve_clients, serve_with_callback,
  takes_more, one_more,
}
use axrb.Image.Client.{sent_bytes}
use axrb.Image.Fragments.{NoEmpty, recv_all_lem, take-append-long, drop-append-long}
use axrb.Image.Layout.{FitsImage, read-image_header_bytes, length-image_header_bytes}

pub take_exact : (n : ℕ) (xs ys : List ℕ) → length xs ≡ n → take n (xs ++ ys) ≡ xs
take_exact n xs ys e =
    take-append-long n xs ys (omega arith)
    ∙ ap (λ k. xs ++ take k ys) {y = 0} (omega arith)
    ∙ append-nil xs

drop_exact : (n : ℕ) (xs ys : List ℕ) → length xs ≡ n → drop n (xs ++ ys) ≡ ys
drop_exact n xs ys e =
    drop-append-long n xs ys (omega arith) ∙ ap (λ k. drop k ys) {y = 0} (omega arith)

-- A read of exactly the bytes that come first.
recv_exact :
    (n : ℕ) (connection : Connection) (first more : List ℕ)
    → NoEmpty connection
    → length first ≡ n
    → bytes_of connection ≡ first ++ more
    → (rest : Connection) × (recv_all n connection ≡ some (first, rest))
      × (bytes_of rest ≡ more)
      × NoEmpty rest
recv_exact n connection first more full e b = elim (recv_all_lem n connection full) [
  | inl (rest, enough, got, left, full') ↦ (
    rest,
    rw (got, b, take_exact n first more e) refl,
    left ∙ rw b (drop_exact n first more e),
    full',
  )
  | inr (short, none_) ↦ absurd (omega (arith, ap length b, length-append first more))
]

-- A frame whose header passes the server's checks and says how long the payload is.
pub record IsSendableImage (frame : ImageFrame) : Type 0 where
  pub fits : FitsImage frame.0
  pub valid : valid_image_header frame.0 ≡ true
  pub size : length frame.1 ≡ frame.0.payload_size

abbrev pub AllSendable : List ImageFrame → Type 0
AllSendable [] = Unit {0}
AllSendable (frame ∷ frames) = IsSendableImage frame × AllSendable frames

abbrev pub stream_bytes : List ImageFrame → List ℕ
stream_bytes [] = []
stream_bytes ((h, payload) ∷ frames) = sent_bytes h payload ++ stream_bytes frames

after_header_valid :
    (bytes payload : List ℕ) (r1 r2 : Connection)
    → valid_image_header (read_image_header bytes) ≡ true
    → recv_all (read_image_header bytes).payload_size r1 ≡ some (payload, r2)
    → after_header (some (bytes, r1)) ≡ some ((read_image_header bytes, payload), r2)
unfolding after_header
after_header_valid bytes payload r1 r2 v got = rw (v, after_header, got) refl

pub recv_image_exact :
    (frame : ImageFrame) (connection : Connection) (more : List ℕ)
    → IsSendableImage frame
    → NoEmpty connection
    → bytes_of connection ≡ sent_bytes frame.0 frame.1 ++ more
    → (rest : Connection) × (recv_image connection ≡ some (frame, rest))
      × (bytes_of rest ≡ more)
      × NoEmpty rest
unfolding recv_image sent_bytes
recv_image_exact (h, payload) connection more s full b =
    let (r1, got1, left1, full1) =
      recv_exact image_header_size connection (image_header_bytes h) (payload ++ more) full
        (length-image_header_bytes h) (b ∙ append_assoc (image_header_bytes h) payload more) in
    let (r2, got2, left2, full2) = recv_exact h.payload_size r1 payload more full1 s.size left1 in
    let e = read-image_header_bytes h s.fits in
    let read =
      after_header_valid (image_header_bytes h) payload r1 r2
        (subst (λ k. valid_image_header k ≡ true) (sym e) s.valid)
        (subst (λ k. recv_all k.payload_size r1 ≡ some (payload, r2)) (sym e) got2) in
    (r2, ap after_header got1 ∙ read ∙ ap (λ k. some ((k, payload), r2)) e, left2, full2)

pub recv_image_nothing :
    (connection : Connection)
    → NoEmpty connection
    → bytes_of connection ≡ []
    → recv_image connection ≡ none
unfolding recv_image
recv_image_nothing connection full b = elim (recv_all_lem image_header_size connection full) [
  | inl (rest, enough, got, left, full') ↦ absurd (omega (arith, ap length b))
  | inr (short, none_) ↦ rw none_ refl
]

serve_client_all :
    (fuel count : ℕ) (frames : List ImageFrame) (connection : Connection)
    → length frames ≤ fuel
    → AllSendable frames
    → NoEmpty connection
    → bytes_of connection ≡ stream_bytes frames
    → (serve_client fuel 0 count connection).0 ≡ frames
unfolding serve_client takes_more one_more
serve_client_all zero count [] connection h s full b = refl
serve_client_all zero count (frame ∷ frames) connection h s full b = absurd (omega arith)
serve_client_all (suc fuel) count [] connection h s full b =
    rw (recv_image_nothing connection full b, serve_client) refl
serve_client_all (suc fuel) count (frame ∷ frames) connection h s full b =
    let (rest, got, left, full') =
      recv_image_exact frame connection (stream_bytes frames) s.0 full b in
    rw (got, serve_client)
      (ap (λ fs. frame ∷ fs)
        (serve_client_all fuel (u32 (count + 1)) frames rest (omega arith) s.1 full' left))

pub frames_counted : (frames : List ImageFrame) → length frames ≤ length (stream_bytes frames)
unfolding sent_bytes
frames_counted [] = omega arith
frames_counted ((h, payload) ∷ frames) = omega (
  arith,
  frames_counted frames,
  length-image_header_bytes h,
  length-append (image_header_bytes h ++ payload) (stream_bytes frames),
  length-append (image_header_bytes h) payload,
)

-- The frames that a client sends one after the other, each with a header that passes the server's
-- checks and a payload of the size in the header, all come to the callback of a server without a
-- limit, in order and whole, however the stream is cut into fragments; then the server waits for
-- another client.
pub images_received :
    (frames : List ImageFrame) (connection : Connection)
    → AllSendable frames
    → NoEmpty connection
    → bytes_of connection ≡ stream_bytes frames
    → serve_with_callback true 0 (some connection ∷ []) ≡ (frames, none)
unfolding serve_with_callback serve_clients takes_more
images_received frames connection s full b =
    let all =
      serve_client_all (length (bytes_of connection) + 1) 0 frames connection
        (omega (arith, ap length b, frames_counted frames)) s full b in
    rw (all, append-nil) refl
