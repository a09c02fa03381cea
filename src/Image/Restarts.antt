-- ===== src/Image/Restarts.antt =====
-- The image server behind ImageTransportClient, whose connections break.
use axrb.Common.{
  ℕ, zero, suc, ◌+◌, ◌≤◌, ◌<◌, ◌≡◌, refl, sym, ap, subst, ◌∙◌, u32, true, none, some, List, [], ◌∷◌,
  ◌++◌, append_assoc, map, length, length-append, length-drop, take, arith, inl, inr,
}
use axrb.Image.Header.{image_header_bytes, image_header_size, read_image_header, valid_image_header}
use axrb.Image.Layout.{length-image_header_bytes, read-image_header_bytes}
use axrb.Image.Stream.{Connection, recv_all, bytes_of}
use axrb.Image.Server.{
  ImageFrame, recv_image, after_header, serve_client, serve_clients, serve_with_callback,
  takes_more, one_more,
}
use axrb.Image.Client.{sent_bytes}
use axrb.Image.Fragments.{NoEmpty, recv_all_lem, take-append-short}
use axrb.Image.Transfer.{
  stream_bytes, IsSendableImage, AllSendable, take_exact, recv_image_exact, frames_counted,
}
use axrb.Image.Uplink.{SendCall}
use axrb.Image.Whole.{IsCut, AllCut, SendsAll, send_calls, no_line, send_calls-IsWhole}

after_header_short :
    (bytes : List ℕ) (rest : Connection)
    → valid_image_header (read_image_header bytes) ≡ true
    → recv_all (read_image_header bytes).payload_size rest ≡ none
    → after_header (some (bytes, rest)) ≡ none
unfolding after_header
after_header_short bytes rest valid short = rw (valid, after_header, short) refl

-- Less than a frame is no frame, wherever it ends.
recv_image_cut :
    (frame : ImageFrame) (connection : Connection) (left : List ℕ)
    → IsSendableImage frame
    → NoEmpty connection
    → bytes_of connection ++ left ≡ sent_bytes frame.0 frame.1
    → 0 < length left
    → recv_image connection ≡ none
unfolding recv_image sent_bytes
recv_image_cut (h, payload) connection left ok full whole more =
    let part = bytes_of connection in
    elim (recv_all_lem image_header_size connection full) [
      | inr (short, none_) ↦ rw none_ refl
      | inl (rest, enough, got, rest_is, full') ↦
          let first =
            sym (take-append-short image_header_size part left enough)
            ∙ ap (take image_header_size) whole
            ∙ take_exact image_header_size (image_header_bytes h) payload
                (length-image_header_bytes h) in
          let e = read-image_header_bytes h ok.fits in
          let too_short : recv_all h.payload_size rest ≡ none =
            elim (recv_all_lem h.payload_size rest full') [
              | inr (short, none_) ↦ none_
              | inl (more_rest, plenty, got', more_is, full'') ↦ absurd (
                  omega (
                    arith,
                    ap length whole,
                    length-append part left,
                    length-append (image_header_bytes h) payload,
                    length-image_header_bytes h,
                    ok.size,
                    ap length rest_is,
                    length-drop image_header_size part,
                  ))
            ] in
          ap after_header got
          ∙ ap (λ bytes. after_header (some (bytes, rest))) first
          ∙ after_header_short (image_header_bytes h) rest
              (subst (λ k. valid_image_header k ≡ true) (sym e) ok.valid)
              (subst (λ k. recv_all k.payload_size rest ≡ none) (sym e) too_short)
    ]

serve_client_cut :
    (fuel count : ℕ) (frames : List ImageFrame) (failed : ImageFrame) (part left : List ℕ)
    (connection : Connection)
    → length frames ≤ fuel
    → AllSendable frames
    → IsSendableImage failed
    → NoEmpty connection
    → part ++ left ≡ sent_bytes failed.0 failed.1
    → 0 < length left
    → bytes_of connection ≡ stream_bytes frames ++ part
    → (serve_client fuel 0 count connection).0 ≡ frames
unfolding serve_client takes_more one_more
serve_client_cut zero count [] failed part left connection h s ok full whole more b = refl
serve_client_cut zero count (f ∷ fs) failed part left connection h s ok full whole more b =
    absurd (omega arith)
serve_client_cut (suc fuel) count [] failed part left connection h s ok full whole more b =
    let cut = recv_image_cut failed connection left ok full (ap (λ p. p ++ left) b ∙ whole) more in
    rw (cut, serve_client) refl
serve_client_cut (suc fuel) count (f ∷ fs) failed part left connection h s ok full whole more b =
    let (rest, got, left_is, full') =
      recv_image_exact f connection (stream_bytes fs ++ part) s.0 full
        (b ∙ append_assoc (sent_bytes f.0 f.1) (stream_bytes fs) part) in
    rw (got, serve_client)
      (ap (λ frames. f ∷ frames)
        (serve_client_cut fuel (u32 (count + 1)) fs failed part left rest (omega arith) s.1 ok full'
          whole more left_is))

-- The connections that broke, as the server gets them, however they are cut into fragments.
abbrev pub Carries : List (List ImageFrame × List ℕ) → List Connection → Type 0
Carries [] [] = Unit {0}
Carries [] (_ ∷ _) = ⊥
Carries (_ ∷ _) [] = ⊥
Carries (sent ∷ more) (connection ∷ connections) =
    (NoEmpty connection × (bytes_of connection ≡ sent.1)) × Carries more connections

abbrev pub frames_of : List (List ImageFrame × List ℕ) → List ImageFrame
frames_of [] = []
frames_of (sent ∷ more) = sent.0 ++ frames_of more

cut_served :
    (count : ℕ) (sent : List ImageFrame × List ℕ) (connection : Connection)
    → IsCut sent
    → NoEmpty connection
    → bytes_of connection ≡ sent.1
    → (serve_client (length (bytes_of connection) + 1) 0 count connection).0 ≡ sent.0
cut_served count sent connection cut full b =
    let bytes = b ∙ cut.got in
    serve_client_cut (length (bytes_of connection) + 1) count sent.0 cut.failed cut.part cut.left
      connection
      (omega (
        arith,
        ap length bytes,
        frames_counted sent.0,
        length-append (stream_bytes sent.0) cut.part,
      ))
      cut.sendable cut.failed_sendable full cut.whole cut.more bytes

serve_clients-AllCut :
    (count : ℕ) (ended : List (List ImageFrame × List ℕ)) (connections : List Connection)
    → AllCut ended
    → Carries ended connections
    → serve_clients 0 count (map some connections) ≡ (frames_of ended, none)
unfolding serve_clients takes_more
serve_clients-AllCut count [] [] cut carries = refl
serve_clients-AllCut count [] (_ ∷ _) cut carries = elim carries [ ]
serve_clients-AllCut count (_ ∷ _) [] cut carries = elim carries [ ]
serve_clients-AllCut count (sent ∷ more) (connection ∷ connections) cut carries =
    let here = cut_served count sent connection cut.0 carries.0.0 carries.0.1 in
    rw
      (
        here,
        serve_clients-AllCut (serve_client (length (bytes_of connection) + 1) 0 count connection).1
            more connections cut.1 carries.1,
      )
      refl

-- Whatever the system answers to calls of send_frame whose frames pass the server's checks: a server
-- without a limit that gets the connections that the client has closed, however their bytes are cut
-- into fragments, hands exactly the frames to its callback that went over them in calls that returned
-- true, in order, and waits for the next client.
pub broken_connections_served :
    (calls : List SendCall) (connections : List Connection)
    → SendsAll calls
    → Carries (send_calls calls no_line).ended connections
    → serve_with_callback true 0 (map some connections)
      ≡ (frames_of (send_calls calls no_line).ended, none)
unfolding serve_with_callback
broken_connections_served calls connections ok carries =
    serve_clients-AllCut 0 (send_calls calls no_line).ended connections
      (send_calls-IsWhole calls ok).2 carries
