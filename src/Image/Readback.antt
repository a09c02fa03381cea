-- ===== src/Image/Readback.antt =====
-- What xrEndFrame of android-runtime/session.cpp reads back, against the checks of TcpImageServer in
-- protocol/image_transport.cpp.
use axrb.Common.{
  ℕ, zero, suc, ◌*◌, ◌≤◌, ◌<◌, ◌≡◌, sym, subst, ◌∙◌, true, false, not, ◌||◌, Option, none, some,
  u64, arith, ltb, ◌==◌, if◌then◌else◌,
}
use native.Mathlib.Nat.{mul-le-mul}
use axrb.Runtime.{Runtime}
use axrb.Runtime.Frame.{Readback, maybe_send_swapchain_image, readback_of, send_texture, texture_at}
use axrb.Image.Header.{valid_image_header, max_image_payload}
use axrb.Image.Client.{client_header}

record Sized (i : Readback) : Type 0 where
  width : (0 < i.width) × (i.width ≤ 512)
  height : (0 < i.height) × (i.height ≤ 512)
  layers : (0 < i.layers) × (i.layers ≤ 4)
  payload : i.payload_bytes ≡ u64 (u64 (u64 (i.width * i.height) * 4) * i.layers)

readback_of-Sized :
    (texture : ℕ) (r : Runtime) (i : Readback)
    → 0 < r.swapchain_width
    → 0 < r.swapchain_height
    → 0 < r.swapchain_array_size
    → readback_of texture r ≡ some i
    → Sized i
unfolding readback_of
readback_of-Sized texture r i w h l e = record {
  width = ground arith;
  height = ground arith;
  layers = ground arith;
  payload = ground arith;
}

send_texture-readback_of :
    (o : Option ℕ) (r : Runtime) (i : Readback)
    → (send_texture o r).0 ≡ some i
    → (texture : ℕ) × (readback_of texture r ≡ some i)
unfolding send_texture
send_texture-readback_of none r i e = absurd (cc e)
send_texture-readback_of (some texture) r i e = (texture, ground arith)

sent-Sized : (r : Runtime) (i : Readback) → (maybe_send_swapchain_image r).0 ≡ some i → Sized i
unfolding maybe_send_swapchain_image
sent-Sized r i e =
    let texture = texture_at r.gl_swapchain_textures r.last_released_swapchain_image in
    let sent : (send_texture texture r).0 ≡ some i = ground arith in
    let (name, read) = send_texture-readback_of texture r i sent in
    readback_of-Sized name r i (ground arith) (ground arith) (ground arith) read

-- The two ends multiply in different orders.
sizes_agree :
    (a l : ℕ)
    → a ≤ 512 * 512
    → l ≤ 4
    → (u64 (u64 (u64 a * 4) * l) ≡ u64 (u64 (u64 a * l) * 4))
      × (u64 (u64 (u64 a * 4) * l) ≡ a * l * 4)
      × (u64 (u64 (u64 a * 4) * l) ≤ 4 * 1024 * 1024)
sizes_agree a zero h k = (omega arith, omega arith, omega arith)
sizes_agree a (suc zero) h k = (omega arith, omega arith, omega arith)
sizes_agree a (suc (suc zero)) h k = (omega arith, omega arith, omega arith)
sizes_agree a (suc (suc (suc zero))) h k = (omega arith, omega arith, omega arith)
sizes_agree a (suc (suc (suc (suc zero)))) h k = (omega arith, omega arith, omega arith)
sizes_agree a (suc (suc (suc (suc (suc l))))) h k = absurd (omega arith)

passes :
    (size expected : ℕ)
    → size ≡ expected
    → size ≤ max_image_payload
    → (if not (size == expected) || ltb max_image_payload size then false else true) ≡ true
passes size expected e h = ground arith

-- What xrEndFrame reads back is sent with a header that passes the image server's checks, and with a
-- payload of 4 bytes for each pixel of each layer, 4 MiB at most.
pub readback_accepted :
    (r : Runtime) (i : Readback) (now padding : ℕ)
    → (maybe_send_swapchain_image r).0 ≡ some i
    → (valid_image_header
          (client_header i.sequence i.width i.height i.layers i.payload_bytes now padding)
        ≡ true)
      × (i.payload_bytes ≡ i.width * i.height * i.layers * 4)
      × (i.payload_bytes ≤ 4 * 1024 * 1024)
unfolding valid_image_header client_header
readback_accepted r i now padding e =
    let s = sent-Sized r i e in
    let area : i.width * i.height ≤ 512 * 512 = mul-le-mul s.width.1 s.height.1 in
    let sizes = sizes_agree (i.width * i.height) i.layers area s.layers.1 in
    let small = subst (λ n. n ≤ 4 * 1024 * 1024) (sym s.payload) sizes.2 in
    (passes i.payload_bytes _ (s.payload ∙ sizes.0) (omega arith), s.payload ∙ sizes.1, small)
