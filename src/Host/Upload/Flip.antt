-- ===== src/Host/Upload/Flip.antt =====
-- What upload_android_frame of host-bridge/openxr_host.cpp puts on the projection texture.
use axrb.Common.{
  le_mul, ℕ, zero, suc, ◌+◌, ◌-◌, ◌*◌, ◌<◌, ◌≡◌, ◌≢◌, refl, ap, u32, u64, ◌∙◌, Bool, true, false,
  some, List, [], ◌∷◌, length, get_elem?, get_or, set, drop, get_elem?-drop, get_elem?-get_or, leb,
  ◌==◌, if◌then◌else◌, arith,
}
use native.Mathlib.Nat.{mod-eq_of_lt}
use axrb.Image.Header.{ImageFrameHeader}
use axrb.Host.Upload.{
  HostImageFrame, store, snapshot, pixel_at, upload_buffer, Update, smaller, source_layer,
  update_layer, Projection, upload_image, upload_android_frame,
}
use axrb.Host.Upload.Indexes.{pixel_number, IsImage, pixel_number_lt, source_index_lem}
use axrb.Host.Upload.Guards.{leb_of_lt, ==_of_ne, not_refused}
use axrb.Host.Upload.Copies.{upload_buffer-get_or, length-upload_buffer}

-- The channel of the image that a channel of the texture shows.
abbrev pub channel : Bool → ℕ → ℕ
channel true zero = 2
channel true (suc (suc zero)) = 0
channel blue_first c = c

-- The layer of the image that a layer of the texture shows: the first where the image has only one.
abbrev pub eye_layer : ImageFrameHeader → ℕ → ℕ
eye_layer h zero = 0
eye_layer h (suc t) = if h.layers == 1 then 0 else 1

-- The update of one layer of the texture: the whole of the image's layer, upside down, in the
-- texture's order of channels, and cut to the texture's size.
pub record Shows (p : Projection) (h : ImageFrameHeader) (pixels : List ℕ) (t : ℕ) (u : Update)
    : Type 0 where
  pub target_layer : u.target_layer ≡ t
  pub width : u.width ≡ smaller h.width p.width
  pub height : u.height ≡ smaller h.height p.height
  pub row_pitch : u.row_pitch ≡ h.width * 4
  pub depth_pitch : u.depth_pitch ≡ h.width * h.height * 4
  pub bytes :
      (x y c : ℕ)
      → x < h.width
      → y < h.height
      → c < 4
      → (v : ℕ) × (get_elem? u.rows (y * u.row_pitch + x * 4 + c) ≡ some v)
        × (get_elem? pixels
              (pixel_number h (eye_layer h t) (h.height - 1 - y) x * 4 + channel p.needs_bgra c)
            ≡ some v)

pixel_at-get_or :
    (needs_bgra : Bool) (pixels : List ℕ) (source c : ℕ)
    → c < 4
    → get_or (pixel_at needs_bgra pixels source) c 0
      ≡ get_or pixels (source + channel needs_bgra c) 0
unfolding pixel_at
pixel_at-get_or true pixels source zero h = refl
pixel_at-get_or true pixels source (suc zero) h = refl
pixel_at-get_or true pixels source (suc (suc zero)) h = refl
pixel_at-get_or true pixels source (suc (suc (suc zero))) h = refl
pixel_at-get_or true pixels source (suc (suc (suc (suc c)))) h = absurd (omega arith)
pixel_at-get_or false pixels source zero h = refl
pixel_at-get_or false pixels source (suc zero) h = refl
pixel_at-get_or false pixels source (suc (suc zero)) h = refl
pixel_at-get_or false pixels source (suc (suc (suc zero))) h = refl
pixel_at-get_or false pixels source (suc (suc (suc (suc c)))) h = absurd (omega arith)

channel_lt : (needs_bgra : Bool) (c : ℕ) → c < 4 → channel needs_bgra c < 4
channel_lt true zero h = omega arith
channel_lt true (suc zero) h = omega arith
channel_lt true (suc (suc zero)) h = omega arith
channel_lt true (suc (suc (suc c))) h = h
channel_lt false c h = h

eye_layer_lt : (h : ImageFrameHeader) (t : ℕ) → 0 < h.layers → eye_layer h t < h.layers
eye_layer_lt h zero p = p
eye_layer_lt h (suc t) p = ground arith

source_layer_lem :
    (h : ImageFrameHeader) (t : ℕ) → t < 2 → 0 < h.layers → source_layer h t ≡ eye_layer h t
unfolding source_layer
source_layer_lem h zero lt p = ground arith
source_layer_lem h (suc zero) lt p = ground (arith, λ (more : 1 < h.layers). mod-eq_of_lt more)
source_layer_lem h (suc (suc t)) lt p = absurd (omega arith)

module _ (h : ImageFrameHeader) (pixels : List ℕ) (image : IsImage h pixels) where
  -- A byte of the buffer is the byte of the pixel in the mirrored row.
  buffer_byte :
      (needs_bgra : Bool) (layer y x c : ℕ)
      → layer < h.layers
      → y < h.height
      → x < h.width
      → c < 4
      → (v : ℕ) × (get_elem? (upload_buffer needs_bgra h pixels) (pixel_number h layer y x * 4 + c)
          ≡ some v)
        × (get_elem? pixels (pixel_number h layer (h.height - 1 - y) x * 4 + channel needs_bgra c)
            ≡ some v)
  buffer_byte needs_bgra layer y x c p q r four =
      let source = pixel_number h layer (h.height - 1 - y) x * 4 in
      let written = upload_buffer-get_or needs_bgra h pixels image.small layer y x c p q r four in
      let at = source_index_lem h layer y x image.bytes_per_pixel image.small p q r in
      let row : h.height - 1 - y < h.height = omega arith in
      let size = length-upload_buffer needs_bgra h pixels image.small in
      (
        get_or pixels (source + channel needs_bgra c) 0,
        get_elem?-get_or (upload_buffer needs_bgra h pixels) _ 0
              (omega (arith, size, pixel_number_lt h layer y x p q r))
            ∙ ap some (
                written
                ∙ pixel_at-get_or needs_bgra pixels _ c four
                ∙ ap (λ i. get_or pixels (i + channel needs_bgra c) 0) at),
        get_elem?-get_or pixels _ 0 (
            omega (
              arith,
              image.size,
              channel_lt needs_bgra c four,
              pixel_number_lt h layer (h.height - 1 - y) x p row r,
            )),
      )

  -- One layer of the texture.
  update_layer_lem :
      (p : Projection) (t : ℕ) (updates : List Update)
      → t < 2
      → 0 < h.width
      → 0 < h.height
      → 0 < h.layers
      → (u : Update) × (update_layer p.width p.height h
            (upload_buffer p.needs_bgra h pixels)
            t
            updates
          ≡ u ∷ updates)
        × Shows p h pixels t u
  unfolding update_layer
  update_layer_lem p t updates two wide high some_layer =
      let buffer = upload_buffer p.needs_bgra h pixels in
      let size = length-upload_buffer p.needs_bgra h pixels image.small in
      let layer = eye_layer h t in
      let layer_lt = eye_layer_lt h t some_layer in
      let corner = pixel_number_lt h layer 0 0 layer_lt high wide in
      let plane = le_mul (h.width * h.height) h.layers some_layer in
      let line = le_mul h.width h.height high in
      let offset : u64 (source_layer h t * h.width * h.height * 4) ≡ pixel_number h layer 0 0 * 4 =
        rw (source_layer_lem h t two some_layer) (omega (arith, image.small, corner)) in
      let inside : leb (length buffer) (pixel_number h layer 0 0 * 4) ≡ false =
        ground (arith, size, corner) in
      let pitch : u32 (h.width * 4) ≡ h.width * 4 = omega (arith, image.small, plane, line) in
      let depth : u32 (u32 (h.width * 4) * h.height) ≡ h.width * h.height * 4 =
        rw pitch (omega (arith, image.small, plane)) in
      (
        record {
          target_layer = t;
          width = smaller h.width p.width;
          height = smaller h.height p.height;
          rows = drop (pixel_number h layer 0 0 * 4) buffer;
          row_pitch = u32 (h.width * 4);
          depth_pitch = u32 (u32 (h.width * 4) * h.height);
        },
        rw (offset, inside) refl,
        record {
          target_layer = refl;
          width = refl;
          height = refl;
          row_pitch = pitch;
          depth_pitch = depth;
          bytes = λ x y c in_row in_layer four.
              let (v, shown, stored) =
                buffer_byte p.needs_bgra layer y x c layer_lt in_layer in_row four in
              let at : pixel_number h layer 0 0 * 4 + (y * u32 (h.width * 4) + x * 4 + c)
                  ≡ pixel_number h layer y x * 4 + c =
                rw pitch (omega arith) in
              (
                v,
                get_elem?-drop (pixel_number h layer 0 0 * 4) buffer _
                    ∙ ap (get_elem? buffer) at
                    ∙ shown,
                stored,
              );
        },
      )

bytes_of_image :
    (h : ImageFrameHeader) (pixels : List ℕ)
    → IsImage h pixels
    → 0 < h.width
    → 0 < h.height
    → 0 < h.layers
    → 0 < length pixels
bytes_of_image h pixels image wide high some_layer =
    omega (arith, image.size, pixel_number_lt h 0 0 0 some_layer high wide)

-- After an image has been stored that has as many bytes as its header says, 128 MiB at most, an upload
-- into an image of the projection that does not have the sequence number yet succeeds, remembers the
-- number for that image and no other, and updates the two layers of the texture, the first one first:
-- with the image's first layer and its second one, or the first one where it has only one, each upside
-- down, with its bytes in the texture's order of channels, cut to the texture's size, and with the
-- pitches of the rows. No read goes past the end of the image or of the copy.
pub upload_flips :
    (h : ImageFrameHeader) (pixels : List ℕ) (old : HostImageFrame) (image_index : ℕ)
    (p : Projection)
    → IsImage h pixels
    → 0 < h.width
    → 0 < h.height
    → 0 < h.layers
    → image_index < length p.uploaded
    → get_or p.uploaded image_index 0 ≢ h.sequence
    → (first second : Update) × (upload_android_frame (store h pixels old) image_index p ≡ (
      true,
      record p { uploaded = set p.uploaded image_index h.sequence },
      first ∷ second ∷ [],
    ))
      × Shows p h pixels 0 first
      × Shows p h pixels 1 second
unfolding upload_android_frame store snapshot upload_image
upload_flips h pixels old image_index p image wide high some_layer there new =
    let (second, two, shows2) =
      update_layer_lem h pixels image p 1 [] (omega arith) wide high some_layer in
    let (first, one, shows1) =
      update_layer_lem h pixels image p 0 (second ∷ []) (omega arith) wide high some_layer in
    (
      first,
      second,
      rw
          (
            leb_of_lt there,
            not_refused h pixels wide high some_layer
                (bytes_of_image h pixels image wide high some_layer),
            ==_of_ne h.sequence (get_or p.uploaded image_index 0) new,
            two,
            one,
          )
          refl,
      shows1,
      shows2,
    )
