-- ===== src/Host/UploadExamples.antt =====
-- Uploads of an image of two pixels in a column, and of one whose size wraps.
use axrb.Common.{ℕ, ◌<◌, ◌≡◌, ◌≢◌, refl, true, false, none, List, [], ◌∷◌, arith, map, set}
use axrb.Image.Header.{ImageFrameHeader, valid_image_header}
use axrb.Image.Client.{client_header}
use axrb.Host.Upload.{HostImageFrame, store, buffer_size, Projection, Update, upload_android_frame}
use axrb.Host.Upload.Indexes.{IsImage}
use axrb.Host.Upload.Flip.{Shows, upload_flips}

abbrev column : ImageFrameHeader
column = client_header 7 1 2 1 8 9 0

abbrev column_pixels : List ℕ
column_pixels = 1 ∷ 2 ∷ 3 ∷ 4 ∷ 5 ∷ 6 ∷ 7 ∷ 8 ∷ []

abbrev blue_first : Projection
blue_first = record { width = 512; height = 512; needs_bgra = true; uploaded = 0 ∷ 0 ∷ 0 ∷ [] }

abbrev nothing : HostImageFrame
nothing = record { header = column; pixels = none; has_frame = false }

column-IsImage : IsImage column column_pixels
unfolding client_header
column-IsImage = record { bytes_per_pixel = refl; size = refl; small = omega arith }

wide : 0 < column.width
unfolding client_header
wide = omega arith

high : 0 < column.height
unfolding client_header
high = omega arith

some_layer : 0 < column.layers
unfolding client_header
some_layer = omega arith

fresh : 0 ≢ column.sequence
unfolding client_header
fresh = λ e. omega arith

upload_flips_example :
    (first second : Update) × (upload_android_frame
        (store column column_pixels nothing)
        1
        blue_first
      ≡ (
        true,
        record blue_first { uploaded = set blue_first.uploaded 1 column.sequence },
        first ∷ second ∷ [],
      ))
    × Shows blue_first column column_pixels 0 first
    × Shows blue_first column column_pixels 1 second
upload_flips_example =
    upload_flips column column_pixels nothing 1 blue_first column-IsImage wide high some_layer
      (omega arith) fresh

abbrev rows_of : List Update → List (List ℕ)
rows_of updates = map (λ (u : Update). u.rows) updates

column_shown :
    rows_of (upload_android_frame (store column column_pixels nothing) 1 blue_first).2
    ≡ (7 ∷ 6 ∷ 5 ∷ 8 ∷ 3 ∷ 2 ∷ 1 ∷ 4 ∷ []) ∷ (7 ∷ 6 ∷ 5 ∷ 8 ∷ 3 ∷ 2 ∷ 1 ∷ 4 ∷ []) ∷ []
unfolding upload_android_frame store client_header
column_shown = refl

-- The product of the two sides is 2^62 + 1.
abbrev wrapping : ImageFrameHeader
wrapping = record {
  magic = 0x49585241;
  version = 1;
  type = 2;
  header_size = 64;
  width = 2147418113;
  height = 2147549185;
  layers = 1;
  format = 1;
  bytes_per_pixel = 4;
  reserved = 0;
  padding = 0;
  sequence = 1;
  monotonic_time_ns = 9;
  payload_size = 4;
}

wrapping_accepted : valid_image_header wrapping ≡ true
unfolding valid_image_header
wrapping_accepted = refl

-- The copy that the upload makes for all its pixels has 4 bytes.
wrapping_copy : buffer_size wrapping ≡ 4
unfolding buffer_size
wrapping_copy = refl
