-- ===== src/Host/Upload/Indexes.antt =====
-- Where upload_android_frame of host-bridge/openxr_host.cpp reads and writes: pixels are numbered layer
-- by layer and row by row, and where the image is small no product wraps.
use axrb.Common.{ℕ, ◌+◌, ◌-◌, ◌*◌, ◌≤◌, ◌<◌, ◌≡◌, length, List, arith}
use axrb.Image.Header.{ImageFrameHeader, max_image_payload}
use axrb.Host.Upload.{buffer_size, source_index, source_stride, dest_index}

-- The number of a pixel's row, and of the pixel.
abbrev pub row_number : ImageFrameHeader → ℕ → ℕ → ℕ
row_number h layer y = layer * h.height + y

abbrev pub pixel_number : ImageFrameHeader → ℕ → ℕ → ℕ → ℕ
pixel_number h layer y x = row_number h layer y * h.width + x

abbrev pub pixel_count : ImageFrameHeader → ℕ
pixel_count h = h.width * h.height * h.layers

-- What the image server checks, with the payload that it reads.
pub record IsImage (h : ImageFrameHeader) (pixels : List ℕ) : Type 0 where
  pub bytes_per_pixel : h.bytes_per_pixel ≡ 4
  pub size : length pixels ≡ pixel_count h * 4
  pub small : pixel_count h * 4 ≤ max_image_payload

pub index_in_range : (r c w n : ℕ) → r < n → c < w → r * w + c < n * w
index_in_range r c w n p q = grind arith

row_number_lt :
    (h : ImageFrameHeader) (layer y : ℕ)
    → layer < h.layers
    → y < h.height
    → row_number h layer y < h.layers * h.height
row_number_lt h layer y p q = index_in_range layer y h.height h.layers p q

pub pixel_number_lt :
    (h : ImageFrameHeader) (layer y x : ℕ)
    → layer < h.layers
    → y < h.height
    → x < h.width
    → pixel_number h layer y x < pixel_count h
pixel_number_lt h layer y x p q r =
    let inside =
      index_in_range (row_number h layer y) x h.width (h.layers * h.height)
        (row_number_lt h layer y p q) r in
    omega (arith, inside)

pub dest_index_lem :
    (h : ImageFrameHeader) (layer y x : ℕ)
    → pixel_count h * 4 ≤ max_image_payload
    → layer < h.layers
    → y < h.height
    → x < h.width
    → dest_index h layer y x ≡ pixel_number h layer y x * 4
unfolding dest_index
dest_index_lem h layer y x small p q r = omega (arith, pixel_number_lt h layer y x p q r)

pub source_index_lem :
    (h : ImageFrameHeader) (layer y x : ℕ)
    → h.bytes_per_pixel ≡ 4
    → pixel_count h * 4 ≤ max_image_payload
    → layer < h.layers
    → y < h.height
    → x < h.width
    → source_index h layer y x ≡ pixel_number h layer (h.height - 1 - y) x * 4
unfolding source_index source_stride
source_index_lem h layer y x four small p q r =
    let row : h.height - 1 - y < h.height = omega arith in
    let inside = pixel_number_lt h layer (h.height - 1 - y) x p row r in
    let narrow : h.width * 4 ≤ max_image_payload =
      omega
        (arith, pixel_number_lt h 0 0 (h.width - 1) (omega arith) (omega arith) (omega arith)) in
    let stride : source_stride h ≡ h.width * 4 = rw four (omega arith) in
    let at : layer * h.width * h.height * h.bytes_per_pixel
          + (h.height - 1 - y) * source_stride h
          + x * h.bytes_per_pixel
        ≡ pixel_number h layer (h.height - 1 - y) x * 4 =
      rw (stride, four) (omega arith) in
    rw at (omega arith)

pub buffer_size_lem :
    (h : ImageFrameHeader)
    → pixel_count h * 4 ≤ max_image_payload
    → buffer_size h ≡ pixel_count h * 4
unfolding buffer_size
buffer_size_lem h small = omega arith
