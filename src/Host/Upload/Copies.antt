-- ===== src/Host/Upload/Copies.antt =====
-- The loops of upload_android_frame of host-bridge/openxr_host.cpp: each pixel is written once, and no
-- write touches another pixel.
use axrb.Common.{
  ℕ, zero, suc, ◌+◌, ◌*◌, ◌≤◌, ◌<◌, ◌≡◌, refl, sym, ◌∙◌, ◌⊎◌, inl, subst, Bool, List, length,
  get_or, overwrite, replicate, length-overwrite, length-replicate, overwrite_other, overwrite_same,
  ap, arith,
}
use native.Mathlib.Decide.{ℕ_discrete}
use axrb.Image.Header.{ImageFrameHeader, max_image_payload}
use axrb.Host.Upload.{
  buffer_size, source_index, dest_index, pixel_at, copy_row, copy_rows, copy_layers, upload_buffer,
}
use axrb.Host.Upload.Indexes.{
  pixel_number, pixel_count, index_in_range, pixel_number_lt, dest_index_lem, buffer_size_lem,
}

module _ (needs_bgra : Bool) (h : ImageFrameHeader) (pixels : List ℕ)
    (small : pixel_count h * 4 ≤ max_image_payload) where
  abbrev pixel : ℕ → ℕ → ℕ → List ℕ
  pixel layer y x = pixel_at needs_bgra pixels (source_index h layer y x)

  length-pixel : (layer y x : ℕ) → length (pixel layer y x) ≡ 4
  unfolding pixel_at
  length-pixel layer y x = ground arith

  abbrev write : ℕ → ℕ → ℕ → List ℕ → List ℕ
  write layer y x b = overwrite b (dest_index h layer y x) (pixel layer y x)

  write_other :
      (layer y x : ℕ) (b : List ℕ) (j : ℕ)
      → layer < h.layers
      → y < h.height
      → x < h.width
      → length b ≡ pixel_count h * 4
      → (j < pixel_number h layer y x * 4) ⊎ (pixel_number h layer y x * 4 + 4 ≤ j)
      → get_or (write layer y x b) j 0 ≡ get_or b j 0
  write_other layer y x b j p q r size away =
      let inside = pixel_number_lt h layer y x p q r in
      let at = dest_index_lem h layer y x small p q r in
      let four = length-pixel layer y x in
      overwrite_other b _ _ j 0 (omega (arith, inside, at, four, size)) (ground arith)

  write_same :
      (layer y x : ℕ) (b : List ℕ) (c : ℕ)
      → layer < h.layers
      → y < h.height
      → x < h.width
      → length b ≡ pixel_count h * 4
      → c < 4
      → get_or (write layer y x b) (pixel_number h layer y x * 4 + c) 0
        ≡ get_or (pixel layer y x) c 0
  write_same layer y x b c p q r size lt =
      let inside = pixel_number_lt h layer y x p q r in
      let at = dest_index_lem h layer y x small p q r in
      let four = length-pixel layer y x in
      ap (λ i. get_or (write layer y x b) (i + c) 0) (sym at)
      ∙ overwrite_same b _ _ c 0 (omega (arith, inside, at, four, size)) (omega arith)

  length-copy_row :
      (layer y left x : ℕ) (b : List ℕ)
      → length (copy_row needs_bgra h pixels layer y left x b) ≡ length b
  unfolding copy_row
  length-copy_row layer y zero x b = refl
  length-copy_row layer y (suc left) x b =
      length-copy_row layer y left (x + 1) (write layer y x b)
      ∙ length-overwrite b (dest_index h layer y x) (pixel layer y x)

  copy_row_other :
      (layer y left x : ℕ) (b : List ℕ) (j : ℕ)
      → layer < h.layers
      → y < h.height
      → x + left ≤ h.width
      → length b ≡ pixel_count h * 4
      → (j < pixel_number h layer y x * 4) ⊎ (pixel_number h layer y (x + left) * 4 ≤ j)
      → get_or (copy_row needs_bgra h pixels layer y left x b) j 0 ≡ get_or b j 0
  unfolding copy_row
  copy_row_other layer y zero x b j p q r size away = refl
  copy_row_other layer y (suc left) x b j p q r size away =
      copy_row_other layer y left (x + 1) (write layer y x b) j p q (omega arith)
        (length-overwrite b (dest_index h layer y x) (pixel layer y x) ∙ size) (omega arith)
      ∙ write_other layer y x b j p q (omega arith) size (omega arith)

  copy_row_same :
      (layer y left x : ℕ) (b : List ℕ) (x' c : ℕ)
      → layer < h.layers
      → y < h.height
      → x + left ≤ h.width
      → length b ≡ pixel_count h * 4
      → x ≤ x'
      → x' < x + left
      → c < 4
      → get_or (copy_row needs_bgra h pixels layer y left x b) (pixel_number h layer y x' * 4 + c) 0
        ≡ get_or (pixel layer y x') c 0
  unfolding copy_row
  copy_row_same layer y zero x b x' c p q r size le lt four = absurd (omega arith)
  copy_row_same layer y (suc left) x b x' c p q r size le lt four =
      let size' = length-overwrite b (dest_index h layer y x) (pixel layer y x) ∙ size in
      elim (ℕ_discrete x x') [
        | yes same ↦
            copy_row_other layer y left (x + 1) (write layer y x b) _ p q (omega arith) size'
              (inl (omega arith))
            ∙ subst
                (λ k.
                  get_or (write layer y x b) (pixel_number h layer y k * 4 + c) 0
                  ≡ get_or (pixel layer y k) c 0)
                same (write_same layer y x b c p q (omega arith) size four)
        | no differ ↦
            copy_row_same layer y left (x + 1) (write layer y x b) x' c p q (omega arith) size'
              (omega arith) (omega arith) four
      ]

  length-copy_rows :
      (layer left y : ℕ) (b : List ℕ)
      → length (copy_rows needs_bgra h pixels layer left y b) ≡ length b
  unfolding copy_rows
  length-copy_rows layer zero y b = refl
  length-copy_rows layer (suc left) y b =
      length-copy_rows layer left (y + 1) (copy_row needs_bgra h pixels layer y h.width 0 b)
      ∙ length-copy_row layer y h.width 0 b

  copy_rows_other :
      (layer left y : ℕ) (b : List ℕ) (j : ℕ)
      → layer < h.layers
      → y + left ≤ h.height
      → length b ≡ pixel_count h * 4
      → (j < pixel_number h layer y 0 * 4) ⊎ (pixel_number h layer (y + left) 0 * 4 ≤ j)
      → get_or (copy_rows needs_bgra h pixels layer left y b) j 0 ≡ get_or b j 0
  unfolding copy_rows
  copy_rows_other layer zero y b j p q size away = refl
  copy_rows_other layer (suc left) y b j p q size away =
      copy_rows_other layer left (y + 1) (copy_row needs_bgra h pixels layer y h.width 0 b) j p
        (omega arith) (length-copy_row layer y h.width 0 b ∙ size) (omega arith)
      ∙ copy_row_other layer y h.width 0 b j p (omega arith) (omega arith) size (omega arith)

  copy_rows_same :
      (layer left y : ℕ) (b : List ℕ) (y' x' c : ℕ)
      → layer < h.layers
      → y + left ≤ h.height
      → length b ≡ pixel_count h * 4
      → y ≤ y'
      → y' < y + left
      → x' < h.width
      → c < 4
      → get_or (copy_rows needs_bgra h pixels layer left y b) (pixel_number h layer y' x' * 4 + c) 0
        ≡ get_or (pixel layer y' x') c 0
  unfolding copy_rows
  copy_rows_same layer zero y b y' x' c p q size le lt in_row four = absurd (omega arith)
  copy_rows_same layer (suc left) y b y' x' c p q size le lt in_row four =
      let row = copy_row needs_bgra h pixels layer y h.width 0 b in
      let size' = length-copy_row layer y h.width 0 b ∙ size in
      elim (ℕ_discrete y y') [
        | yes same ↦
            copy_rows_other layer left (y + 1) row _ p (omega arith) size' (
              inl (
                subst (λ k. pixel_number h layer k x' * 4 + c < pixel_number h layer (y + 1) 0 * 4)
                  same (omega arith)))
            ∙ subst
                (λ k.
                  get_or row (pixel_number h layer k x' * 4 + c) 0 ≡ get_or (pixel layer k x') c 0)
                same
                (copy_row_same layer y h.width 0 b x' c p (omega arith) (omega arith) size
                  (omega arith) (omega arith) four)
        | no differ ↦
            copy_rows_same layer left (y + 1) row y' x' c p (omega arith) size' (omega arith)
              (omega arith) in_row four
      ]

  before_next :
      (layer y x c : ℕ)
      → y < h.height
      → x < h.width
      → c < 4
      → pixel_number h layer y x * 4 + c < pixel_number h (layer + 1) 0 0 * 4
  before_next layer y x c q r four = omega (arith, index_in_range y x h.width h.height q r)

  length-copy_layers :
      (left layer : ℕ) (b : List ℕ)
      → length (copy_layers needs_bgra h pixels left layer b) ≡ length b
  unfolding copy_layers
  length-copy_layers zero layer b = refl
  length-copy_layers (suc left) layer b =
      length-copy_layers left (layer + 1) (copy_rows needs_bgra h pixels layer h.height 0 b)
      ∙ length-copy_rows layer h.height 0 b

  copy_layers_other :
      (left layer : ℕ) (b : List ℕ) (j : ℕ)
      → layer + left ≤ h.layers
      → length b ≡ pixel_count h * 4
      → j < pixel_number h layer 0 0 * 4
      → get_or (copy_layers needs_bgra h pixels left layer b) j 0 ≡ get_or b j 0
  unfolding copy_layers
  copy_layers_other zero layer b j p size before = refl
  copy_layers_other (suc left) layer b j p size before =
      copy_layers_other left (layer + 1) (copy_rows needs_bgra h pixels layer h.height 0 b) j
        (omega arith) (length-copy_rows layer h.height 0 b ∙ size) (omega arith)
      ∙ copy_rows_other layer h.height 0 b j (omega arith) (omega arith) size (inl before)

  copy_layers_same :
      (left layer : ℕ) (b : List ℕ) (layer' y' x' c : ℕ)
      → layer + left ≤ h.layers
      → length b ≡ pixel_count h * 4
      → layer ≤ layer'
      → layer' < layer + left
      → y' < h.height
      → x' < h.width
      → c < 4
      → get_or
          (copy_layers needs_bgra h pixels left layer b)
          (pixel_number h layer' y' x' * 4 + c)
          0
        ≡ get_or (pixel layer' y' x') c 0
  unfolding copy_layers
  copy_layers_same zero layer b layer' y' x' c p size le lt in_layer in_row four =
      absurd (omega arith)
  copy_layers_same (suc left) layer b layer' y' x' c p size le lt in_layer in_row four =
      let rows = copy_rows needs_bgra h pixels layer h.height 0 b in
      let size' = length-copy_rows layer h.height 0 b ∙ size in
      elim (ℕ_discrete layer layer') [
        | yes same ↦
            copy_layers_other left (layer + 1) rows _ (omega arith) size' (
              subst (λ k. pixel_number h k y' x' * 4 + c < pixel_number h (layer + 1) 0 0 * 4) same
                (before_next layer y' x' c in_layer in_row four))
            ∙ subst
                (λ k. get_or rows (pixel_number h k y' x' * 4 + c) 0 ≡ get_or (pixel k y' x') c 0)
                same
                (copy_rows_same layer h.height 0 b y' x' c (omega arith) (omega arith) size
                  (omega arith) (omega arith) in_row four)
        | no differ ↦
            copy_layers_same left (layer + 1) rows layer' y' x' c (omega arith) size' (omega arith)
              (omega arith) in_layer in_row four
      ]

  -- Every byte of the upload buffer.
  pub upload_buffer-get_or :
      (layer y x c : ℕ)
      → layer < h.layers
      → y < h.height
      → x < h.width
      → c < 4
      → get_or (upload_buffer needs_bgra h pixels) (pixel_number h layer y x * 4 + c) 0
        ≡ get_or (pixel layer y x) c 0
  unfolding upload_buffer
  upload_buffer-get_or layer y x c p q r four =
      copy_layers_same h.layers 0 (replicate (buffer_size h) 0) layer y x c (omega arith)
        (length-replicate (buffer_size h) 0 ∙ buffer_size_lem h small) (omega arith) (omega arith) q
        r four

  pub length-upload_buffer : length (upload_buffer needs_bgra h pixels) ≡ pixel_count h * 4
  unfolding upload_buffer
  length-upload_buffer =
      length-copy_layers h.layers 0 (replicate (buffer_size h) 0)
      ∙ length-replicate (buffer_size h) 0
      ∙ buffer_size_lem h small
