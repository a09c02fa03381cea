-- ===== src/Host/Upload.antt =====
-- HostImageFrame and the upload of an application's image into the projection texture, in
-- host-bridge/openxr_host.cpp: upload_android_frame of OpenXrPoseSource. A read past the end of a
-- buffer gives 0 here and a write there changes nothing; Upload/Flip says when there are none.
pub mod Indexes
pub mod Copies
pub mod Guards
pub mod Flip
use axrb.Common.{
  ℕ, zero, suc, ◌+◌, ◌-◌, ◌*◌, ◌%◌, u32, u64, Bool, true, false, ◌||◌, not, Option, none, some,
  List, [], ◌∷◌, length, get_or, set, drop, replicate, overwrite, ltb, leb, ◌==◌, if◌then◌else◌,
}
use axrb.Image.Header.{ImageFrameHeader}

-- `pixels` is null until the first frame is stored.
pub record HostImageFrame : Type 0 where
  pub header : ImageFrameHeader
  pub pixels : Option (List ℕ)
  pub has_frame : Bool

unfoldable pub store : ImageFrameHeader → List ℕ → HostImageFrame → HostImageFrame
store header pixels frame = record { header = header; pixels = some pixels; has_frame = true }

unfoldable pub snapshot : HostImageFrame → Option (ImageFrameHeader × List ℕ)
snapshot frame = elim frame.pixels [
  | none ↦ none
  | some pixels ↦ if not frame.has_frame then none else some (frame.header, pixels)
]

unfoldable pub buffer_size : ImageFrameHeader → ℕ
buffer_size h = u64 (h.width * h.height * h.layers * 4)

unfoldable pub source_stride : ImageFrameHeader → ℕ
source_stride h = u32 (h.width * h.bytes_per_pixel)

-- `source` and `dest`: the layer, `y`, `x`.
unfoldable pub source_index : ImageFrameHeader → ℕ → ℕ → ℕ → ℕ
unfolding source_stride
source_index h layer y x = u64 (
    layer * h.width * h.height * h.bytes_per_pixel
    + (h.height - 1 - y) * source_stride h
    + x * h.bytes_per_pixel)

unfoldable pub dest_index : ImageFrameHeader → ℕ → ℕ → ℕ → ℕ
dest_index h layer y x = u64 ((layer * h.width * h.height + y * h.width) * 4 + x * 4)

-- The four bytes that are copied.
unfoldable pub pixel_at : Bool → List ℕ → ℕ → List ℕ
pixel_at needs_bgra pixels source =
    if needs_bgra
    then get_or pixels (source + 2) 0
      ∷ get_or pixels (source + 1) 0
      ∷ get_or pixels (source + 0) 0
      ∷ get_or pixels (source + 3) 0
      ∷ []
    else get_or pixels (source + 0) 0
      ∷ get_or pixels (source + 1) 0
      ∷ get_or pixels (source + 2) 0
      ∷ get_or pixels (source + 3) 0
      ∷ []

module _ (needs_bgra : Bool) (h : ImageFrameHeader) (pixels : List ℕ) where
  -- The loop over `x`: how many are left, and the next.
  unfoldable pub copy_row : ℕ → ℕ → ℕ → ℕ → List ℕ → List ℕ
  unfolding source_index dest_index pixel_at
  copy_row layer y zero x buffer = buffer
  copy_row layer y (suc left) x buffer = copy_row layer y left (x + 1) (
      overwrite buffer (dest_index h layer y x)
        (pixel_at needs_bgra pixels (source_index h layer y x)))

  -- The loop over `y`.
  unfoldable pub copy_rows : ℕ → ℕ → ℕ → List ℕ → List ℕ
  unfolding copy_row
  copy_rows layer zero y buffer = buffer
  copy_rows layer (suc left) y buffer =
      copy_rows layer left (y + 1) (copy_row layer y h.width 0 buffer)

  -- The loop over the layers.
  unfoldable pub copy_layers : ℕ → ℕ → List ℕ → List ℕ
  unfolding copy_rows
  copy_layers zero layer buffer = buffer
  copy_layers (suc left) layer buffer =
      copy_layers left (layer + 1) (copy_rows layer h.height 0 buffer)

  unfoldable pub upload_buffer : List ℕ
  unfolding copy_layers buffer_size
  upload_buffer = copy_layers h.layers 0 (replicate (buffer_size h) 0)

-- The arguments of UpdateSubresource: the layer, the box from (0, 0), and the rows.
pub record Update : Type 0 where
  pub target_layer : ℕ
  pub width : ℕ
  pub height : ℕ
  pub rows : List ℕ
  pub row_pitch : ℕ
  pub depth_pitch : ℕ

abbrev pub smaller : ℕ → ℕ → ℕ
smaller a b = if ltb a b then a else b

unfoldable pub source_layer : ImageFrameHeader → ℕ → ℕ
source_layer h target_layer = if ltb 1 h.layers then target_layer % h.layers else 0

-- One round of the loop over the two layers of the texture.
unfoldable pub update_layer : ℕ → ℕ → ImageFrameHeader → List ℕ → ℕ → List Update → List Update
unfolding source_layer
update_layer width height h buffer target_layer updates =
    let offset = u64 (source_layer h target_layer * h.width * h.height * 4) in
    if leb (length buffer) offset
    then updates
    else record {
      target_layer = target_layer;
      width = smaller h.width width;
      height = smaller h.height height;
      rows = drop offset buffer;
      row_pitch = u32 (h.width * 4);
      depth_pitch = u32 (u32 (h.width * 4) * h.height);
    }
      ∷ updates

-- The projection's size, whether its format is one of the two with blue first, and the sequence number
-- that was uploaded last into each of its images.
pub record Projection : Type 0 where
  pub width : ℕ
  pub height : ℕ
  pub needs_bgra : Bool
  pub uploaded : List ℕ

pub is_empty : List ℕ → Bool
is_empty [] = true
is_empty (b ∷ bytes) = false

-- The part behind the snapshot: the result, the projection afterwards, and the updates.
unfoldable pub upload_image :
    ImageFrameHeader → List ℕ → ℕ → Projection → Bool × Projection × List Update
unfolding is_empty upload_buffer update_layer
upload_image h pixels image_index p =
    let buffer = upload_buffer p.needs_bgra h pixels in
    if h.width == 0 || (h.height == 0 || (h.layers == 0 || is_empty pixels))
    then (false, p, [])
    else if h.sequence == get_or p.uploaded image_index 0
    then (true, p, [])
    else (
      true,
      record p { uploaded = set p.uploaded image_index h.sequence },
      update_layer p.width p.height h buffer 0 (update_layer p.width p.height h buffer 1 []),
    )

-- The source has an image frame, as `--serve-openxr` gives it one.
unfoldable pub upload_android_frame :
    HostImageFrame → ℕ → Projection → Bool × Projection × List Update
unfolding snapshot upload_image
upload_android_frame frame image_index p =
    if leb (length p.uploaded) image_index then (false, p, []) else elim (snapshot frame) [
      | none ↦ (false, p, [])
      | some (h, pixels) ↦ upload_image h pixels image_index p
    ]
