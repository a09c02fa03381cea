-- ===== src/Host/Upload/Guards.antt =====
-- When upload_android_frame of host-bridge/openxr_host.cpp goes on to the copy.
use axrb.Common.{ℕ, ◌<◌, ◌≡◌, ◌≢◌, refl, false, ◌||◌, List, [], ◌∷◌, length, leb, ◌==◌, arith}
use axrb.Image.Header.{ImageFrameHeader}
use axrb.Host.Upload.{is_empty}

is_empty_lem : (bytes : List ℕ) → 0 < length bytes → is_empty bytes ≡ false
unfolding is_empty
is_empty_lem [] h = absurd (omega arith)
is_empty_lem (b ∷ bytes) h = refl

pub not_refused :
    (h : ImageFrameHeader) (pixels : List ℕ)
    → 0 < h.width
    → 0 < h.height
    → 0 < h.layers
    → 0 < length pixels
    → (h.width == 0 || (h.height == 0 || (h.layers == 0 || is_empty pixels))) ≡ false
not_refused h pixels wide high some_layer more = ground (arith, is_empty_lem pixels more)

pub leb_of_lt : {a b : ℕ} → a < b → leb b a ≡ false
leb_of_lt h = ground arith

pub ==_of_ne : (a b : ℕ) → b ≢ a → (a == b) ≡ false
==_of_ne a b h = ground arith
