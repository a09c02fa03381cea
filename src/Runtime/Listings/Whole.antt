-- ===== src/Runtime/Listings/Whole.antt =====
-- The two calls with which a client gets a list from android-runtime/session.cpp.
use axrb.Common.{ℕ, ◌≡◌, Bool, true, false, Option, none, some, List, [], ◌∷◌, length}
use axrb.Xr.{Handle, success}
use axrb.Xr.StructureType.{type_view, type_view_state}
use axrb.Pose.Frame.{PoseFrame}
use axrb.Runtime.{Runtime}
use axrb.Runtime.Enumerate.{Listing}
use axrb.Runtime.Float.{FloatOps}
use axrb.Runtime.Location.{View, locate_views}
use axrb.Runtime.Eyes.{stereo_in}
use axrb.Runtime.Listings.{views_listing}

-- A client's two calls: one for the count, and one with an array of that size.
second_call : {A : Type 0} → (ℕ → Bool → Listing A) → Listing A → Listing A
second_call f (e, none, written) = (e, none, written)
second_call f (success, some n, written) = f n true
second_call f (e, some n, written) = (e, some n, written)

unfoldable pub two_calls : {A : Type 0} → (ℕ → Bool → Listing A) → Listing A
unfolding second_call
two_calls f = second_call f (f 0 false)

-- The two calls succeed and get the whole list.
abbrev pub GivesWhole : {A : Type 0} → List A → (ℕ → Bool → Listing A) → Type 0
GivesWhole all f = two_calls f ≡ (success, some (length all), all)

-- The types that a client sets before the second call.
abbrev pub all_of : ℕ → ℕ → ℕ
all_of expected _ = expected

abbrev pub three_textures : Runtime → List ℕ
three_textures r = let t = r.gl_swapchain_textures in t.first ∷ t.second ∷ t.third ∷ []

-- An array of views, if there is one.
abbrev pub views_if : Bool → Option (ℕ → ℕ)
views_if true = some (all_of type_view)
views_if false = none

-- What xrLocateViews gives for `n` views, with an array or without.
abbrev pub eyes_reply : FloatOps → PoseFrame → Handle → Handle → Runtime → ℕ → Bool → Listing View
eyes_reply ops frame session base r n a = views_listing (
    locate_views ops frame session (some (stereo_in base)) (some type_view_state) n true
      (views_if a) r)
