-- ===== src/Host/Source/Layer.antt =====
-- OpenXrPoseSource of host-bridge/openxr_host.cpp keeps the rules of its runtime on swapchain images.
use axrb.Common.{
  ℕ, ◌<◌, ◌≡◌, refl, Bool, true, false, ◌&&◌, ◌||◌, List, [], ◌∷◌, ◌++◌, arith, Bool-cases, inl,
  inr,
}
use axrb.Host.Source.{succeeded, LayerAnswers, Round, update_projection_layer}
use axrb.Host.Source.Conduct.{
  FrameStage, Conduct, has_image, is_held, conduct, conducts, Stands, Ends,
}

is_held-append : (i : ℕ) (images : List ℕ) → is_held i (images ++ i ∷ []) ≡ true
is_held-append i [] = ground arith
is_held-append i (image ∷ images) = ground (arith, is_held-append i images)

has_image-append : (images : List ℕ) (i : ℕ) → has_image (images ++ i ∷ []) ≡ true
has_image-append [] i = refl
has_image-append (image ∷ images) i = refl

nothing_held :
    (images : List ℕ) (waited : Bool)
    → (true && (has_image images || waited)) ≡ false
    → (images ≡ []) × (waited ≡ false)
nothing_held [] waited h = (refl, h)
nothing_held (image ∷ images) waited h = absurd (cc h)

-- The runtime gives an image that there is, and waits for it and takes it back.
abbrev pub LayerServed : LayerAnswers → ℕ → Type 0
LayerServed a images =
    succeeded a.acquire ≡ true
    → (a.image_index < images) × (succeeded a.wait ≡ true) × (succeeded a.release ≡ true)

abbrev pub ServedIf : Bool → ℕ → List Round → Type 0
ServedIf false images rounds = Unit {0}
ServedIf true images [] = Unit {0}
ServedIf true images (r ∷ rounds) = LayerServed r.layer images × ServedIf true images rounds

abbrev pub ServedRound : Bool → ℕ → Round → Type 0
ServedRound false images r = Unit {0}
ServedRound true images r = LayerServed r.layer images

pub ServedIf-round :
    (strict : Bool) (images : ℕ) (r : Round) (rounds : List Round)
    → ServedIf strict images (r ∷ rounds)
    → ServedRound strict images r × ServedIf strict images rounds
ServedIf-round false images r rounds h = (tt, tt)
ServedIf-round true images r rounds h = h

pub update_projection_layer_keeps :
    (strict : Bool) (r : Round) (images : ℕ) (c : Conduct) {running : Bool} {stage : FrameStage}
    → ServedRound strict images r
    → Stands strict running stage c
    → Ends strict running stage (conducts strict (update_projection_layer r.layer images).1 c)
unfolding update_projection_layer conducts conduct
update_projection_layer_keeps false r images c served h = ground (
  arith,
  is_held-append r.layer.image_index c.images,
  has_image-append c.images r.layer.image_index,
)
update_projection_layer_keeps true r images c served h =
    let (empty, fresh) = nothing_held c.images c.image_waited h.2 in
    elim (Bool-cases (succeeded r.layer.acquire)) [
      | inl given ↦ let (there, waited, taken) = served given in rw (empty, fresh) (ground arith)
      | inr refused ↦ rw (empty, fresh) (ground arith)
    ]
