-- ===== src/Runtime/Listings.antt =====
-- The entry points of android-runtime/session.cpp that fill an array: what they write, and where.
pub mod Whole
use axrb.Common.{
  ℕ, zero, suc, ◌+◌, ◌≤◌, Bool, inl, inr, Option-cases, Option, none, some, List, [], ◌∷◌, length,
  take, length-take, ltb, if◌then◌else◌, arith,
}
use axrb.Xr.{Handle, Typed, environment_blend_mode_opaque, primary_stereo}
use axrb.Xr.StructureType.{
  type_extension_properties, type_view_configuration_view, type_swapchain_image_opengl_es_khr,
  type_swapchain_image_vulkan_khr,
}
use axrb.Pose.Frame.{PoseFrame}
use axrb.Runtime.{Runtime, SpaceRecord}
use axrb.Runtime.Space.{find_space}
use axrb.Runtime.Float.{FloatOps}
use axrb.Runtime.Location.{View, ViewLocateInfo, LocatedViews, locate_eyes, locate_views}
use axrb.Runtime.Enumerate.{
  Listing, write_out, fill, fill_out, k_extensions, k_formats, k_spaces, k_views, texture_names,
  enumerate_instance_extension_properties, enumerate_view_configurations,
  enumerate_environment_blend_modes, enumerate_swapchain_formats, enumerate_reference_spaces,
  enumerate_view_configuration_views, enumerate_swapchain_images,
}

-- The number of elements that are written is the capacity at most.
abbrev pub Fits : {A : Type 0} → ℕ → Listing A → Type 0
Fits capacity out = length out.2 ≤ capacity

module _ {A : Type 0} where
  write_out-Fits :
      (all : List A) (capacity : ℕ) (array_out : Bool)
      → Fits capacity (write_out all capacity array_out)
  unfolding write_out
  write_out-Fits all capacity array_out =
      ground (arith, length-take capacity all, length-take (length all) all)

  length-fill :
      (expected : ℕ) (types : ℕ → ℕ) (i : ℕ) (vs : List A)
      → length (fill expected types i vs).1 ≤ length vs
  unfolding fill
  length-fill expected types i [] = omega arith
  length-fill expected types i (v ∷ vs) = ground (arith, length-fill expected types (i + 1) vs)

  fill_out-Fits :
      (expected : ℕ) (types : ℕ → ℕ) (all : List A) (capacity : ℕ) (array_out : Bool)
      → Fits capacity (fill_out expected types all capacity array_out)
  unfolding fill_out
  fill_out-Fits expected types all capacity array_out = ground (
    arith,
    length-take capacity all,
    length-take (length all) all,
    length-fill expected types 0
        (take (if ltb capacity (length all) then capacity else length all) all),
  )

extensions-Fits :
    (layer_name : Option (List ℕ)) (capacity : ℕ) (count_out array_out : Bool) (types : ℕ → ℕ)
    → Fits capacity
        (enumerate_instance_extension_properties layer_name capacity count_out array_out types)
unfolding enumerate_instance_extension_properties
extensions-Fits layer_name capacity count_out array_out types =
    ground (arith, fill_out-Fits type_extension_properties types k_extensions capacity array_out)

blend_modes-Fits :
    (instance : Handle) (system_id configuration capacity : ℕ) (count_out array_out : Bool)
    → Fits capacity (
        enumerate_environment_blend_modes instance system_id configuration capacity count_out
          array_out)
unfolding enumerate_environment_blend_modes
blend_modes-Fits instance system_id configuration capacity count_out array_out =
    ground (arith, write_out-Fits (environment_blend_mode_opaque ∷ []) capacity array_out)

configurations-Fits :
    (instance : Handle) (system_id capacity : ℕ) (count_out array_out : Bool)
    → Fits capacity (enumerate_view_configurations instance system_id capacity count_out array_out)
unfolding enumerate_view_configurations
configurations-Fits instance system_id capacity count_out array_out =
    ground (arith, write_out-Fits (primary_stereo ∷ []) capacity array_out)

formats-Fits :
    (session : Handle) (capacity : ℕ) (count_out array_out : Bool)
    → Fits capacity (enumerate_swapchain_formats session capacity count_out array_out)
unfolding enumerate_swapchain_formats
formats-Fits session capacity count_out array_out =
    ground (arith, write_out-Fits k_formats capacity array_out)

spaces-Fits :
    (session : Handle) (capacity : ℕ) (count_out array_out : Bool)
    → Fits capacity (enumerate_reference_spaces session capacity count_out array_out)
unfolding enumerate_reference_spaces
spaces-Fits session capacity count_out array_out =
    ground (arith, write_out-Fits k_spaces capacity array_out)

views-Fits :
    (instance : Handle) (system_id configuration capacity : ℕ) (count_out array_out : Bool)
    (types : ℕ → ℕ)
    → Fits capacity (
        enumerate_view_configuration_views instance system_id configuration capacity count_out
          array_out types)
unfolding enumerate_view_configuration_views
views-Fits instance system_id configuration capacity count_out array_out types =
    ground (arith, fill_out-Fits type_view_configuration_view types k_views capacity array_out)

abbrev vulkan_images : List ℕ
vulkan_images = 0 ∷ 0 ∷ 0 ∷ []

images-Fits :
    (swapchain : Handle) (capacity : ℕ) (count_out array_out : Bool) (types : ℕ → ℕ) (r : Runtime)
    → Fits capacity (enumerate_swapchain_images swapchain capacity count_out array_out types r)
unfolding enumerate_swapchain_images
images-Fits swapchain capacity count_out array_out types r = ground (
  arith,
  fill_out-Fits type_swapchain_image_opengl_es_khr types (texture_names r) capacity array_out,
  fill_out-Fits type_swapchain_image_vulkan_khr types vulkan_images capacity array_out,
)

length-locate_eyes :
    (ops : FloatOps) (frame : PoseFrame) (types : ℕ → ℕ) (base : SpaceRecord) (n i : ℕ)
    → length (locate_eyes ops frame types base n i).1 ≤ n
unfolding locate_eyes
length-locate_eyes ops frame types base zero i = omega arith
length-locate_eyes ops frame types base (suc n) i =
    ground (arith, length-locate_eyes ops frame types base n (i + 1))

-- The reply of xrLocateViews, as that of an enumeration.
abbrev pub views_listing : LocatedViews → Listing View
views_listing out = (out.result, out.view_count, out.views)

located_views-Fits :
    (ops : FloatOps) (frame : PoseFrame) (session : Handle) (info : Option ViewLocateInfo)
    (view_state : Typed) (capacity : ℕ) (count_out : Bool) (views : Option (ℕ → ℕ)) (r : Runtime)
    → Fits capacity
        (views_listing (locate_views ops frame session info view_state capacity count_out views r))
unfolding locate_views
located_views-Fits ops frame session none view_state capacity count_out views r = ground arith
located_views-Fits ops frame session (some info) view_state capacity count_out none r =
    elim (Option-cases (find_space r info.space)) [
      | inl missing ↦ rw missing (ground arith)
      | inr (base, found) ↦ rw found (ground arith)
    ]
located_views-Fits ops frame session (some info) view_state capacity count_out (some types) r =
    elim (Option-cases (find_space r info.space)) [
      | inl missing ↦ rw missing (ground arith)
      | inr (base, found) ↦
          let written =
            length-locate_eyes ops frame types base (if ltb capacity 2 then capacity else 2) 0 in
          rw found (ground (arith, written))
    ]

-- Whatever the arguments, each of the entry points that enumerate instance extensions, view
-- configurations, blend modes, swapchain formats, reference spaces, configuration views and swapchain
-- images, and xrLocateViews too, writes at most as many elements of its array as the capacity that the
-- client gave.
pub enumerations_fit :
    (ops : FloatOps) (frame : PoseFrame) (info : Option ViewLocateInfo) (view_state : Typed)
    (views : Option (ℕ → ℕ)) (instance session swapchain : Handle) (layer_name : Option (List ℕ))
    (system_id configuration capacity : ℕ) (count_out array_out : Bool) (types : ℕ → ℕ)
    (r : Runtime)
    → Fits capacity
        (enumerate_instance_extension_properties layer_name capacity count_out array_out types)
      × Fits capacity
          (enumerate_view_configurations instance system_id capacity count_out array_out)
      × Fits capacity (
          enumerate_environment_blend_modes instance system_id configuration capacity count_out
            array_out)
      × Fits capacity (enumerate_swapchain_formats session capacity count_out array_out)
      × Fits capacity (enumerate_reference_spaces session capacity count_out array_out)
      × Fits capacity (
          enumerate_view_configuration_views instance system_id configuration capacity count_out
            array_out types)
      × Fits capacity (enumerate_swapchain_images swapchain capacity count_out array_out types r)
      × Fits capacity (
          views_listing (locate_views ops frame session info view_state capacity count_out views r))
enumerations_fit ops frame info view_state views instance session swapchain layer_name system_id
      configuration capacity count_out array_out types r =
    (
      extensions-Fits layer_name capacity count_out array_out types,
      configurations-Fits instance system_id capacity count_out array_out,
      blend_modes-Fits instance system_id configuration capacity count_out array_out,
      formats-Fits session capacity count_out array_out,
      spaces-Fits session capacity count_out array_out,
      views-Fits instance system_id configuration capacity count_out array_out types,
      images-Fits swapchain capacity count_out array_out types r,
      located_views-Fits ops frame session info view_state capacity count_out views r,
    )
