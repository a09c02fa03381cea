-- ===== src/Runtime/ListingExamples.antt =====
-- The lists of android-runtime/session.cpp, with one element asked for, and whole.
use axrb.Common.{ℕ, true, none, some}
use axrb.Xr.{Handle, primary_stereo}
use axrb.Xr.StructureType.{type_view_state}
use axrb.Runtime.{Runtime, loaded}
use axrb.Runtime.Enumerate.{
  enumerate_instance_extension_properties, enumerate_view_configurations,
  enumerate_environment_blend_modes, enumerate_swapchain_formats, enumerate_reference_spaces,
  enumerate_view_configuration_views, enumerate_swapchain_images,
}
use axrb.Runtime.Location.{locate_views}
use axrb.Runtime.Eyes.{stereo_in}
use axrb.Runtime.Listings.{Fits, views_listing, enumerations_fit}
use axrb.Runtime.LocationExamples.{whole, still}

abbrev any_type : ℕ → ℕ
any_type i = i

enumerations_fit_example :
    Fits 1 (enumerate_instance_extension_properties none 1 true true any_type)
    × Fits 1 (enumerate_view_configurations Handle.instance_handle 1 1 true true)
    × Fits 1 (enumerate_environment_blend_modes Handle.instance_handle 1 primary_stereo 1 true true)
    × Fits 1 (enumerate_swapchain_formats Handle.session_handle 1 true true)
    × Fits 1 (enumerate_reference_spaces Handle.session_handle 1 true true)
    × Fits 1 (
        enumerate_view_configuration_views Handle.instance_handle 1 primary_stereo 1 true true
          any_type)
    × Fits 1 (enumerate_swapchain_images Handle.swapchain_handle 1 true true any_type loaded)
    × Fits 1 (
        views_listing (
          locate_views whole still Handle.session_handle
            (some (stereo_in Handle.space_handle))
            (some type_view_state)
            1
            true
            (some any_type)
            loaded))
enumerations_fit_example =
    enumerations_fit whole still (some (stereo_in Handle.space_handle)) (some type_view_state)
      (some any_type) Handle.instance_handle Handle.session_handle Handle.swapchain_handle none 1
      primary_stereo 1 true true any_type loaded

abbrev with_images : Runtime
with_images = record loaded {
  swapchain_created = true;
  gl_swapchain_textures = record { first = 11; second = 12; third = 13 };
}
