-- ===== src/Runtime/LocationExamples.antt =====
-- Spaces and views located: the left eye, an array of the wrong type, and a space that is none.
use axrb.Common.{
  ◌+◌, ◌-◌, ◌*◌, ◌/◌, ◌≡◌, refl, true, none, some, [], ◌∷◌, ltb, ◌==◌, if◌then◌else◌, arith,
}
use axrb.Xr.{Handle, success, handle_invalid, validation_failure}
use axrb.Xr.StructureType.{type_space_location, type_view_state, type_view}
use axrb.Pose.Frame.{Pose, PoseFrame}
use axrb.Runtime.{Runtime, loaded, view, is_valid_session}
use axrb.Runtime.Space.{create_reference_space, make_space}
use axrb.Runtime.Float.{FloatOps}
use axrb.Runtime.Location.{locate_space, locate_views, locate_eyes}
use axrb.Runtime.Eyes.{eye_place, eye_space, stereo_in, eye_located, eye_located-locate_space}

-- Whole numbers in place of floats.
abbrev pub whole : FloatOps
whole = record {
  add = λ a b. a + b;
  sub = λ a b. a - b;
  mul = λ a b. a * b;
  div = λ a b. a / b;
  neg = λ a. 0 - a;
  sqrt = λ a. a;
  greater = λ a b. ltb b a;
}

abbrev at_rest : Pose
at_rest = record { x = 1; y = 2; z = 3; qx = 0; qy = 0; qz = 0; qw = 1 }

abbrev pub still : PoseFrame
still = record {
  magic = 0x42525841;
  version = 1;
  type = 1;
  sequence = 4;
  monotonic_time_ns = 8;
  hmd = at_rest;
  left_controller = at_rest;
  right_controller = at_rest;
}

abbrev with_eye : Runtime
with_eye = record loaded {
  spaces = record { kind = view; offset_in_parent = eye_place whole 0 } ∷ [];
}

eye_made :
    create_reference_space Handle.session_handle (some (eye_space whole 0)) true loaded
    ≡ (success, some (Handle.space_record_handle 0), with_eye)
unfolding create_reference_space make_space is_valid_session loaded
eye_made = refl

eye_located-locate_space_example :
    eye_located 0 (
      locate_views whole still Handle.session_handle
        (some (stereo_in Handle.space_handle))
        (some type_view_state)
        2
        true
        (some (λ k. type_view))
        with_eye)
    ≡ locate_space whole still
        (Handle.space_record_handle 0)
        Handle.space_handle
        (some type_space_location)
        with_eye
eye_located-locate_space_example =
    eye_located-locate_space whole still (λ k. type_view) 0 2 Handle.session_handle
      Handle.space_handle (Handle.space_record_handle 0) loaded with_eye (λ k. refl) (omega arith)
      (omega arith) eye_made

-- The first view is written before the second one is seen to have the wrong type.
second_refused :
    (locate_views whole still Handle.session_handle
      (some (stereo_in Handle.space_handle))
      (some type_view_state)
      2
      true
      (some (λ k. if k == 0 then type_view else 0))
      with_eye).result
    ≡ validation_failure
unfolding locate_views locate_eyes is_valid_session
second_refused = refl

no_space_refused :
    locate_space whole still Handle.null_handle Handle.space_handle
      (some type_space_location)
      with_eye
    ≡ (handle_invalid, none)
unfolding locate_space
no_space_refused = refl
