-- ===== src/Runtime/Bounds.antt =====
-- Every table of the runtime stays within its array, and every index points into its array.
use axrb.Common.{
  ℕ, ◌+◌, ◌≤◌, ◌<◌, ◌≡◌, Bool, true, Option, none, some, List, [], ◌∷◌, arith, length,
  length-append,
}
use axrb.Xr.{Handle, Typed}
use axrb.Runtime.{Runtime, reference, view, max_spaces, max_paths, max_actions, loaded}
use axrb.Runtime.Session.{
  create_instance, create_session, destroy_session, begin_session, end_session, poll_event,
}
use axrb.Runtime.Swapchain.{
  create_swapchain, destroy_swapchain, acquire_swapchain_image, wait_swapchain_image,
  release_swapchain_image,
}
use axrb.Runtime.Path.{string_to_path, stored_text}
use axrb.Runtime.Action.{create_action}
use axrb.Runtime.Space.{
  ReferenceSpaceCreateInfo, ActionSpaceCreateInfo, action_space_kind, create_reference_space,
  create_action_space,
}
use axrb.Runtime.Frame.{end_frame}
use axrb.Runtime.Calls.{
  Call, creates_instance, creates_session, destroys_session, begins_session, ends_session,
  polls_event, creates_swapchain, destroys_swapchain, acquires_image, waits_image, releases_image,
  interns_path, creates_action, creates_reference_space, creates_action_space, ends_frame, step,
  run, run_induction,
}

pub record InBounds (r : Runtime) : Type 0 where
  pub spaces_fit : length r.spaces ≤ max_spaces
  pub paths_fit : length r.paths ≤ max_paths
  pub actions_fit : r.action_count ≤ max_actions
  pub next_path_exact : r.next_path ≡ length r.paths + 1
  pub next_image : r.next_swapchain_image < 3
  pub current_image : r.current_swapchain_image < 3
  pub released_image : r.last_released_swapchain_image < 3
  pub waited_acquired : r.swapchain_image_waited ≡ true → r.swapchain_image_acquired ≡ true
  pub acquired_created : r.swapchain_image_acquired ≡ true → r.swapchain_created ≡ true

pub loaded-InBounds : InBounds loaded
unfolding loaded
loaded-InBounds = ground arith

string_to_path-InBounds :
    (instance : Handle) (text : Option (List ℕ)) (out : Bool) (r : Runtime)
    → InBounds r
    → InBounds (string_to_path instance text out r).2
unfolding string_to_path
string_to_path-InBounds instance none out r v = ground arith
string_to_path-InBounds instance (some text) out r v =
    ground
      (arith, length-append r.paths (record { path = r.next_path; text = stored_text text } ∷ []))

create_reference_space-InBounds :
    (session : Handle) (info : Option ReferenceSpaceCreateInfo) (out : Bool) (r : Runtime)
    → InBounds r
    → InBounds (create_reference_space session info out r).2
unfolding create_reference_space
create_reference_space-InBounds session none out r v = ground arith
create_reference_space-InBounds session (some info) out r v = ground (
  arith,
  length-append r.spaces
      (record { kind = reference; offset_in_parent = info.pose_in_reference_space } ∷ []),
  length-append r.spaces
      (record { kind = view; offset_in_parent = info.pose_in_reference_space } ∷ []),
)

create_action_space-InBounds :
    (session : Handle) (info : Option ActionSpaceCreateInfo) (out : Bool) (r : Runtime)
    → InBounds r
    → InBounds (create_action_space session info out r).2
unfolding create_action_space
create_action_space-InBounds session none out r v = ground arith
create_action_space-InBounds session (some info) out r v = ground (
  arith,
  length-append r.spaces (
      record {
        kind = action_space_kind r.paths info.subaction_path;
        offset_in_parent = info.pose_in_action_space;
      }
      ∷ []),
)

end_frame-InBounds :
    (session : Handle) (info : Typed) (r : Runtime)
    → InBounds r
    → InBounds (end_frame session info r).2
unfolding end_frame
end_frame-InBounds session info r v = ground arith

pub step-InBounds : (r : Runtime) (c : Call) → InBounds r → InBounds (step r c)
unfolding step create_instance create_session destroy_session begin_session end_session poll_event
    create_swapchain destroy_swapchain acquire_swapchain_image wait_swapchain_image
    release_swapchain_image create_action
step-InBounds r (creates_instance none out) v = ground arith
step-InBounds r (creates_instance (some info) out) v = ground arith
step-InBounds r (creates_session instance none out) v = ground arith
step-InBounds r (creates_session instance (some info) out) v = ground arith
step-InBounds r (destroys_session session) v = ground arith
step-InBounds r (begins_session session none) v = ground arith
step-InBounds r (begins_session session (some info)) v = ground arith
step-InBounds r (ends_session session) v = ground arith
step-InBounds r (polls_event instance data_ now) v = ground arith
step-InBounds r (creates_swapchain session none out generated) v = ground arith
step-InBounds r (creates_swapchain session (some info) out generated) v = ground arith
step-InBounds r (destroys_swapchain swapchain) v = ground arith
step-InBounds r (acquires_image swapchain info out) v = ground arith
step-InBounds r (waits_image swapchain info) v = ground arith
step-InBounds r (releases_image swapchain info) v = ground arith
step-InBounds r (interns_path instance text out) v = string_to_path-InBounds instance text out r v
step-InBounds r (creates_action action_set info out) v = ground arith
step-InBounds r (creates_reference_space session info out) v =
    create_reference_space-InBounds session info out r v
step-InBounds r (creates_action_space session info out) v =
    create_action_space-InBounds session info out r v
step-InBounds r (ends_frame session info) v = end_frame-InBounds session info r v

-- From the load of the library on, whatever calls a client makes, valid or not: the tables stay within
-- their arrays, the three image indexes are below 3, the next path is one more than the number of
-- paths, an image is waited for only while acquired, and acquired only while there is a swapchain.
pub run-InBounds : (cs : List Call) → InBounds (run loaded cs)
run-InBounds cs = run_induction InBounds step-InBounds loaded cs loaded-InBounds
