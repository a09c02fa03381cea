-- ===== src/Runtime/Examples.antt =====
-- Sequences of calls of a client, evaluated.
use axrb.Common.{
  ℕ, ◌≤◌, ◌≡◌, ◌≢◌, ◌↔◌, refl, true, false, none, some, List, [], ◌∷◌, ◌++◌, arith, replicate,
}
use axrb.Xr.{
  Handle, success, unknown, ready, focused, out_of_memory, primary_stereo, k_system_id,
  make_version, reference_space_view,
}
use axrb.Xr.StructureType.{
  type_instance_create_info, type_session_create_info, type_session_begin_info,
  type_event_data_buffer, type_swapchain_create_info, type_action_create_info,
  type_reference_space_create_info, type_action_space_create_info,
}
use axrb.Runtime.{
  Runtime, Textures, loaded, max_actions, is_valid_session, is_valid_instance, is_valid_action,
  is_valid_action_set, is_valid_swapchain, view, any_action,
}
use axrb.Runtime.Session.{
  InstanceCreateInfo, SessionCreateInfo, SessionBeginInfo, create_session, end_session,
}
use axrb.Runtime.Swapchain.{
  SwapchainCreateInfo, create_swapchain, acquire_swapchain_image, wait_swapchain_image,
  release_swapchain_image,
}
use axrb.Runtime.Path.{codes, string_to_path, starts_with_slash, find_text, intern, same_text}
use axrb.Runtime.Action.{create_action}
use axrb.Runtime.Space.{
  ReferenceSpaceCreateInfo, ActionSpaceCreateInfo, create_reference_space, create_action_space,
  find_space, make_space, identity_pose,
}
use axrb.Runtime.Calls.{
  Call, creates_instance, creates_session, begins_session, polls_event, creates_swapchain,
  interns_path, run,
}
use axrb.Runtime.Bounds.{InBounds, run-InBounds}
use axrb.Runtime.Lifecycle.{HasSettled, settled_end_session}
use axrb.Runtime.Events.{Cycle, all_delivered, session_events_lem}
use axrb.Runtime.Images.{
  ImageCall, acquire, wait, release, fresh_ring, ring_run, ring_answers, ring_step, image_run,
  image_step, image_answers, swapchain_refines_ring, held_ne_released,
}
use axrb.Runtime.Paths.{string_to_path_again, string_to_path_injective, string_to_path_long}
use axrb.Runtime.Actions.{create_action_valid, actions_exhausted}
use axrb.Runtime.Spaces.{create_reference_space_kept}

abbrev instance_info : InstanceCreateInfo
instance_info = record { type = type_instance_create_info; api_version = make_version 1 0 0 }

abbrev session_info : SessionCreateInfo
session_info = record { type = type_session_create_info; system_id = k_system_id }

abbrev begin_info : SessionBeginInfo
begin_info = record {
  type = type_session_begin_info;
  primary_view_configuration_type = primary_stereo;
}

abbrev swapchain_info : SwapchainCreateInfo
swapchain_info = record {
  type = type_swapchain_create_info;
  format = 0x8058;
  sample_count = 1;
  width = 256;
  height = 256;
  face_count = 1;
  array_size = 2;
  mip_count = 1;
}

abbrev textures : Textures
textures = record { first = 11; second = 12; third = 13 }

abbrev view_info : ReferenceSpaceCreateInfo
view_info = record {
  type = type_reference_space_create_info;
  reference_space_type = reference_space_view;
  pose_in_reference_space = identity_pose;
}

abbrev hand : List ℕ
hand = codes "/user/hand/left"

abbrev start : List Call
start =
    creates_instance (some instance_info) true
    ∷ creates_session Handle.instance_handle (some session_info) true
    ∷ begins_session Handle.session_handle (some begin_info)
    ∷ creates_swapchain Handle.session_handle (some swapchain_info) true textures
    ∷ []

abbrev later : List Call
later =
    creates_session Handle.instance_handle (some session_info) true
    ∷ begins_session Handle.session_handle (some begin_info)
    ∷ []

run-InBounds_example : InBounds (run loaded start)
run-InBounds_example = run-InBounds start

settled_end_session_example :
    HasSettled (run loaded start)
    × (((end_session Handle.session_handle (run loaded start)).0 ≡ success) ↔ (
        (is_valid_session Handle.session_handle ≡ true)
        × ((run loaded start).session_state ≡ focused)))
    × ((end_session Handle.session_handle (run loaded start)).0 ≡ success
        → (end_session Handle.session_handle (run loaded start)).1.session_state ≡ ready)
settled_end_session_example = settled_end_session start Handle.session_handle

abbrev begin_and_poll : List Call
begin_and_poll =
    begins_session Handle.session_handle (some begin_info)
    ∷ polls_event Handle.instance_handle (some type_event_data_buffer) 5
    ∷ []

session_created :
    (create_session Handle.instance_handle (some session_info) true loaded).0 ≡ success
unfolding create_session is_valid_instance
session_created = refl

session_events_lem_example :
    let r = (create_session Handle.instance_handle (some session_info) true loaded).2 in
    Cycle unknown
      (all_delivered r begin_and_poll ++ (run r begin_and_poll).pending_session_events)
      (run r begin_and_poll).session_state
session_events_lem_example =
    session_events_lem Handle.instance_handle (some session_info) true loaded begin_and_poll
      session_created (tt, (tt, tt))

swapchain_made :
    (create_swapchain Handle.session_handle (some swapchain_info) true textures loaded).0 ≡ success
unfolding create_swapchain is_valid_session
swapchain_made = refl

swapchain_refines_ring_example :
    image_answers
      (create_swapchain Handle.session_handle (some swapchain_info) true textures loaded).2
      (acquire ∷ wait ∷ release ∷ release ∷ [])
    ≡ ring_answers fresh_ring (acquire ∷ wait ∷ release ∷ release ∷ [])
swapchain_refines_ring_example =
    swapchain_refines_ring Handle.session_handle (some swapchain_info) true textures loaded
      (acquire ∷ wait ∷ release ∷ release ∷ []) swapchain_made

abbrev two_images : List ImageCall
two_images = acquire ∷ wait ∷ release ∷ acquire ∷ []

-- The two images that the client has taken by the end.
two_taken : 2 ≤ (ring_run fresh_ring two_images).turn
unfolding ring_run ring_step
two_taken = omega arith

abbrev new_swapchain : Runtime
new_swapchain =
    (create_swapchain Handle.session_handle (some swapchain_info) true textures loaded).2

still_held : (image_run new_swapchain two_images).swapchain_image_acquired ≡ true
unfolding image_run image_step create_swapchain acquire_swapchain_image wait_swapchain_image
    release_swapchain_image is_valid_session is_valid_swapchain
still_held = refl

held_ne_released_example :
    (image_run new_swapchain two_images).current_swapchain_image
    ≢ (image_run new_swapchain two_images).last_released_swapchain_image
held_ne_released_example =
    held_ne_released Handle.session_handle (some swapchain_info) true textures loaded two_images
      swapchain_made two_taken still_held

hand_interned : (string_to_path Handle.instance_handle (some hand) true (run loaded [])).1 ≡ some 1
unfolding run loaded string_to_path is_valid_instance starts_with_slash find_text intern
hand_interned = refl

string_to_path_again_example :
    let r =
      run
        (string_to_path Handle.instance_handle (some hand) true (run loaded [])).2
        (interns_path Handle.instance_handle (some (codes "/user/hand/right")) true ∷ []) in
    string_to_path Handle.instance_handle (some hand) true r ≡ (success, some 1, r)
unfolding starts_with_slash
string_to_path_again_example =
    string_to_path_again []
      (interns_path Handle.instance_handle (some (codes "/user/hand/right")) true ∷ [])
      Handle.instance_handle hand true 1 (omega arith) refl hand_interned (tt, tt)

hand_found :
    (string_to_path Handle.instance_handle
      (some hand)
      true
      (run (string_to_path Handle.instance_handle (some hand) true (run loaded [])).2 [])).1
    ≡ some 1
unfolding run loaded string_to_path is_valid_instance starts_with_slash find_text intern same_text
hand_found = refl

string_to_path_injective_example : hand ≡ hand
string_to_path_injective_example =
    string_to_path_injective [] [] Handle.instance_handle Handle.instance_handle hand hand true true
      1 (omega arith) hand_interned tt hand_found

-- A slash and 127 letters.
abbrev long_text : List ℕ
long_text = b'/' ∷ replicate 127 b'a'

long_interned :
    (string_to_path Handle.instance_handle (some long_text) true (run loaded [])).1 ≡ some 1
unfolding run loaded string_to_path is_valid_instance starts_with_slash find_text intern
long_interned = refl

long_interned_again :
    (string_to_path Handle.instance_handle
      (some long_text)
      true
      (run (string_to_path Handle.instance_handle (some long_text) true (run loaded [])).2 [])).1
    ≡ some 2
unfolding run loaded string_to_path is_valid_instance starts_with_slash find_text intern same_text
long_interned_again = refl

abbrev first_path : ℕ
first_path = 1

abbrev second_path : ℕ
second_path = 2

string_to_path_long_example : second_path ≢ first_path
string_to_path_long_example =
    string_to_path_long [] [] Handle.instance_handle Handle.instance_handle long_text true true 1 2
      (omega arith) long_interned tt long_interned_again

action_made :
    (create_action Handle.action_set_handle (some type_action_create_info) true loaded).1
    ≡ some (Handle.action_handle 0)
unfolding create_action is_valid_action_set loaded
action_made = refl

create_action_valid_example :
    (is_valid_action loaded (Handle.action_handle 0) ≡ false)
    × (is_valid_action
          (run
            (create_action Handle.action_set_handle (some type_action_create_info) true loaded).2
            start)
          (Handle.action_handle 0)
        ≡ true)
create_action_valid_example =
    create_action_valid Handle.action_set_handle (some type_action_create_info) true loaded
      (Handle.action_handle 0) start action_made

eight_actions : max_actions ≤ (record loaded { action_count = 8 }).action_count
eight_actions = omega arith

actions_exhausted_example :
    create_action Handle.action_set_handle
      (some type_action_create_info)
      true
      (run (record loaded { action_count = 8 }) start)
    ≡ (out_of_memory, none, run (record loaded { action_count = 8 }) start)
actions_exhausted_example =
    actions_exhausted (record loaded { action_count = 8 }) start eight_actions

space_made : (create_reference_space Handle.session_handle (some view_info) true loaded).0 ≡ success
unfolding create_reference_space is_valid_session make_space loaded
space_made = refl

space_given :
    (create_reference_space Handle.session_handle (some view_info) true loaded).1
    ≡ some (Handle.space_record_handle 0)
unfolding create_reference_space is_valid_session make_space loaded
space_given = refl

create_reference_space_kept_example :
    (find_space loaded (Handle.space_record_handle 0) ≡ none)
    × (find_space
          (run (create_reference_space Handle.session_handle (some view_info) true loaded).2 later)
          (Handle.space_record_handle 0)
        ≡ some (record { kind = view; offset_in_parent = identity_pose }))
create_reference_space_kept_example =
    create_reference_space_kept Handle.session_handle view_info true loaded
      (Handle.space_record_handle 0) later space_made space_given (tt, (tt, tt))

abbrev with_action : Runtime
with_action = record loaded { action_count = 1 }

abbrev action_space_info : ActionSpaceCreateInfo
action_space_info = record {
  type = type_action_space_create_info;
  action = Handle.action_handle 0;
  subaction_path = 0;
  pose_in_action_space = identity_pose;
}

action_space_made :
    (create_action_space Handle.session_handle (some action_space_info) true with_action).0
    ≡ success
unfolding create_action_space is_valid_session is_valid_action any_action make_space loaded
action_space_made = refl

action_space_given :
    (create_action_space Handle.session_handle (some action_space_info) true with_action).1
    ≡ some (Handle.space_record_handle 0)
unfolding create_action_space is_valid_session is_valid_action any_action make_space loaded
action_space_given = refl
