-- ===== src/Runtime/Actions.antt =====
-- Action handles of android-runtime/session.cpp: valid for ever, and eight for the whole process.
use axrb.Common.{ℕ, zero, suc, ◌+◌, ◌≤◌, ◌<◌, ◌≡◌, refl, Bool, true, false, none, some, List, arith}
use axrb.Xr.{Handle, Typed, out_of_memory}
use axrb.Xr.StructureType.{type_action_create_info}
use axrb.Runtime.{Runtime, max_actions, any_action, is_valid_action, is_valid_action_set}
use axrb.Runtime.Session.{
  create_instance, create_session, destroy_session, begin_session, end_session, poll_event,
}
use axrb.Runtime.Swapchain.{
  create_swapchain, destroy_swapchain, acquire_swapchain_image, wait_swapchain_image,
  release_swapchain_image,
}
use axrb.Runtime.Path.{string_to_path}
use axrb.Runtime.Action.{create_action}
use axrb.Runtime.Space.{create_reference_space, create_action_space}
use axrb.Runtime.Frame.{end_frame}
use axrb.Runtime.Calls.{
  Call, creates_instance, creates_session, begins_session, creates_swapchain, interns_path,
  creates_reference_space, creates_action_space, step, run, run_induction,
}

-- No call takes an action back, xrCreateInstance and xrDestroySession included.
step-action_count : (r : Runtime) (c : Call) → r.action_count ≤ (step r c).action_count
unfolding step create_instance create_session destroy_session begin_session end_session poll_event
    create_swapchain destroy_swapchain acquire_swapchain_image wait_swapchain_image
    release_swapchain_image string_to_path create_action create_reference_space create_action_space
    end_frame
step-action_count r (creates_instance none out) = ground arith
step-action_count r (creates_instance (some info) out) = ground arith
step-action_count r (creates_session session none out) = ground arith
step-action_count r (creates_session session (some info) out) = ground arith
step-action_count r (begins_session session none) = ground arith
step-action_count r (begins_session session (some info)) = ground arith
step-action_count r (creates_swapchain session none out generated) = ground arith
step-action_count r (creates_swapchain session (some info) out generated) = ground arith
step-action_count r (interns_path instance none out) = ground arith
step-action_count r (interns_path instance (some text) out) = ground arith
step-action_count r (creates_reference_space session none out) = ground arith
step-action_count r (creates_reference_space session (some info) out) = ground arith
step-action_count r (creates_action_space session none out) = ground arith
step-action_count r (creates_action_space session (some info) out) = ground arith
step-action_count r _ = ground arith

run-action_count : (r : Runtime) (cs : List Call) → r.action_count ≤ (run r cs).action_count
run-action_count r cs =
    run_induction (λ s. r.action_count ≤ s.action_count)
      (λ s c h. omega (arith, step-action_count s c)) r cs (omega arith)

any_action_below : (i n : ℕ) → i < n → any_action (Handle.action_handle i) n ≡ true
unfolding any_action
any_action_below i zero h = absurd (omega arith)
any_action_below i (suc n) h = ground (arith, any_action_below i n)

any_action_above : (i n : ℕ) → n ≤ i → any_action (Handle.action_handle i) n ≡ false
unfolding any_action
any_action_above i zero h = refl
any_action_above i (suc n) h = ground (arith, any_action_above i n)

create_action_given :
    (action_set : Handle) (info : Typed) (out : Bool) (r : Runtime) (action : Handle)
    → (create_action action_set info out r).1 ≡ some action
    → (action ≡ Handle.action_handle r.action_count)
      × ((create_action action_set info out r).2.action_count ≡ r.action_count + 1)
unfolding create_action
create_action_given action_set info out r action e = ground arith

-- An action handle that xrCreateAction gives was not valid before the call, and is valid after it and
-- after any further calls.
pub create_action_valid :
    (action_set : Handle) (info : Typed) (out : Bool) (r : Runtime) (action : Handle)
    (cs : List Call)
    → (create_action action_set info out r).1 ≡ some action
    → (is_valid_action r action ≡ false)
      × (is_valid_action (run (create_action action_set info out r).2 cs) action ≡ true)
unfolding is_valid_action
create_action_valid action_set info out r action cs e =
    let given = create_action_given action_set info out r action e in
    rw given.0 (
      any_action_above r.action_count r.action_count (omega arith),
      any_action_below r.action_count _
          (omega (arith, given.1, run-action_count (create_action action_set info out r).2 cs)),
    )

create_action_full :
    (r : Runtime)
    → max_actions ≤ r.action_count
    → create_action Handle.action_set_handle (some type_action_create_info) true r
      ≡ (out_of_memory, none, r)
unfolding create_action is_valid_action_set
create_action_full r h = ground arith

-- The flaw: xrCreateInstance leaves the action count alone. Once the eight actions of the process are
-- made, no calls make room for another, a new instance included: a well-formed xrCreateAction then
-- runs out of memory and changes nothing.
pub actions_exhausted :
    (r : Runtime) (cs : List Call)
    → max_actions ≤ r.action_count
    → create_action Handle.action_set_handle (some type_action_create_info) true (run r cs)
      ≡ (out_of_memory, none, run r cs)
actions_exhausted r cs h = create_action_full (run r cs) (omega (arith, run-action_count r cs))
