-- ===== src/Runtime/Calls.antt =====
-- android-runtime/session.cpp as one machine: a call of any entry point that changes the globals,
-- and a client's sequence of calls. The entry points share their globals and nothing else.
use axrb.Common.{ℕ, Bool, Option, List, [], ◌∷◌}
use axrb.Xr.{Handle, Typed}
use axrb.Runtime.{Runtime, Textures}
use axrb.Runtime.Session.{
  InstanceCreateInfo, SessionCreateInfo, SessionBeginInfo, create_instance, create_session,
  destroy_session, begin_session, end_session, poll_event,
}
use axrb.Runtime.Swapchain.{
  SwapchainCreateInfo, create_swapchain, destroy_swapchain, acquire_swapchain_image,
  wait_swapchain_image, release_swapchain_image,
}
use axrb.Runtime.Path.{string_to_path}
use axrb.Runtime.Action.{create_action}
use axrb.Runtime.Space.{
  ReferenceSpaceCreateInfo, ActionSpaceCreateInfo, create_reference_space, create_action_space,
}
use axrb.Runtime.Frame.{end_frame}

-- A constructor's arguments are those of the entry point, what the system answers included.
pub data Call : Type 0 where
  creates_instance : Option InstanceCreateInfo → Bool → Call
  creates_session : Handle → Option SessionCreateInfo → Bool → Call
  destroys_session : Handle → Call
  begins_session : Handle → Option SessionBeginInfo → Call
  ends_session : Handle → Call
  polls_event : Handle → Typed → ℕ → Call
  creates_swapchain : Handle → Option SwapchainCreateInfo → Bool → Textures → Call
  destroys_swapchain : Handle → Call
  acquires_image : Handle → Typed → Bool → Call
  waits_image : Handle → Typed → Call
  releases_image : Handle → Typed → Call
  interns_path : Handle → Option (List ℕ) → Bool → Call
  creates_action : Handle → Typed → Bool → Call
  creates_reference_space : Handle → Option ReferenceSpaceCreateInfo → Bool → Call
  creates_action_space : Handle → Option ActionSpaceCreateInfo → Bool → Call
  ends_frame : Handle → Typed → Call

unfoldable pub step : Runtime → Call → Runtime
step r (creates_instance info out) = (create_instance info out r).2
step r (creates_session instance info out) = (create_session instance info out r).2
step r (destroys_session session) = (destroy_session session r).1
step r (begins_session session info) = (begin_session session info r).1
step r (ends_session session) = (end_session session r).1
step r (polls_event instance data_ now) = (poll_event instance data_ now r).2
step r (creates_swapchain session info out generated) =
    (create_swapchain session info out generated r).2
step r (destroys_swapchain swapchain) = (destroy_swapchain swapchain r).1
step r (acquires_image swapchain info out) = (acquire_swapchain_image swapchain info out r).2
step r (waits_image swapchain info) = (wait_swapchain_image swapchain info r).1
step r (releases_image swapchain info) = (release_swapchain_image swapchain info r).1
step r (interns_path instance text out) = (string_to_path instance text out r).2
step r (creates_action action_set info out) = (create_action action_set info out r).2
step r (creates_reference_space session info out) = (create_reference_space session info out r).2
step r (creates_action_space session info out) = (create_action_space session info out r).2
step r (ends_frame session info) = (end_frame session info r).2

unfoldable pub run : Runtime → List Call → Runtime
unfolding step
run r [] = r
run r (c ∷ cs) = run (step r c) cs

-- An induction over any sequence of calls.
module _ {ℓ} (P : Runtime → Type ℓ) (keep : (r : Runtime) (c : Call) → P r → P (step r c)) where
  pub run_induction : (r : Runtime) (cs : List Call) → P r → P (run r cs)
  unfolding run
  run_induction r [] h = h
  run_induction r (c ∷ cs) h = run_induction (step r c) cs (keep r c h)

-- A restriction on each call of a sequence.
abbrev pub AllCalls : (Call → Type 0) → List Call → Type 0
AllCalls P [] = Unit {0}
AllCalls P (c ∷ cs) = P c × AllCalls P cs

-- No new instance is made, so no table is reset.
abbrev pub KeepsInstance : Call → Type 0
KeepsInstance (creates_instance info out) = ⊥
KeepsInstance _ = Unit {0}

-- An induction over a restricted sequence.
module _ {ℓ} (Q : Call → Type 0) (P : Runtime → Type ℓ)
    (keep : (r : Runtime) (c : Call) → Q c → P r → P (step r c)) where
  pub run_induction_all : (r : Runtime) (cs : List Call) → AllCalls Q cs → P r → P (run r cs)
  unfolding run
  run_induction_all r [] q h = h
  run_induction_all r (c ∷ cs) q h = run_induction_all (step r c) cs q.1 (keep r c q.0 h)
