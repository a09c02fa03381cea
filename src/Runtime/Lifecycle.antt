-- ===== src/Runtime/Lifecycle.antt =====
-- The session states that android-runtime/session.cpp can be in between two calls.
use axrb.Common.{◌≡◌, ◌↔◌, refl, ◌⊎◌, inl, true, none, some, List, arith}
use axrb.Xr.{Handle, success, SessionState, unknown, ready, focused}
use axrb.Runtime.{Runtime, loaded, is_valid_session}
use axrb.Runtime.Session.{
  create_instance, create_session, destroy_session, begin_session, end_session, poll_event,
}
use axrb.Runtime.Swapchain.{
  create_swapchain, destroy_swapchain, acquire_swapchain_image, wait_swapchain_image,
  release_swapchain_image,
}
use axrb.Runtime.Path.{string_to_path}
use axrb.Runtime.Action.{create_action}
use axrb.Runtime.Space.{create_reference_space, create_action_space}
use axrb.Runtime.Frame.{end_frame}
use axrb.Runtime.Calls.{
  Call, creates_instance, creates_session, destroys_session, begins_session, ends_session,
  polls_event, creates_swapchain, interns_path, creates_reference_space, creates_action_space, step,
  run, run_induction,
}

-- Between two calls a session is ready or focused, or there is none.
abbrev pub IsSettled : SessionState → Type 0
IsSettled s = (s ≡ unknown) ⊎ (s ≡ ready) ⊎ (s ≡ focused)

abbrev pub HasSettled : Runtime → Type 0
HasSettled r = IsSettled r.session_state

-- The calls that are not about the session.
abbrev pub IsOther : Call → Type 0
IsOther (creates_instance info out) = ⊥
IsOther (creates_session instance info out) = ⊥
IsOther (destroys_session session) = ⊥
IsOther (begins_session session info) = ⊥
IsOther (ends_session session) = ⊥
IsOther (polls_event instance data_ now) = ⊥
IsOther _ = Unit {0}

pub record SameSession (r r' : Runtime) : Type 0 where
  pub state : r'.session_state ≡ r.session_state
  pub events : r'.pending_session_events ≡ r.pending_session_events

pub step-SameSession : (r : Runtime) (c : Call) → IsOther c → SameSession r (step r c)
unfolding step create_swapchain destroy_swapchain acquire_swapchain_image wait_swapchain_image
    release_swapchain_image create_action string_to_path create_reference_space create_action_space
    end_frame
step-SameSession r (creates_instance info out) h = absurd h
step-SameSession r (creates_session instance info out) h = absurd h
step-SameSession r (destroys_session session) h = absurd h
step-SameSession r (begins_session session info) h = absurd h
step-SameSession r (ends_session session) h = absurd h
step-SameSession r (polls_event instance data_ now) h = absurd h
step-SameSession r (creates_swapchain session none out generated) h = ground arith
step-SameSession r (creates_swapchain session (some info) out generated) h = ground arith
step-SameSession r (interns_path instance none out) h = ground arith
step-SameSession r (interns_path instance (some text) out) h = ground arith
step-SameSession r (creates_reference_space session none out) h = ground arith
step-SameSession r (creates_reference_space session (some info) out) h = ground arith
step-SameSession r (creates_action_space session none out) h = ground arith
step-SameSession r (creates_action_space session (some info) out) h = ground arith
step-SameSession r _ h = ground arith

pub step-HasSettled : (r : Runtime) (c : Call) → HasSettled r → HasSettled (step r c)
unfolding step create_instance create_session destroy_session begin_session end_session poll_event
step-HasSettled r (creates_instance none out) h = ground arith
step-HasSettled r (creates_instance (some info) out) h = ground arith
step-HasSettled r (creates_session instance none out) h = ground arith
step-HasSettled r (creates_session instance (some info) out) h = ground arith
step-HasSettled r (destroys_session session) h = ground arith
step-HasSettled r (begins_session session none) h = ground arith
step-HasSettled r (begins_session session (some info)) h = ground arith
step-HasSettled r (ends_session session) h = ground arith
step-HasSettled r (polls_event instance data_ now) h = ground arith
step-HasSettled r c h = rw (step-SameSession r c tt).state h

run-HasSettled : (cs : List Call) → HasSettled (run loaded cs)
run-HasSettled cs = run_induction HasSettled step-HasSettled loaded cs (unfold loaded in inl refl)

ends_iff :
    (session : Handle) (r : Runtime)
    → HasSettled r
    → ((end_session session r).0 ≡ success)
      ↔ ((is_valid_session session ≡ true) × (r.session_state ≡ focused))
unfolding end_session
ends_iff session r h = ground arith

-- Whatever calls a client makes from the load of the library on: the session is ready or focused, or
-- there is none, and xrEndSession succeeds exactly for the session's handle in the focused state, so
-- its tests for the visible and the synchronized state never decide. Where it succeeds, the session is
-- ready again.
pub settled_end_session :
    (cs : List Call) (session : Handle)
    → let r = run loaded cs in
      HasSettled r
      × (((end_session session r).0 ≡ success)
          ↔ ((is_valid_session session ≡ true) × (r.session_state ≡ focused)))
      × ((end_session session r).0 ≡ success → (end_session session r).1.session_state ≡ ready)
unfolding end_session
settled_end_session cs session =
    (run-HasSettled cs, ends_iff session (run loaded cs) (run-HasSettled cs), ground arith)
