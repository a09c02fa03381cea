-- ===== src/Runtime/Spaces.antt =====
-- Space handles of android-runtime/session.cpp: each names what it was created with until the next
-- xrCreateInstance, and an instance has sixteen of them.
use axrb.Common.{
  ◌≤◌, ◌<◌, ◌≡◌, refl, subst, ap, ◌∙◌, Bool, ◌⊎◌, inl, inr, none, some, List, [], ◌∷◌, ◌++◌, length,
  length-append, get_elem?, get_elem?-append, get_elem?-append_self, get_elem?-beyond, ◌≢◌, arith,
  ◌==◌, append-nil, append_assoc, if◌then◌else◌,
}
use axrb.Xr.{Handle, success, reference_space_view}
use axrb.Runtime.{Runtime, Reply, SpaceRecord, reference, view, max_spaces}
use axrb.Runtime.Session.{create_session, destroy_session, begin_session, end_session, poll_event}
use axrb.Runtime.Swapchain.{
  create_swapchain, destroy_swapchain, acquire_swapchain_image, wait_swapchain_image,
  release_swapchain_image,
}
use axrb.Runtime.Path.{string_to_path}
use axrb.Runtime.Action.{create_action}
use axrb.Runtime.Space.{
  ReferenceSpaceCreateInfo, ActionSpaceCreateInfo, find_space, action_space_kind,
  create_reference_space, create_action_space,
}
use axrb.Runtime.Frame.{end_frame}
use axrb.Runtime.Calls.{
  Call, creates_instance, creates_session, begins_session, creates_swapchain, interns_path,
  creates_reference_space, creates_action_space, step, run, run_induction_all, AllCalls,
  KeepsInstance,
}

-- The calls that leave the spaces alone.
abbrev KeepsSpaces : Call → Type 0
KeepsSpaces (creates_instance info out) = ⊥
KeepsSpaces (creates_reference_space session info out) = ⊥
KeepsSpaces (creates_action_space session info out) = ⊥
KeepsSpaces _ = Unit {0}

step-spaces : (r : Runtime) (c : Call) → KeepsSpaces c → (step r c).spaces ≡ r.spaces
unfolding step create_session destroy_session begin_session end_session poll_event create_swapchain
    destroy_swapchain acquire_swapchain_image wait_swapchain_image release_swapchain_image
    string_to_path create_action end_frame
step-spaces r (creates_instance info out) h = absurd h
step-spaces r (creates_reference_space session info out) h = absurd h
step-spaces r (creates_action_space session info out) h = absurd h
step-spaces r (creates_session session none out) h = ground arith
step-spaces r (creates_session session (some info) out) h = ground arith
step-spaces r (begins_session session none) h = ground arith
step-spaces r (begins_session session (some info)) h = ground arith
step-spaces r (creates_swapchain session none out generated) h = ground arith
step-spaces r (creates_swapchain session (some info) out generated) h = ground arith
step-spaces r (interns_path instance none out) h = ground arith
step-spaces r (interns_path instance (some text) out) h = ground arith
step-spaces r _ h = ground arith

abbrev Grows : List SpaceRecord → Runtime → Type 0
Grows old r = (new : List SpaceRecord) × (r.spaces ≡ old ++ new)

-- A creating call gives no space, or appends the one that its handle names.
abbrev Made : SpaceRecord → Runtime → Reply Handle → Type 0
Made s r reply =
    ((reply.0 ≡ success → ⊥) × (reply.2 ≡ r))
    ⊎ ((length r.spaces < max_spaces)
        × (reply ≡ (
          success,
          some (Handle.space_record_handle (length r.spaces)),
          record r { spaces = r.spaces ++ s ∷ [] },
        )))

abbrev reference_record : ReferenceSpaceCreateInfo → SpaceRecord
reference_record info = record {
  kind = if info.reference_space_type == reference_space_view then view else reference;
  offset_in_parent = info.pose_in_reference_space;
}

create_reference_space-Made :
    (session : Handle) (info : ReferenceSpaceCreateInfo) (out : Bool) (r : Runtime)
    → Made (reference_record info) r (create_reference_space session (some info) out r)
unfolding create_reference_space
create_reference_space-Made session info out r = ground arith

abbrev action_record : Runtime → ActionSpaceCreateInfo → SpaceRecord
action_record r info = record {
  kind = action_space_kind r.paths info.subaction_path;
  offset_in_parent = info.pose_in_action_space;
}

create_action_space-Made :
    (session : Handle) (info : ActionSpaceCreateInfo) (out : Bool) (r : Runtime)
    → Made (action_record r info) r (create_action_space session (some info) out r)
unfolding create_action_space
create_action_space-Made session info out r = ground arith

null_space_same :
    (session : Handle) (out : Bool) (r : Runtime)
    → ((create_reference_space session none out r).2 ≡ r)
      × ((create_action_space session none out r).2 ≡ r)
unfolding create_reference_space create_action_space
null_space_same session out r = ground arith

Made-Grows :
    (s : SpaceRecord) (r : Runtime) (reply : Reply Handle) (old : List SpaceRecord)
    → Made s r reply
    → Grows old r
    → Grows old reply.2
Made-Grows s r reply old (inl (_, same)) g = rw same g
Made-Grows s r reply old (inr (_, made)) g =
    rw made (g.0 ++ s ∷ [], rw g.1 (append_assoc old g.0 (s ∷ [])))

step-Grows :
    (old : List SpaceRecord) (r : Runtime) (c : Call)
    → KeepsInstance c
    → Grows old r
    → Grows old (step r c)
step-Grows old r (creates_instance info out) k g = absurd k
step-Grows old r (creates_reference_space session none out) k g =
    unfold step in rw (null_space_same session out r).0 g
step-Grows old r (creates_reference_space session (some info) out) k g =
    unfold step in Made-Grows _ r _ old (create_reference_space-Made session info out r) g
step-Grows old r (creates_action_space session none out) k g =
    unfold step in rw (null_space_same session out r).1 g
step-Grows old r (creates_action_space session (some info) out) k g =
    unfold step in Made-Grows _ r _ old (create_action_space-Made session info out r) g
step-Grows old r c k g = rw (step-spaces r c tt) g

run-Grows : (r : Runtime) (cs : List Call) → AllCalls KeepsInstance cs → Grows r.spaces (run r cs)
run-Grows r cs k =
    run_induction_all KeepsInstance (Grows r.spaces) (step-Grows r.spaces) r cs k
      ([], simp append-nil)

grown_record :
    (s : SpaceRecord) (old : List SpaceRecord) (r : Runtime)
    → Grows (old ++ s ∷ []) r
    → get_elem? r.spaces (length old) ≡ some s
grown_record s old r g = rw g.1 (
    get_elem?-append (old ++ s ∷ []) g.0 (length old) (omega (arith, length-append old (s ∷ [])))
    ∙ get_elem?-append_self old s (length old) refl)

-- The handle of a success was free before, and names the record from then on.
Made-kept :
    (s : SpaceRecord) (r : Runtime) (reply : Reply Handle) (space : Handle) (cs : List Call)
    → Made s r reply
    → reply.0 ≡ success
    → reply.1 ≡ some space
    → AllCalls KeepsInstance cs
    → (find_space r space ≡ none) × (find_space (run reply.2 cs) space ≡ some s)
unfolding find_space
Made-kept s r reply space cs (inl (bad, _)) e o k = absurd (bad e)
Made-kept s r reply space cs (inr (_, made)) e o k =
    let handle : space ≡ Handle.space_record_handle (length r.spaces) =
      cc (ap (λ (x : Reply Handle). x.1) made, o) in
    let spaces : reply.2.spaces ≡ r.spaces ++ s ∷ [] = ap (λ (x : Reply Handle). x.2.spaces) made in
    rw handle (
      get_elem?-beyond r.spaces _ (omega arith),
      grown_record s r.spaces (run reply.2 cs)
          (subst (λ old. Grows old (run reply.2 cs)) spaces (run-Grows reply.2 cs k)),
    )

-- The handle that a successful xrCreateReferenceSpace gives named no space before, and names the kind
-- and the pose of that call after any further calls that make no instance.
pub create_reference_space_kept :
    (session : Handle) (info : ReferenceSpaceCreateInfo) (out : Bool) (r : Runtime) (space : Handle)
    (cs : List Call)
    → (create_reference_space session (some info) out r).0 ≡ success
    → (create_reference_space session (some info) out r).1 ≡ some space
    → AllCalls KeepsInstance cs
    → (find_space r space ≡ none)
      × (find_space (run (create_reference_space session (some info) out r).2 cs) space
          ≡ some (record {
            kind = if info.reference_space_type == reference_space_view then view else reference;
            offset_in_parent = info.pose_in_reference_space;
          }))
create_reference_space_kept session info out r space cs e o k =
    Made-kept _ r _ space cs (create_reference_space-Made session info out r) e o k

-- The same of xrCreateActionSpace: the kind is that of the subaction path at the time of the call.
pub create_action_space_kept :
    (session : Handle) (info : ActionSpaceCreateInfo) (out : Bool) (r : Runtime) (space : Handle)
    (cs : List Call)
    → (create_action_space session (some info) out r).0 ≡ success
    → (create_action_space session (some info) out r).1 ≡ some space
    → AllCalls KeepsInstance cs
    → (find_space r space ≡ none)
      × (find_space (run (create_action_space session (some info) out r).2 cs) space
          ≡ some (record {
            kind = action_space_kind r.paths info.subaction_path;
            offset_in_parent = info.pose_in_action_space;
          }))
create_action_space_kept session info out r space cs e o k =
    Made-kept _ r _ space cs (create_action_space-Made session info out r) e o k

create_reference_space_full :
    (session : Handle) (info : ReferenceSpaceCreateInfo) (out : Bool) (r : Runtime)
    → max_spaces ≤ length r.spaces
    → (create_reference_space session (some info) out r).0 ≢ success
unfolding create_reference_space
create_reference_space_full session info out r h e = ground arith

-- Sixteen spaces use up an instance: xrDestroySpace changes nothing, and after any further calls that
-- make no instance xrCreateReferenceSpace fails.
pub spaces_exhausted :
    (session : Handle) (info : ReferenceSpaceCreateInfo) (out : Bool) (r : Runtime) (cs : List Call)
    → max_spaces ≤ length r.spaces
    → AllCalls KeepsInstance cs
    → (create_reference_space session (some info) out (run r cs)).0 ≢ success
spaces_exhausted session info out r cs h k =
    let grown = run-Grows r cs k in
    create_reference_space_full session info out (run r cs)
      (omega (arith, ap length grown.1, length-append r.spaces grown.0))
