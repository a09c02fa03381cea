-- ===== src/Runtime/Paths/Steps.antt =====
-- What each call does to the table of path records.
use axrb.Common.{
  ℕ, ◌+◌, u64, ◌<◌, ◌≡◌, ◌⊎◌, inl, inr, refl, Bool, true, false, Option, none, some, List, [], ◌∷◌,
  ◌++◌, length, length-take, append-nil, append_assoc, arith, Bool-cases, leb,
}
use axrb.Xr.{Handle, success}
use axrb.Runtime.{Runtime, Reply, PathRecord, max_paths, loaded, is_valid_instance}
use axrb.Runtime.Session.{
  InstanceCreateInfo, create_instance, create_session, destroy_session, begin_session, end_session,
  poll_event,
}
use axrb.Runtime.Swapchain.{
  create_swapchain, destroy_swapchain, acquire_swapchain_image, wait_swapchain_image,
  release_swapchain_image,
}
use axrb.Runtime.Action.{create_action}
use axrb.Runtime.Space.{create_reference_space, create_action_space}
use axrb.Runtime.Frame.{end_frame}
use axrb.Runtime.Path.{stored_text, starts_with_slash, find_text, intern, string_to_path}
use axrb.Runtime.Calls.{
  Call, creates_instance, creates_session, begins_session, creates_swapchain, interns_path,
  creates_reference_space, creates_action_space, step, run, run_induction, run_induction_all,
  AllCalls, KeepsInstance,
}
use axrb.Runtime.Bounds.{InBounds, loaded-InBounds, step-InBounds}
use axrb.Runtime.Paths.Table.{Numbered, Numbered-snoc, AllShort, AllShort-snoc}

abbrev pub with_path : List ℕ → Runtime → Runtime
with_path text r = record r {
  paths = r.paths ++ record { path = r.next_path; text = stored_text text } ∷ [];
  next_path = u64 (r.next_path + 1);
}

-- The three outcomes of a call: refused, found, and new.
abbrev pub Interned : List ℕ → Runtime → Reply ℕ → Type 0
Interned text r reply =
    ((reply.1 ≡ none) × (reply.2 ≡ r))
    ⊎ ((p : ℕ) × (find_text r.paths text ≡ some p) × (reply ≡ (success, some p, r)))
    ⊎ ((find_text r.paths text ≡ none)
        × (length r.paths < max_paths)
        × (reply ≡ (success, some r.next_path, with_path text r)))

intern-Interned :
    (found : Option ℕ) (text : List ℕ) (r : Runtime)
    → find_text r.paths text ≡ found
    → Interned text r (intern found text r)
unfolding intern
intern-Interned (some p) text r e = inr (inl (p, e, refl))
intern-Interned none text r e = elim (Bool-cases (leb max_paths (length r.paths))) [
  | inl full ↦ rw full (inl (refl, refl))
  | inr room ↦ rw room (inr (inr (e, ground arith, refl)))
]

pub string_to_path-Interned :
    (instance : Handle) (text : List ℕ) (out : Bool) (r : Runtime)
    → Interned text r (string_to_path instance (some text) out r)
unfolding string_to_path
string_to_path-Interned instance text false r = elim (Bool-cases (is_valid_instance instance)) [
  | inl good ↦ rw good (inl (refl, refl))
  | inr wrong ↦ rw wrong (inl (refl, refl))
]
string_to_path-Interned instance text true r = elim (Bool-cases (is_valid_instance instance)) [
  | inr wrong ↦ rw wrong (inl (refl, refl))
  | inl good ↦ elim (Bool-cases (starts_with_slash text)) [
    | inr wrong ↦ rw (good, wrong) (inl (refl, refl))
    | inl slash ↦ rw (good, slash) (intern-Interned (find_text r.paths text) text r refl)
  ]
]

-- The calls that leave the paths alone.
abbrev KeepsPaths : Call → Type 0
KeepsPaths (creates_instance info out) = ⊥
KeepsPaths (interns_path instance text out) = ⊥
KeepsPaths _ = Unit {0}

step-paths : (r : Runtime) (c : Call) → KeepsPaths c → (step r c).paths ≡ r.paths
unfolding step create_session destroy_session begin_session end_session poll_event create_swapchain
    destroy_swapchain acquire_swapchain_image wait_swapchain_image release_swapchain_image
    create_action create_reference_space create_action_space end_frame
step-paths r (creates_instance info out) h = absurd h
step-paths r (interns_path instance text out) h = absurd h
step-paths r (creates_session session none out) h = ground arith
step-paths r (creates_session session (some info) out) h = ground arith
step-paths r (begins_session session none) h = ground arith
step-paths r (begins_session session (some info)) h = ground arith
step-paths r (creates_swapchain session none out generated) h = ground arith
step-paths r (creates_swapchain session (some info) out generated) h = ground arith
step-paths r (creates_reference_space session none out) h = ground arith
step-paths r (creates_reference_space session (some info) out) h = ground arith
step-paths r (creates_action_space session none out) h = ground arith
step-paths r (creates_action_space session (some info) out) h = ground arith
step-paths r _ h = ground arith

-- What holds of the table in every state: it is numbered from 1, and its texts fit.
pub record PathTable (r : Runtime) : Type 0 where
  pub numbered : Numbered 1 r.paths
  pub short : AllShort r.paths
  pub bounds : InBounds r

with_path-PathTable :
    (text : List ℕ) (r : Runtime)
    → PathTable r
    → Numbered 1 (with_path text r).paths × AllShort (with_path text r).paths
with_path-PathTable text r v = (
  Numbered-snoc 1 r.paths _ v.numbered (omega (arith, v.bounds.next_path_exact)),
  AllShort-snoc r.paths _ v.short (omega (arith, length-take 127 text)),
)

null_text_same :
    (instance : Handle) (out : Bool) (r : Runtime) → (string_to_path instance none out r).2 ≡ r
unfolding string_to_path
null_text_same instance out r = ground arith

interns-PathTable :
    (instance : Handle) (text : Option (List ℕ)) (out : Bool) (r : Runtime)
    → PathTable r
    → let r' = (string_to_path instance text out r).2 in Numbered 1 r'.paths × AllShort r'.paths
interns-PathTable instance none out r v = rw (null_text_same instance out r) (v.numbered, v.short)
interns-PathTable instance (some text) out r v =
    elim (string_to_path-Interned instance text out r) [
      | inl (_, same) ↦ rw same (v.numbered, v.short)
      | inr (inl (p, _, same)) ↦ rw same (v.numbered, v.short)
      | inr (inr (_, _, new)) ↦ rw new (with_path-PathTable text r v)
    ]

create_instance-paths :
    (info : Option InstanceCreateInfo) (out : Bool) (r : Runtime)
    → Numbered 1 r.paths
    → AllShort r.paths
    → let r' = (create_instance info out r).2 in Numbered 1 r'.paths × AllShort r'.paths
unfolding create_instance
create_instance-paths none out r n s = ground arith
create_instance-paths (some info) out r n s = ground arith

pub step-PathTable : (r : Runtime) (c : Call) → PathTable r → PathTable (step r c)
step-PathTable r c v =
    let b = step-InBounds r c v.bounds in
    let t = tables r c v in record { numbered = t.0; short = t.1; bounds = b }
  where
    tables :
        (r : Runtime) (c : Call)
        → PathTable r
        → Numbered 1 (step r c).paths × AllShort (step r c).paths
    tables r (creates_instance info out) v =
        unfold step in create_instance-paths info out r v.numbered v.short
    tables r (interns_path instance text out) v =
        unfold step in interns-PathTable instance text out r v
    tables r c v = rw (step-paths r c tt) (v.numbered, v.short)

pub run-PathTable : (cs : List Call) → PathTable (run loaded cs)
run-PathTable cs = run_induction PathTable step-PathTable loaded cs (record {
  numbered = unfold loaded in tt;
  short = unfold loaded in tt;
  bounds = loaded-InBounds;
})

-- Until the next instance the table only grows.
abbrev pub Grows : List PathRecord → Runtime → Type 0
Grows old r = (new : List PathRecord) × (r.paths ≡ old ++ new)

interns-Grows :
    (old : List PathRecord) (instance : Handle) (text : Option (List ℕ)) (out : Bool) (r : Runtime)
    → Grows old r
    → Grows old (string_to_path instance text out r).2
interns-Grows old instance none out r g = rw (null_text_same instance out r) g
interns-Grows old instance (some text) out r g =
    elim (string_to_path-Interned instance text out r) [
      | inl (_, same) ↦ rw same g
      | inr (inl (p, _, same)) ↦ rw same g
      | inr (inr (_, _, new)) ↦ rw new (
        g.0 ++ record { path = r.next_path; text = stored_text text } ∷ [],
        rw g.1 (append_assoc old g.0 _),
      )
    ]

step-Grows :
    (old : List PathRecord) (r : Runtime) (c : Call)
    → KeepsInstance c
    → Grows old r
    → Grows old (step r c)
step-Grows old r (creates_instance info out) k g = absurd k
step-Grows old r (interns_path instance text out) k g =
    unfold step in interns-Grows old instance text out r g
step-Grows old r c k g = rw (step-paths r c tt) g

pub run-Grows :
    (r : Runtime) (cs : List Call) → AllCalls KeepsInstance cs → Grows r.paths (run r cs)
run-Grows r cs k =
    run_induction_all KeepsInstance (Grows r.paths) (step-Grows r.paths) r cs k
      ([], simp append-nil)
