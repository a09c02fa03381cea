-- ===== src/Runtime/Images.antt =====
-- The acquire, wait and release calls on one swapchain, against an abstract ring of three images.
use axrb.Common.{
  ℕ, ◌+◌, ◌%◌, ◌≤◌, ◌<◌, ◌≡◌, ◌≢◌, refl, Bool, true, false, Option, none, some, List, [], ◌∷◌,
  arith, ◌⊎◌, inl,
}
use axrb.Xr.{XrResult, Handle, success, call_order_invalid}
use axrb.Xr.StructureType.{
  type_swapchain_image_acquire_info, type_swapchain_image_wait_info,
  type_swapchain_image_release_info,
}
use axrb.Runtime.{Runtime, Textures}
use axrb.Runtime.Swapchain.{
  SwapchainCreateInfo, create_swapchain, acquire_swapchain_image, wait_swapchain_image,
  release_swapchain_image,
}

pub data ImageCall : Type 0 where
  acquire wait release : ImageCall

-- Who has an image: nobody, a client that has not waited for it, or one that may write to it.
pub data Phase : Type 0 where
  free : Phase
  taken : ℕ → Phase
  writable : ℕ → Phase

-- `turn` counts the images taken so far, and `shown` is the one released last.
pub record Ring : Type 0 where
  pub phase : Phase
  pub turn : ℕ
  pub shown : ℕ

abbrev pub fresh_ring : Ring
fresh_ring = record { phase = free; turn = 0; shown = 0 }

take_next : Ring → XrResult × Option ℕ × Ring
take_next s =
    (success, some (s.turn % 3), record s { phase = taken (s.turn % 3); turn = s.turn + 1 })

refuse : Ring → XrResult × Option ℕ × Ring
refuse s = (call_order_invalid, none, s)

ring_phase_step : Phase → ImageCall → Ring → XrResult × Option ℕ × Ring
unfolding take_next refuse
ring_phase_step free acquire s = take_next s
ring_phase_step (taken i) wait s = (success, none, record s { phase = writable i })
ring_phase_step (writable i) wait s = (success, none, record s { phase = writable i })
ring_phase_step (writable i) release s = (success, none, record s { phase = free; shown = i })
ring_phase_step _ _ s = refuse s

unfoldable pub ring_step : Ring → ImageCall → XrResult × Option ℕ × Ring
unfolding ring_phase_step
ring_step s c = ring_phase_step s.phase c s

-- The call with the swapchain's handle and well-formed arguments.
unfoldable pub image_step : Runtime → ImageCall → XrResult × Option ℕ × Runtime
image_step r acquire =
    acquire_swapchain_image Handle.swapchain_handle (some type_swapchain_image_acquire_info) true r
image_step r wait =
    let (e, r') =
      wait_swapchain_image Handle.swapchain_handle (some type_swapchain_image_wait_info) r in
    (e, none, r')
image_step r release =
    let (e, r') =
      release_swapchain_image Handle.swapchain_handle (some type_swapchain_image_release_info) r in
    (e, none, r')

abbrev pub Answer : Type 0
Answer = XrResult × Option ℕ

unfoldable pub image_answers : Runtime → List ImageCall → List Answer
unfolding image_step
image_answers r [] = []
image_answers r (c ∷ cs) = let (e, i, r') = image_step r c in (e, i) ∷ image_answers r' cs

unfoldable pub ring_answers : Ring → List ImageCall → List Answer
unfolding ring_step
ring_answers s [] = []
ring_answers s (c ∷ cs) = let (e, i, s') = ring_step s c in (e, i) ∷ ring_answers s' cs

unfoldable pub image_run : Runtime → List ImageCall → Runtime
unfolding image_step
image_run r [] = r
image_run r (c ∷ cs) = image_run (image_step r c).2 cs

unfoldable pub ring_run : Ring → List ImageCall → Ring
unfolding ring_step
ring_run s [] = s
ring_run s (c ∷ cs) = ring_run (ring_step s c).2 cs

abbrev is_taken : Phase → Bool
is_taken free = false
is_taken (taken i) = true
is_taken (writable i) = true

abbrev is_writable : Phase → Bool
is_writable (writable i) = true
is_writable _ = false

abbrev HeldIs : Phase → ℕ → Type 0
HeldIs free j = Unit {0}
HeldIs (taken i) j = i ≡ j
HeldIs (writable i) j = i ≡ j

pub record Represents (r : Runtime) (s : Ring) : Type 0 where
  pub created : r.swapchain_created ≡ true
  pub acquired : r.swapchain_image_acquired ≡ is_taken s.phase
  pub waited : r.swapchain_image_waited ≡ is_writable s.phase
  pub next : r.next_swapchain_image ≡ s.turn % 3
  pub held : HeldIs s.phase r.current_swapchain_image
  pub shown : r.last_released_swapchain_image ≡ s.shown

record Agrees (a : XrResult × Option ℕ × Runtime) (b : XrResult × Option ℕ × Ring) : Type 0 where
  result : a.0 ≡ b.0
  index : a.1 ≡ b.1
  state : Represents a.2 b.2

phase_step-Agrees :
    (p : Phase) (r : Runtime) (s : Ring) (c : ImageCall)
    → s.phase ≡ p
    → Represents r s
    → Agrees (image_step r c) (ring_step s c)
unfolding image_step ring_step acquire_swapchain_image wait_swapchain_image release_swapchain_image
phase_step-Agrees free r s acquire e v = ground arith
phase_step-Agrees (taken i) r s acquire e v = ground arith
phase_step-Agrees (writable i) r s acquire e v = ground arith
phase_step-Agrees p r s c e v = ground arith

step-Agrees :
    (r : Runtime) (s : Ring) (c : ImageCall)
    → Represents r s
    → Agrees (image_step r c) (ring_step s c)
step-Agrees r s c v = phase_step-Agrees s.phase r s c refl v

-- The answers of the three entry points, results and image indexes alike, are those of the ring.
pub image_answers_refine :
    (cs : List ImageCall) (r : Runtime) (s : Ring)
    → Represents r s
    → image_answers r cs ≡ ring_answers s cs
unfolding image_answers ring_answers
image_answers_refine [] r s v = refl
image_answers_refine (c ∷ cs) r s v =
    let a = step-Agrees r s c v in
    rw (a.result, a.index, image_answers_refine cs (image_step r c).2 (ring_step s c).2 a.state)

image_run-Represents :
    (cs : List ImageCall) (r : Runtime) (s : Ring)
    → Represents r s
    → Represents (image_run r cs) (ring_run s cs)
unfolding image_run ring_run
image_run-Represents [] r s v = v
image_run-Represents (c ∷ cs) r s v =
    image_run-Represents cs (image_step r c).2 (ring_step s c).2 (step-Agrees r s c v).state

create_swapchain-Represents :
    (session : Handle) (info : Option SwapchainCreateInfo) (out : Bool) (generated : Textures)
    (r : Runtime)
    → (create_swapchain session info out generated r).0 ≡ success
    → Represents (create_swapchain session info out generated r).2 fresh_ring
unfolding create_swapchain
create_swapchain-Represents session none out generated r e = ground arith
create_swapchain-Represents session (some info) out generated r e = ground arith

-- After a successful xrCreateSwapchain, any sequence of acquire, wait and release calls on the
-- swapchain with well-formed arguments gets the results and the image indexes of an abstract ring of
-- three images that has one holder at most.
pub swapchain_refines_ring :
    (session : Handle) (info : Option SwapchainCreateInfo) (out : Bool) (generated : Textures)
    (r : Runtime) (cs : List ImageCall)
    → (create_swapchain session info out generated r).0 ≡ success
    → image_answers (create_swapchain session info out generated r).2 cs
      ≡ ring_answers fresh_ring cs
swapchain_refines_ring session info out generated r cs e =
    image_answers_refine cs _ fresh_ring
      (create_swapchain-Represents session info out generated r e)

abbrev Separate : Phase → Ring → Type 0
Separate free s = (s.turn ≡ 0) ⊎ (s.shown ≡ (s.turn + 2) % 3)
Separate (taken i) s =
    (0 < s.turn) × (i ≡ (s.turn + 2) % 3) × ((s.turn ≡ 1) ⊎ (s.shown ≡ (s.turn + 1) % 3))
Separate (writable i) s =
    (0 < s.turn) × (i ≡ (s.turn + 2) % 3) × ((s.turn ≡ 1) ⊎ (s.shown ≡ (s.turn + 1) % 3))

ring_step-Separate :
    (p : Phase) (s : Ring) (c : ImageCall)
    → s.phase ≡ p
    → Separate p s
    → Separate (ring_step s c).2.phase (ring_step s c).2
unfolding ring_step
ring_step-Separate free s acquire e h = ground arith
ring_step-Separate (taken i) s acquire e h = ground arith
ring_step-Separate (writable i) s acquire e h = ground arith
ring_step-Separate p s c e h = ground arith

ring_run-Separate :
    (cs : List ImageCall) (s : Ring)
    → Separate s.phase s
    → Separate (ring_run s cs).phase (ring_run s cs)
unfolding ring_run
ring_run-Separate [] s h = h
ring_run-Separate (c ∷ cs) s h =
    ring_run-Separate cs (ring_step s c).2 (ring_step-Separate s.phase s c refl h)

Separate-held :
    (p : Phase) (s : Ring) (r : Runtime)
    → s.phase ≡ p
    → Separate p s
    → Represents r s
    → 2 ≤ s.turn
    → r.swapchain_image_acquired ≡ true
    → r.current_swapchain_image ≢ r.last_released_swapchain_image
Separate-held free s r e h v t a = ground arith
Separate-held (taken i) s r e h v t a = ground arith
Separate-held (writable i) s r e h v t a = ground arith

-- From the second image on, the image that a client holds is never the one that was released last,
-- which xrEndFrame reads: in any state that acquire, wait and release calls reach from a new
-- swapchain with at least two images acquired.
pub held_ne_released :
    (session : Handle) (info : Option SwapchainCreateInfo) (out : Bool) (generated : Textures)
    (r : Runtime) (cs : List ImageCall)
    → (create_swapchain session info out generated r).0 ≡ success
    → 2 ≤ (ring_run fresh_ring cs).turn
    → (image_run (create_swapchain session info out generated r).2 cs).swapchain_image_acquired
      ≡ true
    → (image_run (create_swapchain session info out generated r).2 cs).current_swapchain_image
      ≢ (image_run
          (create_swapchain session info out generated r).2
          cs).last_released_swapchain_image
held_ne_released session info out generated r cs e t a =
    Separate-held _ (ring_run fresh_ring cs) _ refl (ring_run-Separate cs fresh_ring (inl refl))
      (image_run-Represents cs _ fresh_ring
        (create_swapchain-Represents session info out generated r e))
      t a
