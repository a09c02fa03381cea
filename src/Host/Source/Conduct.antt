-- ===== src/Host/Source/Conduct.antt =====
-- The order in which OpenXrPoseSource of host-bridge/openxr_host.cpp calls its OpenXR runtime.
use axrb.Common.{
  ℕ, ◌≡◌, refl, ap, ◌∙◌, Bool, true, false, not, ◌&&◌, ◌||◌, Option, none, some, List, [], ◌∷◌,
  ◌++◌, ◌==◌, if◌then◌else◌,
}
use mathlib.Core.Path.{fun_ext}
use axrb.Xr.{SessionState, unknown, ready, stopping, loss_pending, exiting, same_state}
use axrb.Host.Source.{
  Answer, success, succeeded, HostCall, told, began_session, ended_session, waited_frame,
  began_frame, ended_frame, acquire_image, wait_image, release_image, fill_texture,
}

-- How far the current frame is: waited for, with its display time, or begun.
pub data FrameStage : Type 0 where
  no_frame : FrameStage
  waited : ℕ → FrameStage
  begun : ℕ → FrameStage

-- What a runtime knows of its client: the last state that it told, whether the session runs, how far
-- the frame is, the images that are acquired, the oldest one first, and whether the oldest one was
-- waited for: a wait and a release are of the oldest one.
pub record Conduct : Type 0 where
  pub last : SessionState
  pub running : Bool
  pub frame : FrameStage
  pub images : List ℕ
  pub image_waited : Bool

abbrev pub on_told : SessionState → Conduct → Conduct
on_told state c =
    if same_state state exiting
    then record c { last = state; running = false; frame = no_frame }
    else if same_state state loss_pending
    then record c { last = state; running = false; frame = no_frame }
    else record c { last = state }

abbrev pub on_wait : Answer → ℕ → FrameStage → Option FrameStage
on_wait a time (begun _) = none
on_wait success time stage = some (waited time)
on_wait a time stage = some stage

abbrev pub on_begin : Answer → FrameStage → Option FrameStage
on_begin success (waited time) = some (begun time)
on_begin a (waited time) = some no_frame
on_begin a stage = none

abbrev pub on_end : ℕ → FrameStage → Option FrameStage
on_end time (begun t) = if time == t then some no_frame else none
on_end time stage = none

abbrev pub has_image : List ℕ → Bool
has_image [] = false
has_image (_ ∷ _) = true

abbrev pub is_oldest : ℕ → List ℕ → Bool
is_oldest i [] = false
is_oldest i (image ∷ images) = image == i

abbrev pub is_held : ℕ → List ℕ → Bool
is_held i [] = false
is_held i (image ∷ images) = (image == i) || is_held i images

abbrev pub younger : List ℕ → List ℕ
younger [] = []
younger (image ∷ images) = images

abbrev pub with_frame : Conduct → Option FrameStage → Option Conduct
with_frame c none = none
with_frame c (some stage) = if c.running then some (record c { frame = stage }) else none

abbrev pub on_acquire : Answer → ℕ → Conduct → Conduct
on_acquire success i c = record c { images = c.images ++ i ∷ [] }
on_acquire _ i c = c

abbrev pub on_release : Answer → Conduct → Conduct
on_release success c = record c { images = younger c.images; image_waited = false }
on_release _ c = c

-- The rules: a session begins when the client was told that it is ready, and ends when it was told
-- that it stops; frames are waited for, begun and ended in a running session, in this order, one at a
-- time, and each is ended with the display time that was predicted for it; an image is waited for when
-- one is acquired; it is filled and released after a wait, and what is filled is an image that is
-- acquired. With `strict`, no image is waited for twice, and what is filled is the very image that was
-- waited for. `none` is a call that breaks the rules.
module _ (strict : Bool) where
  unfoldable pub conduct : HostCall → Conduct → Option Conduct
  conduct (told state) c = some (on_told state c)
  conduct (began_session a) c =
      if same_state c.last ready && not c.running
      then some (record c { running = succeeded a })
      else none
  conduct ended_session c =
      if same_state c.last stopping && c.running
      then some (record c { running = false; frame = no_frame })
      else none
  conduct (waited_frame a time) c = with_frame c (on_wait a time c.frame)
  conduct (began_frame a) c = with_frame c (on_begin a c.frame)
  conduct (ended_frame layers time) c = with_frame c (on_end time c.frame)
  conduct (acquire_image a i) c = some (on_acquire a i c)
  conduct (wait_image a) c =
      if has_image c.images && not (strict && c.image_waited)
      then some (record c { image_waited = succeeded a || c.image_waited })
      else none
  conduct (fill_texture i) c =
      if c.image_waited && (if strict then is_oldest i c.images else is_held i c.images)
      then some c
      else none
  conduct (release_image a) c =
      if c.image_waited && has_image c.images then some (on_release a c) else none
  conduct call c = some c

abbrev pub then_conduct : (Conduct → Option Conduct) → Option Conduct → Option Conduct
then_conduct f none = none
then_conduct f (some c) = f c

unfoldable pub conducts : Bool → List HostCall → Conduct → Option Conduct
conducts strict [] c = some c
conducts strict (call ∷ calls) c = then_conduct (conducts strict calls) (conduct strict call c)

then_conduct_assoc :
    (f g : Conduct → Option Conduct) (o : Option Conduct)
    → then_conduct (λ c. then_conduct g (f c)) o ≡ then_conduct g (then_conduct f o)
then_conduct_assoc f g none = refl
then_conduct_assoc f g (some c) = refl

pub conducts-append :
    (strict : Bool) (xs ys : List HostCall) (c : Conduct)
    → conducts strict (xs ++ ys) c ≡ then_conduct (conducts strict ys) (conducts strict xs c)
unfolding conducts
conducts-append strict [] ys c = refl
conducts-append strict (x ∷ xs) ys c =
    ap (λ f. then_conduct f (conduct strict x c)) (fun_ext (λ d. conducts-append strict xs ys d))
    ∙ then_conduct_assoc (conducts strict xs) (conducts strict ys) (conduct strict x c)

-- The session and the frame are as given, and if the rules are the strict ones, no image is acquired.
abbrev pub Stands : Bool → Bool → FrameStage → Conduct → Type 0
Stands strict running stage d =
    (d.running ≡ running)
    × (d.frame ≡ stage)
    × ((strict && (has_image d.images || d.image_waited)) ≡ false)

-- The rules were kept, and this is where it ends.
abbrev pub Ends : Bool → Bool → FrameStage → Option Conduct → Type 0
Ends strict running stage none = ⊥
Ends strict running stage (some d) = Stands strict running stage d

Ends-then :
    (strict : Bool) (ys : List HostCall) (o : Option Conduct) {running : Bool} {stage : FrameStage}
    (running' : Bool) (stage' : FrameStage)
    → Ends strict running stage o
    → ((d : Conduct)
        → Stands strict running stage d
        → Ends strict running' stage' (conducts strict ys d))
    → Ends strict running' stage' (then_conduct (conducts strict ys) o)
Ends-then strict ys none running' stage' e next = absurd e
Ends-then strict ys (some d) running' stage' e next = next d e

-- What two lists of calls do one after the other.
pub Ends-append :
    (strict : Bool) (xs ys : List HostCall) (c : Conduct) {running : Bool} {stage : FrameStage}
    (running' : Bool) (stage' : FrameStage)
    → Ends strict running stage (conducts strict xs c)
    → ((d : Conduct)
        → Stands strict running stage d
        → Ends strict running' stage' (conducts strict ys d))
    → Ends strict running' stage' (conducts strict (xs ++ ys) c)
Ends-append strict xs ys c running' stage' e next =
    rw (conducts-append strict xs ys c)
      (Ends-then strict ys (conducts strict xs c) running' stage' e next)

-- A client that has told and called nothing yet.
abbrev pub new_client : Conduct
new_client = record {
  last = unknown;
  running = false;
  frame = no_frame;
  images = [];
  image_waited = false;
}
