-- ===== src/Host/Source/Images.antt =====
-- OpenXrPoseSource of host-bridge/openxr_host.cpp keeps the number of its projection images.
use axrb.Common.{ℕ, ◌≡◌, refl, ◌∙◌, Bool, true, false, List, [], ◌∷◌, arith}
use axrb.Pose.Frame.{PoseFrame}
use axrb.Host.Source.{
  HostEvent, state_changed, other_event, Round, HostCall, PoseSource, handle_session_state,
  handle_event, pump_events, Start, stops, proceeds, start_frame, locate_controller_spaces,
  finish_frame, finish_if, hands_and_finish, locate_hmd, locate_frame, started, make_frame,
  if_running,
}

handle_event_images :
    (e : HostEvent) (s : PoseSource) → (handle_event e s).0.projection_images ≡ s.projection_images
unfolding handle_event handle_session_state
handle_event_images (state_changed state a) s = ground arith
handle_event_images other_event s = refl

pub pump_events_images :
    (events : List HostEvent) (s : PoseSource)
    → (pump_events events s).0.projection_images ≡ s.projection_images
unfolding pump_events
pump_events_images [] s = refl
pump_events_images (e ∷ events) s =
    pump_events_images events (handle_event e s).0 ∙ handle_event_images e s

pub locate_hmd_images :
    (r : Round) (frame : PoseFrame) (s : PoseSource)
    → (locate_hmd r frame s).1.projection_images ≡ s.projection_images
unfolding locate_hmd
locate_hmd_images r frame s = ground arith

pub locate_controller_spaces_images :
    (frame : PoseFrame) (r : Round) (s : PoseSource)
    → (locate_controller_spaces frame r s).0.projection_images ≡ s.projection_images
unfolding locate_controller_spaces
locate_controller_spaces_images frame r s = ground arith

finish_if_images :
    (began : Bool) (time : ℕ) (r : Round) (s : PoseSource)
    → (finish_if began time r s).0.projection_images ≡ s.projection_images
unfolding finish_if finish_frame
finish_if_images true time r s = refl
finish_if_images false time r s = refl

locate_frame_images :
    (time : ℕ) (began : Bool) (r : Round) (frame : PoseFrame) (s : PoseSource)
    → (locate_frame time began r frame s).1.projection_images ≡ s.projection_images
unfolding locate_frame hands_and_finish
locate_frame_images time began r frame s =
    let (frame1, s1) = locate_hmd r frame s in
    finish_if_images began time r (locate_controller_spaces frame1 r s1).0
    ∙ locate_controller_spaces_images frame1 r s1
    ∙ locate_hmd_images r frame s

started_images :
    (start : Start) (r : Round) (frame : PoseFrame) (s : PoseSource) (calls : List HostCall)
    → (started start r frame s calls).1.projection_images ≡ s.projection_images
unfolding started
started_images stops r frame s calls = refl
started_images (proceeds locate_time time began) r frame s calls =
    ground (arith, locate_frame_images time began r frame s)

if_running_images :
    (running : Bool) (r : Round) (frame : PoseFrame) (s : PoseSource) (calls : List HostCall)
    → (if_running running r frame s calls).1.projection_images ≡ s.projection_images
unfolding if_running
if_running_images false r frame s calls = refl
if_running_images true r frame s calls =
    let (start, again, more) = start_frame r s.use_frame_loop in
    started_images start r frame (record s { use_frame_loop = again }) _

pub make_frame_images :
    (sequence : ℕ) (r : Round) (s : PoseSource)
    → (make_frame sequence r s).1.projection_images ≡ s.projection_images
unfolding make_frame
make_frame_images sequence r s =
    if_running_images _ r _ (pump_events r.events s).0 _ ∙ pump_events_images r.events s
