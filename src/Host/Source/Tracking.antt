-- ===== src/Host/Source/Tracking.antt =====
-- Which poses OpenXrPoseSource of host-bridge/openxr_host.cpp holds, and the pose server sends.
use axrb.Common.{
  ℕ, ◌+◌, u64, ◌≡◌, refl, sym, ap, ◌∙◌, Bool, true, false, ◌||◌, Option, none, some, List, [], ◌∷◌,
  ◌++◌, if◌then◌else◌, ◌==◌, arith, Bool-cases, inl, inr,
}
use axrb.Runtime.{PoseF}
use axrb.Pose.Frame.{Pose, PoseFrame}
use axrb.Host.Source.{
  Answer, success, SpaceLocation, Hand, left, right, HandReport, HostEvent, state_changed,
  other_event, Round, HostCall, locate_view, locate_hand, PoseSource, handle_session_state,
  handle_event, pump_events, Start, stops, proceeds, start_frame, locate_controller,
  locate_controller_spaces, finish_frame, finish_if, hands_and_finish, locate_hmd, locate_frame,
  started, if_running, make_frame, make_frames, latest_frame, current_xr_time,
}

pub record Tracked : Type 0 where
  pub hmd : Pose
  pub left_hand : Pose
  pub right_hand : Pose

abbrev pub poses_of : PoseFrame → Tracked
poses_of frame = record {
  hmd = frame.hmd;
  left_hand = frame.left_controller;
  right_hand = frame.right_controller;
}

abbrev pub with_hand_pose : Hand → Pose → Tracked → Tracked
with_hand_pose left pose t = record t { left_hand = pose }
with_hand_pose right pose t = record t { right_hand = pose }

-- A location of which the runtime says that it was found, with a valid position and orientation, tells
-- a pose: the position and the orientation, coordinate by coordinate.
told_pose : Answer → Bool → Bool → PoseF → Option Pose
told_pose success true true p = some (record {
  x = p.position_x;
  y = p.position_y;
  z = p.position_z;
  qx = p.orientation_x;
  qy = p.orientation_y;
  qz = p.orientation_z;
  qw = p.orientation_w;
})
told_pose _ _ _ p = none

abbrev told_by : SpaceLocation → Option Pose
told_by l = told_pose l.result l.position_valid l.orientation_valid l.pose

abbrev with_hmd_if : Option Pose → Tracked → Tracked
with_hmd_if none t = t
with_hmd_if (some pose) t = record t { hmd = pose }

abbrev with_hand_if : Hand → Option Pose → Tracked → Tracked
with_hand_if hand none t = t
with_hand_if hand (some pose) t = with_hand_pose hand pose t

-- What a call's answer tells of the poses: a location that is not valid tells nothing.
pub follow : HostCall → Tracked → Tracked
unfolding told_pose
follow (locate_view l) t = with_hmd_if (told_by l) t
follow (locate_hand hand l) t = with_hand_if hand (told_by l) t
follow call t = t

pub follows : List HostCall → Tracked → Tracked
unfolding follow
follows [] t = t
follows (call ∷ calls) t = follows calls (follow call t)

follows-append :
    (xs ys : List HostCall) (t : Tracked) → follows (xs ++ ys) t ≡ follows ys (follows xs t)
unfolding follows
follows-append [] ys t = refl
follows-append (x ∷ xs) ys t = follows-append xs ys (follow x t)

handle_event_poses :
    (e : HostEvent) (s : PoseSource) (t : Tracked)
    → ((handle_event e s).0.latest ≡ s.latest) × (follows (handle_event e s).1 t ≡ t)
unfolding handle_event handle_session_state follows
handle_event_poses (state_changed state a) s t = ground arith
handle_event_poses other_event s t = (refl, refl)

pump_events_poses :
    (events : List HostEvent) (s : PoseSource) (t : Tracked)
    → ((pump_events events s).0.latest ≡ s.latest) × (follows (pump_events events s).1 t ≡ t)
unfolding pump_events follows
pump_events_poses [] s t = (refl, refl)
pump_events_poses (e ∷ events) s t =
    let (same, told_none) = handle_event_poses e s t in
    let (same', told_none') = pump_events_poses events (handle_event e s).0 t in
    (same' ∙ same, follows-append (handle_event e s).1 _ t ∙ rw told_none told_none')

start_frame_poses :
    (r : Round) (use_frame_loop : Bool) (t : Tracked)
    → follows (start_frame r use_frame_loop).2 t ≡ t
unfolding start_frame follows
start_frame_poses r use_frame_loop t = ground arith

locate_controller_poses :
    (hand : Hand) (has_space : Bool) (report : HandReport) (frame : PoseFrame)
    → let (frame', any, calls) = locate_controller hand has_space report frame in
      (poses_of frame' ≡ follows calls (poses_of frame)) × (any ≡ false → frame' ≡ frame)
unfolding locate_controller follows
locate_controller_poses left has_space report frame = (ground arith, ground arith)
locate_controller_poses right has_space report frame = (ground arith, ground arith)

finish_frame_poses :
    (time : ℕ) (r : Round) (s : PoseSource) (t : Tracked)
    → ((finish_frame time r s).0.latest ≡ s.latest) × (follows (finish_frame time r s).1 t ≡ t)
unfolding finish_frame follows
finish_frame_poses time r s t = (refl, ground arith)

both_hands_poses :
    (frame : PoseFrame) (r : Round) (s : PoseSource)
    → poses_of s.latest ≡ poses_of frame
    → let (frame1, any1, calls1) = locate_controller left s.left_space r.left_hand frame in
      let (frame2, any2, calls2) = locate_controller right s.right_space r.right_hand frame1 in
      let s' = if any1 || any2 then record s { latest = frame2 } else s in
      poses_of s'.latest ≡ follows (calls1 ++ calls2) (poses_of frame)
both_hands_poses frame r s same =
    let (frame1, any1, calls1) = locate_controller left s.left_space r.left_hand frame in
    let (frame2, any2, calls2) = locate_controller right s.right_space r.right_hand frame1 in
    let (left1, kept1) = locate_controller_poses left s.left_space r.left_hand frame in
    let (right2, kept2) = locate_controller_poses right s.right_space r.right_hand frame1 in
    let followed : poses_of frame2 ≡ follows (calls1 ++ calls2) (poses_of frame) =
      right2 ∙ ap (follows calls2) left1 ∙ sym (follows-append calls1 calls2 (poses_of frame)) in
    elim (Bool-cases any1) [
      | inl some1 ↦ rw some1 followed
      | inr none1 ↦ elim (Bool-cases any2) [
        | inl some2 ↦ rw (none1, some2) followed
        | inr none2 ↦
            rw (none1, none2) (same ∙ sym (ap poses_of (kept2 none2 ∙ kept1 none1)) ∙ followed)
      ]
    ]

locate_controller_spaces_poses :
    (frame : PoseFrame) (r : Round) (s : PoseSource)
    → poses_of s.latest ≡ poses_of frame
    → poses_of (locate_controller_spaces frame r s).0.latest
      ≡ follows (locate_controller_spaces frame r s).1 (poses_of frame)
unfolding locate_controller_spaces follows
locate_controller_spaces_poses frame r s same = ground (arith, both_hands_poses frame r s same)

finish_if_poses :
    (began : Bool) (time : ℕ) (r : Round) (s : PoseSource) (t : Tracked)
    → ((finish_if began time r s).0.latest ≡ s.latest)
      × (follows (finish_if began time r s).1 t ≡ t)
unfolding finish_if follows
finish_if_poses true time r s t = finish_frame_poses time r s t
finish_if_poses false time r s t = (refl, refl)

hands_and_finish_poses :
    (time : ℕ) (began : Bool) (r : Round) (frame : PoseFrame) (s : PoseSource)
    → poses_of s.latest ≡ poses_of frame
    → poses_of (hands_and_finish time began r frame s).0.latest
      ≡ follows (hands_and_finish time began r frame s).1 (poses_of frame)
unfolding hands_and_finish
hands_and_finish_poses time began r frame s same =
    let (s2, calls2) = locate_controller_spaces frame r s in
    let (kept, told_none) = finish_if_poses began time r s2 (follows calls2 (poses_of frame)) in
    ap poses_of kept
    ∙ locate_controller_spaces_poses frame r s same
    ∙ sym told_none
    ∙ sym (follows-append calls2 _ (poses_of frame))

locate_hmd_poses :
    (r : Round) (frame : PoseFrame) (s : PoseSource)
    → poses_of s.latest ≡ poses_of frame
    → let (frame', s') = locate_hmd r frame s in
      (poses_of s'.latest ≡ poses_of frame')
      × (poses_of frame' ≡ follow (locate_view r.view) (poses_of frame))
unfolding locate_hmd follow
locate_hmd_poses r frame s same = (ground arith, ground arith)

locate_frame_poses :
    (time : ℕ) (began : Bool) (r : Round) (frame : PoseFrame) (s : PoseSource)
    → poses_of s.latest ≡ poses_of frame
    → poses_of (locate_frame time began r frame s).1.latest
      ≡ follows (locate_frame time began r frame s).2 (poses_of frame)
unfolding locate_frame follows
locate_frame_poses time began r frame s same =
    let (frame', s') = locate_hmd r frame s in
    let (same', told) = locate_hmd_poses r frame s same in
    hands_and_finish_poses time began r frame' s' same'
    ∙ ap (follows (hands_and_finish time began r frame' s').1) told

-- What precedes the location of the poses: it leaves them alone, and so do the calls.
started_poses :
    (start : Start) (r : Round) (frame : PoseFrame) (s : PoseSource) (calls : List HostCall)
    → poses_of s.latest ≡ poses_of frame
    → follows calls (poses_of frame) ≡ poses_of frame
    → poses_of (started start r frame s calls).1.latest
      ≡ follows (started start r frame s calls).2 (poses_of frame)
unfolding started
started_poses stops r frame s calls same told_none = sym told_none
started_poses (proceeds locate_time time began) r frame s calls same told_none =
    elim (Bool-cases
      ((if locate_time == 0 then current_xr_time r.clock_again else locate_time) == 0)) [
        | inl no_time ↦ rw no_time (sym told_none)
        | inr timed ↦ rw timed (
            locate_frame_poses time began r frame s same
            ∙ ap (follows (locate_frame time began r frame s).2) (sym told_none)
            ∙ sym (follows-append calls _ (poses_of frame)))
      ]

if_running_poses :
    (running : Bool) (r : Round) (frame : PoseFrame) (s : PoseSource) (calls : List HostCall)
    → poses_of s.latest ≡ poses_of frame
    → follows calls (poses_of frame) ≡ poses_of frame
    → poses_of (if_running running r frame s calls).1.latest
      ≡ follows (if_running running r frame s calls).2 (poses_of frame)
unfolding if_running
if_running_poses false r frame s calls same told_none = sym told_none
if_running_poses true r frame s calls same told_none =
    let (start, again, more) = start_frame r s.use_frame_loop in
    started_poses start r frame (record s { use_frame_loop = again }) (calls ++ more) same
      (follows-append calls more (poses_of frame)
        ∙ rw told_none (start_frame_poses r s.use_frame_loop (poses_of frame)))

make_frame_poses :
    (sequence : ℕ) (r : Round) (s : PoseSource)
    → poses_of (make_frame sequence r s).1.latest
      ≡ follows (make_frame sequence r s).2 (poses_of s.latest)
unfolding make_frame
make_frame_poses sequence r s =
    let (kept, told_none) = pump_events_poses r.events s (poses_of s.latest) in
    let (s1, calls) = pump_events r.events s in
    let frame = record s1.latest { sequence = sequence; monotonic_time_ns = r.time_ns } in
    let same : poses_of frame ≡ poses_of s.latest = ap poses_of kept in
    if_running_poses s1.session_running r frame s1 calls refl
      (ap (follows calls) same ∙ told_none ∙ sym same)
    ∙ ap (follows (make_frame sequence r s).2) same

make_frames_poses :
    (sequence : ℕ) (rounds : List Round) (s : PoseSource)
    → poses_of (make_frames sequence rounds s).0.latest
      ≡ follows (make_frames sequence rounds s).1 (poses_of s.latest)
unfolding make_frames follows
make_frames_poses sequence [] s = refl
make_frames_poses sequence (r ∷ rounds) s =
    make_frames_poses (u64 (sequence + 1)) rounds (make_frame sequence r s).1
    ∙ ap (follows (make_frames (u64 (sequence + 1)) rounds (make_frame sequence r s).1).1)
        (make_frame_poses sequence r s)
    ∙ sym (follows-append (make_frame sequence r s).2 _ (poses_of s.latest))

-- Whatever the runtime answered, the frame that the pose server sends has the sequence number and the
-- time that it is sent with, and for the head and for each hand the pose of the last valid location
-- that the runtime gave for it, or the pose that the source started with where there was none.
pub latest_frame_tracks :
    (first sequence time_ns : ℕ) (rounds : List Round) (s : PoseSource)
    → let (s', calls) = make_frames first rounds s in
      ((latest_frame sequence time_ns s').sequence ≡ sequence)
      × ((latest_frame sequence time_ns s').monotonic_time_ns ≡ time_ns)
      × (poses_of (latest_frame sequence time_ns s') ≡ follows calls (poses_of s.latest))
unfolding latest_frame
latest_frame_tracks first sequence time_ns rounds s = (refl, refl, make_frames_poses first rounds s)
