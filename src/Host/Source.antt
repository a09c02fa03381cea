-- ===== src/Host/Source.antt =====
-- OpenXrPoseSource of host-bridge/openxr_host.cpp: the host as a client of an OpenXR runtime, which it
-- polls for poses. What that runtime answers is the record Round, one for each make_frame; the calls
-- that the host makes are listed with their answers, in order.
pub mod Conduct
pub mod Images
pub mod Layer
pub mod Order
pub mod Tracking
use axrb.Common.{
  ℕ, ◌+◌, u64, Bool, true, false, ◌&&◌, ◌||◌, not, Option, none, some, List, [], ◌∷◌, ◌++◌, ltb,
  leb, ◌==◌, if◌then◌else◌,
}
use axrb.Xr.{SessionState, ready, stopping, loss_pending, exiting, same_state}
use axrb.Runtime.{PoseF}
use axrb.Pose.Frame.{Pose, PoseFrame}

-- The results that the host tells apart.
pub data Answer : Type 0 where
  success frame_discarded call_order_invalid session_not_focused : Answer
  other : ℕ → Answer

abbrev pub succeeded : Answer → Bool
succeeded success = true
succeeded _ = false

-- XrSpaceLocation, with its two tested flags.
pub record SpaceLocation : Type 0 where
  pub result : Answer
  pub position_valid : Bool
  pub orientation_valid : Bool
  pub pose : PoseF

abbrev pub is_located : SpaceLocation → Bool
is_located location =
    succeeded location.result && (location.position_valid && location.orientation_valid)

pub data Hand : Type 0 where
  left right : Hand

-- What the runtime says of a hand: the state of its pose action, and its location.
pub record HandReport : Type 0 where
  pub state_result : Answer
  pub is_active : Bool
  pub location : SpaceLocation

-- An event, with the answer that xrBeginSession gives if the event makes the host call it.
pub data HostEvent : Type 0 where
  state_changed : SessionState → Answer → HostEvent
  other_event : HostEvent

pub record LayerAnswers : Type 0 where
  pub acquire : Answer
  pub image_index : ℕ
  pub wait : Answer
  pub release : Answer
  pub locate_views : Answer
  pub view_count : ℕ

-- `clock` is the time that xrConvertTimespecTimeToTimeKHR gives, if all goes well there; it is asked
-- for twice at most.
pub record Round : Type 0 where
  pub events : List HostEvent
  pub time_ns : ℕ
  pub clock : Option ℕ
  pub clock_again : Option ℕ
  pub wait : Answer
  pub predicted_display_time : ℕ
  pub begin : Answer
  pub view : SpaceLocation
  pub sync : Answer
  pub left_hand : HandReport
  pub right_hand : HandReport
  pub layer : LayerAnswers
  pub finish : Answer

-- A call that the host makes or an event that it is told of; `ended_frame` has the number of layers and
-- the display time, and `acquire_image` the index that was given.
pub data HostCall : Type 0 where
  told : SessionState → HostCall
  began_session : Answer → HostCall
  ended_session : HostCall
  waited_frame : Answer → ℕ → HostCall
  began_frame : Answer → HostCall
  ended_frame : ℕ → ℕ → HostCall
  locate_view : SpaceLocation → HostCall
  synced_actions : Answer → HostCall
  get_hand : Hand → HostCall
  locate_hand : Hand → SpaceLocation → HostCall
  acquire_image : Answer → ℕ → HostCall
  wait_image release_image : Answer → HostCall
  fill_texture : ℕ → HostCall
  located_eyes : Answer → HostCall

-- The members that change after initialize, and those that make_frame tests: whether the hand spaces
-- and the projection swapchain are there, and the number of its images. Without Direct3D there is no
-- projection swapchain.
pub record PoseSource : Type 0 where
  pub session_running : Bool
  pub use_frame_loop : Bool
  pub controller_actions_ready : Bool
  pub left_space : Bool
  pub right_space : Bool
  pub projection_swapchain : Bool
  pub projection_images : ℕ
  pub latest : PoseFrame

unfoldable pub to_protocol_pose : PoseF → Pose
to_protocol_pose pose = record {
  x = pose.position_x;
  y = pose.position_y;
  z = pose.position_z;
  qx = pose.orientation_x;
  qy = pose.orientation_y;
  qz = pose.orientation_z;
  qw = pose.orientation_w;
}

unfoldable pub handle_session_state :
    SessionState → Answer → PoseSource → PoseSource × List HostCall
handle_session_state state begun s =
    if same_state state ready && not s.session_running
    then (record s { session_running = succeeded begun }, began_session begun ∷ [])
    else if same_state state stopping && s.session_running
    then (record s { session_running = false }, ended_session ∷ [])
    else if same_state state exiting || same_state state loss_pending
    then (record s { session_running = false }, [])
    else (s, [])

unfoldable pub handle_event : HostEvent → PoseSource → PoseSource × List HostCall
unfolding handle_session_state
handle_event (state_changed state begun) s =
    let (s', calls) = handle_session_state state begun s in (s', told state ∷ calls)
handle_event other_event s = (s, [])

unfoldable pub pump_events : List HostEvent → PoseSource → PoseSource × List HostCall
unfolding handle_event
pump_events [] s = (s, [])
pump_events (event ∷ events) s =
    let (s', calls) = handle_event event s in
    let (s'', more) = pump_events events s' in (s'', calls ++ more)

abbrev pub current_xr_time : Option ℕ → ℕ
current_xr_time none = 0
current_xr_time (some time) = time

-- How the frame loop goes on: not at all, or with the time to locate at, the time to display at, and
-- whether a frame was begun.
pub data Start : Type 0 where
  stops : Start
  proceeds : ℕ → ℕ → Bool → Start

begin_answered : Answer → ℕ → Start × Bool
begin_answered success time = (proceeds time time true, true)
begin_answered call_order_invalid time = (proceeds time time false, false)
begin_answered _ time = (stops, true)

-- The second part is `useFrameLoop_` afterwards.
wait_answered : Round → Answer → Start × Bool × List HostCall
unfolding begin_answered
wait_answered r success =
    let (start, again) = begin_answered r.begin r.predicted_display_time in
    (start, again, waited_frame success r.predicted_display_time ∷ began_frame r.begin ∷ [])
wait_answered r frame_discarded =
    (stops, true, waited_frame frame_discarded r.predicted_display_time ∷ [])
wait_answered r answer = (
  proceeds (current_xr_time r.clock) (current_xr_time r.clock) false,
  false,
  waited_frame answer r.predicted_display_time ∷ [],
)

unfoldable pub start_frame : Round → Bool → Start × Bool × List HostCall
unfolding wait_answered
start_frame r use_frame_loop =
    if use_frame_loop
    then wait_answered r r.wait
    else (proceeds (current_xr_time r.clock) (current_xr_time r.clock) false, false, [])

abbrev with_hand : Hand → Pose → PoseFrame → PoseFrame
with_hand left pose frame = record frame { left_controller = pose }
with_hand right pose frame = record frame { right_controller = pose }

-- One round of the loop over the hands: the frame, whether the hand was located, and the calls.
unfoldable pub locate_controller :
    Hand → Bool → HandReport → PoseFrame → PoseFrame × Bool × List HostCall
unfolding to_protocol_pose
locate_controller hand has_space report frame =
    if not has_space
    then (frame, false, [])
    else if not (succeeded report.state_result) || not report.is_active
    then (frame, false, get_hand hand ∷ [])
    else if not (is_located report.location)
    then (frame, false, get_hand hand ∷ locate_hand hand report.location ∷ [])
    else (
      with_hand hand (to_protocol_pose report.location.pose) frame,
      true,
      get_hand hand ∷ locate_hand hand report.location ∷ [],
    )

unfoldable pub locate_controller_spaces :
    PoseFrame → Round → PoseSource → PoseSource × List HostCall
unfolding locate_controller
locate_controller_spaces frame r s =
    let (frame1, any1, calls1) = locate_controller left s.left_space r.left_hand frame in
    let (frame2, any2, calls2) = locate_controller right s.right_space r.right_hand frame1 in
    if not s.controller_actions_ready
    then (s, [])
    else if not (succeeded r.sync)
    then (s, synced_actions r.sync ∷ [])
    else (
      if any1 || any2 then record s { latest = frame2 } else s,
      synced_actions r.sync ∷ (calls1 ++ calls2),
    )

-- The texture is filled while the image is held.
unfoldable pub update_projection_layer : LayerAnswers → ℕ → Bool × List HostCall
update_projection_layer a images =
    if not (succeeded a.acquire) || leb images a.image_index
    then (false, acquire_image a.acquire a.image_index ∷ [])
    else if not (succeeded a.wait)
    then (false, acquire_image a.acquire a.image_index ∷ wait_image a.wait ∷ [])
    else (
      succeeded a.release && (succeeded a.locate_views && not (ltb a.view_count 2)),
      acquire_image a.acquire a.image_index
          ∷ wait_image a.wait
          ∷ fill_texture a.image_index
          ∷ release_image a.release
          ∷ (if succeeded a.release then located_eyes a.locate_views ∷ [] else []),
    )

-- The part under `if (beganFrame)`.
unfoldable pub finish_frame : ℕ → Round → PoseSource → PoseSource × List HostCall
unfolding update_projection_layer
finish_frame display_time r s =
    let (has_layer, calls) =
      if s.projection_swapchain
      then update_projection_layer r.layer s.projection_images
      else (false, []) in
    (
      record s { use_frame_loop = s.use_frame_loop && succeeded r.finish },
      calls ++ ended_frame (if has_layer then 1 else 0) display_time ∷ [],
    )

-- The frame that make_frame returns, the source afterwards, and the calls.
abbrev pub Made : Type 0
Made = PoseFrame × PoseSource × List HostCall

-- `latest_ = frame; return frame;`
abbrev pub keep : PoseFrame → PoseSource → List HostCall → Made
keep frame s calls = (frame, record s { latest = frame }, calls)

-- The location of the view; the first part is `frame` afterwards.
unfoldable pub locate_hmd : Round → PoseFrame → PoseSource → PoseFrame × PoseSource
unfolding to_protocol_pose
locate_hmd r frame s =
    let frame' = record frame { hmd = to_protocol_pose r.view.pose } in
    if is_located r.view then (frame', record s { latest = frame' }) else (frame, s)

unfoldable pub finish_if : Bool → ℕ → Round → PoseSource → PoseSource × List HostCall
unfolding finish_frame
finish_if true time r s = finish_frame time r s
finish_if false time r s = (s, [])

unfoldable pub hands_and_finish :
    ℕ → Bool → Round → PoseFrame → PoseSource → PoseSource × List HostCall
unfolding locate_controller_spaces finish_if
hands_and_finish display_time began r frame s =
    let (s2, calls2) = locate_controller_spaces frame r s in
    let (s3, calls3) = finish_if began display_time r s2 in (s3, calls2 ++ calls3)

-- From the location of the view to the end.
unfoldable pub locate_frame : ℕ → Bool → Round → PoseFrame → PoseSource → Made
unfolding locate_hmd hands_and_finish
locate_frame display_time began r frame s =
    let (frame1, s1) = locate_hmd r frame s in
    let (s2, calls) = hands_and_finish display_time began r frame1 s1 in
    (s2.latest, s2, locate_view r.view ∷ calls)

unfoldable pub started : Start → Round → PoseFrame → PoseSource → List HostCall → Made
unfolding locate_frame
started stops r frame s calls = keep frame s calls
started (proceeds locate_time display_time began) r frame s calls =
    let time = if locate_time == 0 then current_xr_time r.clock_again else locate_time in
    let (out, s', more) = locate_frame display_time began r frame s in
    if time == 0 then keep frame s calls else (out, s', calls ++ more)

-- The part behind `if (!sessionRunning_)`; the first argument is `sessionRunning_`.
unfoldable pub if_running : Bool → Round → PoseFrame → PoseSource → List HostCall → Made
unfolding start_frame started
if_running false r frame s calls = keep frame s calls
if_running true r frame s calls =
    let (start, again, more) = start_frame r s.use_frame_loop in
    started start r frame (record s { use_frame_loop = again }) (calls ++ more)

unfoldable pub make_frame : ℕ → Round → PoseSource → Made
unfolding pump_events if_running
make_frame sequence r s0 =
    let (s, calls) = pump_events r.events s0 in
    let frame = record s.latest { sequence = sequence; monotonic_time_ns = r.time_ns } in
    if_running s.session_running r frame s calls

-- What the pose server sends.
unfoldable pub latest_frame : ℕ → ℕ → PoseSource → PoseFrame
latest_frame sequence time_ns s = record s.latest {
  sequence = sequence;
  monotonic_time_ns = time_ns;
}

-- The loop of `--serve-openxr`: the source and the calls after as many rounds as are listed.
unfoldable pub make_frames : ℕ → List Round → PoseSource → PoseSource × List HostCall
unfolding make_frame
make_frames sequence [] s = (s, [])
make_frames sequence (r ∷ rounds) s =
    let (frame, s', calls) = make_frame sequence r s in
    let (s'', more) = make_frames (u64 (sequence + 1)) rounds s' in (s'', calls ++ more)
