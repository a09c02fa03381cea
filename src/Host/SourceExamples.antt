-- ===== src/Host/SourceExamples.antt =====
-- Two rounds of the host's tracking: the session begins and a frame is shown, then it ends.
use axrb.Common.{◌≡◌, refl, true, false, none, [], ◌∷◌}
use axrb.Xr.{ready, stopping}
use axrb.Runtime.{PoseF}
use axrb.Pose.Frame.{Pose}
use axrb.Host.Source.{
  success, other, state_changed, SpaceLocation, HandReport, Round, PoseSource, make_frames,
  latest_frame,
}
use axrb.Host.Source.Conduct.{Conduct, conduct, conducts, new_client}
use axrb.Host.Source.Tracking.{poses_of, follows, latest_frame_tracks}

abbrev seen : PoseF
seen = record {
  orientation_x = 0;
  orientation_y = 0;
  orientation_z = 0;
  orientation_w = 0x3f800000;
  position_x = 5;
  position_y = 6;
  position_z = 7;
}

abbrev found : SpaceLocation
found = record { result = success; position_valid = true; orientation_valid = true; pose = seen }

abbrev lost : SpaceLocation
lost = record found { position_valid = false }

abbrev hand : HandReport
hand = record { state_result = success; is_active = true; location = found }

abbrev shown : Round
shown = record {
  events = state_changed ready success ∷ [];
  time_ns = 9;
  clock = none;
  clock_again = none;
  wait = success;
  predicted_display_time = 100;
  begin = success;
  view = found;
  sync = success;
  left_hand = hand;
  right_hand = record hand { is_active = false };
  layer = record {
    acquire = success;
    image_index = 1;
    wait = success;
    release = success;
    locate_views = success;
    view_count = 2;
  };
  finish = success;
}

abbrev ended : Round
ended = record shown { events = state_changed stopping (other 0) ∷ []; time_ns = 11; view = lost }

abbrev no_pose : Pose
no_pose = record { x = 0; y = 0; z = 0; qx = 0; qy = 0; qz = 0; qw = 0x3f800000 }

abbrev initialized : PoseSource
initialized = record {
  session_running = false;
  use_frame_loop = true;
  controller_actions_ready = true;
  left_space = true;
  right_space = true;
  projection_swapchain = true;
  projection_images = 3;
  latest = record {
    magic = 0x42525841;
    version = 1;
    type = 1;
    sequence = 0;
    monotonic_time_ns = 0;
    hmd = no_pose;
    left_controller = no_pose;
    right_controller = no_pose;
  };
}

-- After a wait that fails, the next round waits for the image that is still acquired, and fills the
-- texture of another one.
abbrev failed_wait : Round
failed_wait = record shown { layer = record shown.layer { image_index = 0; wait = other 1 } }

abbrev next : Round
next = record shown { events = [] }

older_image_waited :
    conducts true (make_frames 0 (failed_wait ∷ next ∷ []) initialized).1 new_client ≡ none
unfolding make_frames conducts conduct
older_image_waited = refl

session_ended : (make_frames 0 (shown ∷ ended ∷ []) initialized).0.session_running ≡ false
unfolding make_frames
session_ended = refl

latest_frame_tracks_example :
    ((latest_frame 4 12 (make_frames 0 (shown ∷ ended ∷ []) initialized).0).sequence ≡ 4)
    × ((latest_frame 4 12 (make_frames 0 (shown ∷ ended ∷ []) initialized).0).monotonic_time_ns
        ≡ 12)
    × (poses_of (latest_frame 4 12 (make_frames 0 (shown ∷ ended ∷ []) initialized).0)
        ≡ follows (make_frames 0 (shown ∷ ended ∷ []) initialized).1 (poses_of initialized.latest))
latest_frame_tracks_example = latest_frame_tracks 0 4 12 (shown ∷ ended ∷ []) initialized

left_hand_seen :
    (latest_frame 4 12 (make_frames 0 (shown ∷ ended ∷ []) initialized).0).left_controller.y ≡ 6
unfolding make_frames latest_frame
left_hand_seen = refl
