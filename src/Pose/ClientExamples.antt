-- ===== src/Pose/ClientExamples.antt =====
-- Calls of the pose client: a frame in two fragments, a socket that blocks, and nobody there.
use Prim.Native.String.{String}
use axrb.Common.{◌≡◌, refl, true, false, none, List, [], ◌∷◌, take, drop, arith}
use axrb.Pose.Frame.{Pose, PoseFrame, pose_bytes, pose_frame_bytes}
use axrb.Video.Packet.{le_bytes}
use axrb.Pose.Client.{
  PoseClient, env_failed, BrokerAnswers, HostAnswer, RecvAnswer, got, ended, is_valid_frame,
  query_pose_broker, connect_first, ensure_connected, read_available_frames, CallAnswers,
  latest_pose_frame, k_candidate_hosts,
}
use axrb.Pose.Client.Bytes.{FitsPose, IsSent}
use axrb.Pose.Client.Reading.{stopped, lost, receive_poses, AlwaysBlocks, blocked_until_lost}
use axrb.Pose.Client.Schedule.{AllUnreachable, poll_poses, retry_schedule}

abbrev rest : Pose
rest = record { x = 0; y = 0; z = 0; qx = 0; qy = 0; qz = 0; qw = 0x3f800000 }

abbrev moved : PoseFrame
moved = record {
  magic = 0x42525841;
  version = 1;
  type = 1;
  sequence = 7;
  monotonic_time_ns = 9;
  hmd = record rest { x = 5 };
  left_controller = rest;
  right_controller = rest;
}

rest-FitsPose : FitsPose rest
rest-FitsPose = record {
  x = omega arith;
  y = omega arith;
  z = omega arith;
  qx = omega arith;
  qy = omega arith;
  qz = omega arith;
  qw = omega arith;
}

moved-FitsPose : FitsPose moved.hmd
moved-FitsPose = record {
  x = omega arith;
  y = omega arith;
  z = omega arith;
  qx = omega arith;
  qy = omega arith;
  qz = omega arith;
  qw = omega arith;
}

moved-IsSent : IsSent moved
unfolding is_valid_frame
moved-IsSent = record {
  valid = refl;
  magic = omega arith;
  version = omega arith;
  type = omega arith;
  sequence = omega arith;
  monotonic_time_ns = omega arith;
  hmd = moved-FitsPose;
  left_controller = rest-FitsPose;
  right_controller = rest-FitsPose;
}

abbrev connected : PoseClient
connected = record {
  has_context = false;
  broker_retry_countdown = 0;
  socket_open = true;
  retry_countdown = 90;
  latest = record moved { sequence = 0; hmd = rest };
}

-- The bytes of `moved` as fragments of 100 and 12.
abbrev fragments : List RecvAnswer
fragments =
    got (take 100 (pose_frame_bytes 0 moved))
    ∷ got (drop 100 (pose_frame_bytes 0 moved))
    ∷ ended
    ∷ []

receive_poses_example :
    read_available_frames fragments connected ≡ stopped lost (record connected { latest = moved })
unfolding pose_frame_bytes le_bytes pose_bytes
receive_poses_example =
    receive_poses fragments ((0, moved) ∷ []) [] connected (omega arith) (moved-IsSent, tt)
      (omega arith) refl

abbrev nobody : BrokerAnswers
nobody = record {
  env = env_failed;
  resolver = false;
  uri = false;
  cursor = false;
  moved_to_first = false;
  row = record {
    sequence = 0;
    monotonic_time_ns = 0;
    hmd = rest;
    left_controller = rest;
    right_controller = rest;
  };
}

abbrev no_host : String → HostAnswer
no_host host = record { socket = true; address = true; connected = false }

abbrev until_lost : CallAnswers
until_lost = record { broker = nobody; hosts = no_host; received = fragments }

no_pose : (query_pose_broker nobody connected).0 ≡ false
unfolding query_pose_broker
no_pose = refl

still_open : (ensure_connected no_host (query_pose_broker nobody connected).1).0 ≡ true
unfolding query_pose_broker ensure_connected
still_open = refl

ends_here : (latest_pose_frame until_lost connected).0 ≡ true
unfolding latest_pose_frame query_pose_broker ensure_connected read_available_frames
    pose_frame_bytes le_bytes pose_bytes
ends_here = refl

blocks_here : AlwaysBlocks fragments
unfolding pose_frame_bytes le_bytes pose_bytes
blocks_here = tt

blocked_until_lost_example : (latest_pose_frame until_lost connected).2.socket_open ≡ false
blocked_until_lost_example =
    blocked_until_lost until_lost connected no_pose still_open blocks_here ends_here

abbrev apart : PoseClient
apart = record connected { socket_open = false; retry_countdown = 0 }

abbrev lonely : CallAnswers
lonely = record until_lost { received = [] }

nobody_there : connect_first no_host k_candidate_hosts ≡ none
unfolding connect_first
nobody_there = refl

unreachable : AllUnreachable (lonely ∷ lonely ∷ [])
unreachable = ((refl, nobody_there), ((refl, nobody_there), tt))

retry_schedule_example :
    ((poll_poses (lonely ∷ lonely ∷ []) apart).0 ≡ 1)
    × ((poll_poses (lonely ∷ lonely ∷ []) apart).1 ≡ true)
    × ((poll_poses (lonely ∷ lonely ∷ []) apart).2.latest ≡ apart.latest)
retry_schedule_example = retry_schedule (lonely ∷ lonely ∷ []) apart unreachable refl (omega arith)
