-- ===== src/Pose/Client/Bytes.antt =====
-- The 112 bytes of a PoseFrame of protocol/pose_frame.h that passes the check of
-- android-runtime/pose_client.cpp: what is written is read back.
use axrb.Common.{ℕ, ◌+◌, ◌^◌, ◌<◌, ◌≡◌, true, List, length, length-append, arith}
use axrb.Video.Wire.{read_le-le_bytes, length-le_bytes}
use axrb.Pose.Frame.{
  Pose, PoseFrame, pose_frame_size, pose_bytes, read_pose, pose_frame_bytes, read_pose_frame,
}
use axrb.Pose.Client.{is_valid_frame}

pub record FitsPose (p : Pose) : Type 0 where
  pub x : p.x < 256 ^ 4
  pub y : p.y < 256 ^ 4
  pub z : p.z < 256 ^ 4
  pub qx : p.qx < 256 ^ 4
  pub qy : p.qy < 256 ^ 4
  pub qz : p.qz < 256 ^ 4
  pub qw : p.qw < 256 ^ 4

-- A frame that passes the client's check, with fields of their widths.
pub record IsSent (f : PoseFrame) : Type 0 where
  pub valid : is_valid_frame f ≡ true
  pub magic : f.magic < 256 ^ 4
  pub version : f.version < 256 ^ 2
  pub type : f.type < 256 ^ 2
  pub sequence : f.sequence < 256 ^ 8
  pub monotonic_time_ns : f.monotonic_time_ns < 256 ^ 8
  pub hmd : FitsPose f.hmd
  pub left_controller : FitsPose f.left_controller
  pub right_controller : FitsPose f.right_controller

read_pose-pose_bytes :
    (p : Pose) (rest : List ℕ) → FitsPose p → read_pose (pose_bytes p rest) ≡ (p, rest)
unfolding read_pose pose_bytes
read_pose-pose_bytes p rest f = simp (
  read_le-le_bytes 4 p.x _ f.x,
  read_le-le_bytes 4 p.y _ f.y,
  read_le-le_bytes 4 p.z _ f.z,
  read_le-le_bytes 4 p.qx _ f.qx,
  read_le-le_bytes 4 p.qy _ f.qy,
  read_le-le_bytes 4 p.qz _ f.qz,
  read_le-le_bytes 4 p.qw _ f.qw,
)

pub read-pose_frame_bytes :
    (padding : ℕ) (f : PoseFrame) → IsSent f → read_pose_frame (pose_frame_bytes padding f) ≡ f
unfolding read_pose_frame pose_frame_bytes
read-pose_frame_bytes padding f s = simp (
  read_le-le_bytes 4 f.magic _ s.magic,
  read_le-le_bytes 2 f.version _ s.version,
  read_le-le_bytes 2 f.type _ s.type,
  read_le-le_bytes 8 f.sequence _ s.sequence,
  read_le-le_bytes 8 f.monotonic_time_ns _ s.monotonic_time_ns,
  read_pose-pose_bytes f.hmd _ s.hmd,
  read_pose-pose_bytes f.left_controller _ s.left_controller,
  read_pose-pose_bytes f.right_controller _ s.right_controller,
)

length-pose_bytes : (p : Pose) (rest : List ℕ) → length (pose_bytes p rest) ≡ 28 + length rest
unfolding pose_bytes
length-pose_bytes p rest = simp (length-append, length-le_bytes) (omega arith)

pub length-pose_frame_bytes :
    (padding : ℕ) (f : PoseFrame) → length (pose_frame_bytes padding f) ≡ pose_frame_size
unfolding pose_frame_bytes
length-pose_frame_bytes padding f = simp (length-append, length-le_bytes, length-pose_bytes)
