-- ===== src/Pose/Frame.antt =====
-- Pose and PoseFrame of protocol/pose_frame.h, and the 112 bytes of a frame. Both ends are
-- little-endian, and a float is its bits. The last four bytes are padding.
use axrb.Common.{ℕ, List, ◌++◌}
use axrb.Video.Packet.{le_bytes, read_le}

abbrev pub k_pose_frame_magic : ℕ
k_pose_frame_magic = 0x42525841

abbrev pub k_pose_frame_version : ℕ
k_pose_frame_version = 1

abbrev pub k_pose_frame_type : ℕ
k_pose_frame_type = 1

abbrev pub pose_frame_size : ℕ
pose_frame_size = 112

pub record Pose : Type 0 where
  pub x : ℕ
  pub y : ℕ
  pub z : ℕ
  pub qx : ℕ
  pub qy : ℕ
  pub qz : ℕ
  pub qw : ℕ

pub record PoseFrame : Type 0 where
  pub magic : ℕ
  pub version : ℕ
  pub type : ℕ
  pub sequence : ℕ
  pub monotonic_time_ns : ℕ
  pub hmd : Pose
  pub left_controller : Pose
  pub right_controller : Pose

-- The pose as it lies in memory, before the bytes that follow.
unfoldable pub pose_bytes : Pose → List ℕ → List ℕ
pose_bytes p rest =
    le_bytes 4 p.x
    ++ (le_bytes 4 p.y
        ++ (le_bytes 4 p.z
            ++ (le_bytes 4 p.qx
                ++ (le_bytes 4 p.qy ++ (le_bytes 4 p.qz ++ (le_bytes 4 p.qw ++ rest))))))

unfoldable pub read_pose : List ℕ → Pose × List ℕ
read_pose b0 =
    let (x, b1) = read_le 4 b0 in
    let (y, b2) = read_le 4 b1 in
    let (z, b3) = read_le 4 b2 in
    let (qx, b4) = read_le 4 b3 in
    let (qy, b5) = read_le 4 b4 in
    let (qz, b6) = read_le 4 b5 in
    let (qw, b7) = read_le 4 b6 in
    (record { x = x; y = y; z = z; qx = qx; qy = qy; qz = qz; qw = qw }, b7)

unfoldable pub pose_frame_bytes : ℕ → PoseFrame → List ℕ
pose_frame_bytes padding f =
    le_bytes 4 f.magic
    ++ (le_bytes 2 f.version
        ++ (le_bytes 2 f.type
            ++ (le_bytes 8 f.sequence
                ++ (le_bytes 8 f.monotonic_time_ns
                    ++ pose_bytes f.hmd (
                        pose_bytes f.left_controller
                          (pose_bytes f.right_controller (le_bytes 4 padding)))))))

unfoldable pub read_pose_frame : List ℕ → PoseFrame
read_pose_frame b0 =
    let (magic, b1) = read_le 4 b0 in
    let (version, b2) = read_le 2 b1 in
    let (type, b3) = read_le 2 b2 in
    let (sequence, b4) = read_le 8 b3 in
    let (monotonic_time_ns, b5) = read_le 8 b4 in
    let (hmd, b6) = read_pose b5 in
    let (left_controller, b7) = read_pose b6 in
    let (right_controller, b8) = read_pose b7 in
    record {
      magic = magic;
      version = version;
      type = type;
      sequence = sequence;
      monotonic_time_ns = monotonic_time_ns;
      hmd = hmd;
      left_controller = left_controller;
      right_controller = right_controller;
    }
