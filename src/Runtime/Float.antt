-- ===== src/Runtime/Float.antt =====
-- android-runtime/session.cpp: the arithmetic of poses. The operations on `float` are the processor's:
-- a parameter of the model, as functions of the bits.
use axrb.Common.{Bool, if◌then◌else◌}
use axrb.Runtime.{Float32, PoseF, SpaceKind, SpaceRecord, reference, view, left_hand, right_hand}
use axrb.Runtime.Space.{identity_pose}
use axrb.Pose.Frame.{Pose, PoseFrame}

pub record FloatOps : Type 0 where
  pub add : Float32 → Float32 → Float32
  pub sub : Float32 → Float32 → Float32
  pub mul : Float32 → Float32 → Float32
  pub div : Float32 → Float32 → Float32
  pub neg : Float32 → Float32
  pub sqrt : Float32 → Float32
  pub greater : Float32 → Float32 → Bool

-- 0.0f, 1.0f, 2.0f and 0.00001f.
abbrev pub zero_f : Float32
zero_f = 0

abbrev pub one_f : Float32
one_f = 0x3f800000

abbrev pub two_f : Float32
two_f = 0x40000000

abbrev pub tiny_f : Float32
tiny_f = 0x3727c5ac

unfoldable pub protocol_pose_to_xr : Pose → PoseF
protocol_pose_to_xr pose = record {
  orientation_x = pose.qx;
  orientation_y = pose.qy;
  orientation_z = pose.qz;
  orientation_w = pose.qw;
  position_x = pose.x;
  position_y = pose.y;
  position_z = pose.z;
}

module _ (ops : FloatOps) where
  open ops use {add, sub, mul, div, neg, sqrt, greater}

  unfoldable pub normalize_pose : PoseF → PoseF
  normalize_pose pose =
      let length = sqrt (
        add
          (add
            (add (mul pose.orientation_x pose.orientation_x)
              (mul pose.orientation_y pose.orientation_y))
            (mul pose.orientation_z pose.orientation_z))
          (mul pose.orientation_w pose.orientation_w)) in
      if greater length tiny_f
      then record pose {
        orientation_x = div pose.orientation_x length;
        orientation_y = div pose.orientation_y length;
        orientation_z = div pose.orientation_z length;
        orientation_w = div pose.orientation_w length;
      }
      else record pose {
        orientation_x = zero_f;
        orientation_y = zero_f;
        orientation_z = zero_f;
        orientation_w = one_f;
      }

  -- `v` rotated by the quaternion `q`, coordinate by coordinate: `t` is twice the cross product.
  twice_cross : Float32 → Float32 → Float32 → Float32 → Float32
  twice_cross a v b w = mul two_f (sub (mul a v) (mul b w))

  rotated : Float32 → Float32 → Float32 → Float32 → Float32 → Float32 → Float32 → Float32
  rotated v w t a s b u = add (add v (mul w t)) (sub (mul a s) (mul b u))

  unfoldable pub multiply_pose : PoseF → PoseF → PoseF
  unfolding normalize_pose twice_cross rotated
  multiply_pose a b =
      let ax = a.orientation_x in
      let ay = a.orientation_y in
      let az = a.orientation_z in
      let aw = a.orientation_w in
      let bx = b.orientation_x in
      let by = b.orientation_y in
      let bz = b.orientation_z in
      let bw = b.orientation_w in
      let vx = b.position_x in
      let vy = b.position_y in
      let vz = b.position_z in
      let tx = twice_cross ay vz az vy in
      let ty = twice_cross az vx ax vz in
      let tz = twice_cross ax vy ay vx in
      normalize_pose (record {
        orientation_x = sub (add (add (mul aw bx) (mul ax bw)) (mul ay bz)) (mul az by);
        orientation_y = add (add (sub (mul aw by) (mul ax bz)) (mul ay bw)) (mul az bx);
        orientation_z = add (sub (add (mul aw bz) (mul ax by)) (mul ay bx)) (mul az bw);
        orientation_w = sub (sub (sub (mul aw bw) (mul ax bx)) (mul ay by)) (mul az bz);
        position_x = add a.position_x (rotated vx aw tx ay tz az ty);
        position_y = add a.position_y (rotated vy aw ty az tx ax tz);
        position_z = add a.position_z (rotated vz aw tz ax ty ay tx);
      })

  unfoldable pub inverse_pose : PoseF → PoseF
  unfolding normalize_pose twice_cross rotated
  inverse_pose pose =
      let qx = neg pose.orientation_x in
      let qy = neg pose.orientation_y in
      let qz = neg pose.orientation_z in
      let qw = pose.orientation_w in
      let px = neg pose.position_x in
      let py = neg pose.position_y in
      let pz = neg pose.position_z in
      let tx = twice_cross qy pz qz py in
      let ty = twice_cross qz px qx pz in
      let tz = twice_cross qx py qy px in
      normalize_pose (record {
        orientation_x = qx;
        orientation_y = qy;
        orientation_z = qz;
        orientation_w = qw;
        position_x = rotated px qw tx qy tz qz ty;
        position_y = rotated py qw ty qz tx qx tz;
        position_z = rotated pz qw tz qx ty qy tx;
      })

  base_pose : SpaceKind → PoseFrame → PoseF
  unfolding protocol_pose_to_xr
  base_pose view frame = protocol_pose_to_xr frame.hmd
  base_pose left_hand frame = protocol_pose_to_xr frame.left_controller
  base_pose right_hand frame = protocol_pose_to_xr frame.right_controller
  base_pose reference frame = identity_pose

  unfoldable pub world_pose_for_space : SpaceRecord → PoseFrame → PoseF
  unfolding base_pose multiply_pose
  world_pose_for_space space frame =
      multiply_pose (base_pose space.kind frame) space.offset_in_parent
