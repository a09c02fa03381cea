-- ===== src/Pose/Client.antt =====
-- PoseClient of android-runtime/pose_client.cpp, as it is on Android: the runtime's own source of
-- poses. What JNI, the sockets and the broker answer in one call is the record CallAnswers.
pub mod Bytes
pub mod Reading
pub mod Schedule
use Prim.Native.String.{String}
use axrb.Common.{
  ℕ, ◌+◌, ◌-◌, Bool, true, false, not, ◌&&◌, Option, none, some, List, [], ◌∷◌, ◌++◌, length, take,
  ltb, ◌==◌, if◌then◌else◌,
}
use axrb.Pose.Frame.{
  Pose, PoseFrame, k_pose_frame_magic, k_pose_frame_version, k_pose_frame_type, pose_frame_size,
  read_pose_frame,
}

unfoldable pub is_valid_frame : PoseFrame → Bool
is_valid_frame frame =
    frame.magic == k_pose_frame_magic
    && (frame.version == k_pose_frame_version && frame.type == k_pose_frame_type)

-- `has_context`: both the Java VM and the context are there. `socket_open`: `socket_ >= 0`.
pub record PoseClient : Type 0 where
  pub has_context : Bool
  pub broker_retry_countdown : ℕ
  pub socket_open : Bool
  pub retry_countdown : ℕ
  pub latest : PoseFrame

-- The arguments are whether the VM and the context are not null, and whether GetEnv gives an
-- environment.
unfoldable pub set_android_context : Bool → Bool → Bool → PoseClient → PoseClient
set_android_context vm context env c =
    if vm && (context && env) then record c { has_context = true } else c

-- GetEnv gives an environment, none, or an error, or the thread is detached; then whether it could be
-- attached.
pub data EnvAnswer : Type 0 where
  env_given env_null env_failed : EnvAnswer
  env_detached : Bool → EnvAnswer

abbrev pub has_env : EnvAnswer → Bool
has_env env_given = true
has_env (env_detached attached) = attached
has_env answer = false

-- The columns of the broker's row.
pub record BrokerRow : Type 0 where
  pub sequence : ℕ
  pub monotonic_time_ns : ℕ
  pub hmd : Pose
  pub left_controller : Pose
  pub right_controller : Pose

-- Whether each step gave an object and no exception, and whether there is a row.
pub record BrokerAnswers : Type 0 where
  pub env : EnvAnswer
  pub resolver : Bool
  pub uri : Bool
  pub cursor : Bool
  pub moved_to_first : Bool
  pub row : BrokerRow

unfoldable pub query_pose_broker : BrokerAnswers → PoseClient → Bool × PoseClient
query_pose_broker a c =
    if not c.has_context
    then (false, c)
    else if ltb 0 c.broker_retry_countdown
    then (false, record c { broker_retry_countdown = c.broker_retry_countdown - 1 })
    else if not (has_env a.env)
    then (false, record c { broker_retry_countdown = 90 })
    else if a.resolver && (a.uri && (a.cursor && a.moved_to_first))
    then (
      true,
      record c {
        latest = record c.latest {
          sequence = a.row.sequence;
          monotonic_time_ns = a.row.monotonic_time_ns;
          hmd = a.row.hmd;
          left_controller = a.row.left_controller;
          right_controller = a.row.right_controller;
        };
      },
    )
    else (false, record c { broker_retry_countdown = 30 })

-- What becomes of one host: whether a socket was made, the address was read, and the connection made.
pub record HostAnswer : Type 0 where
  pub socket : Bool
  pub address : Bool
  pub connected : Bool

abbrev pub k_candidate_hosts : List String
k_candidate_hosts = "172.26.32.1" ∷ "127.0.0.1" ∷ "192.168.240.1" ∷ "10.0.2.2" ∷ []

-- The loop over the hosts: the one that was connected to.
unfoldable pub connect_first : (String → HostAnswer) → List String → Option String
connect_first answer [] = none
connect_first answer (host ∷ hosts) =
    let a = answer host in
    if a.socket && (a.address && a.connected) then some host else connect_first answer hosts

abbrev pub is_some : Option String → Bool
is_some none = false
is_some (some host) = true

-- The result, whether the hosts were tried, and the client.
unfoldable pub ensure_connected : (String → HostAnswer) → PoseClient → Bool × Bool × PoseClient
unfolding connect_first
ensure_connected answer c =
    let connected = is_some (connect_first answer k_candidate_hosts) in
    if c.socket_open
    then (true, false, c)
    else if ltb 0 c.retry_countdown
    then (false, false, record c { retry_countdown = c.retry_countdown - 1 })
    else (connected, true, record c { retry_countdown = 90; socket_open = connected })

-- What `recv` gives: bytes, the end of the stream, EAGAIN or EWOULDBLOCK, or another error.
pub data RecvAnswer : Type 0 where
  got : List ℕ → RecvAnswer
  ended would_block failed : RecvAnswer

unfoldable pub close_socket : PoseClient → PoseClient
close_socket c = record c { socket_open = false }

unfoldable pub take_frame : List ℕ → PoseClient → PoseClient
unfolding is_valid_frame
take_frame bytes c =
    let frame = read_pose_frame bytes in
    if is_valid_frame frame then record c { latest = frame } else c

-- The two loops: `buffer` holds the bytes of the frame that have come, and `recv` is asked for no more
-- than the others. The Bool says whether the function returned; else it waits in `recv`.
unfoldable pub read_frames : List ℕ → List RecvAnswer → PoseClient → Bool × PoseClient
unfolding close_socket take_frame
read_frames buffer [] c = (false, c)
read_frames buffer (ended ∷ answers) c = (true, close_socket c)
read_frames buffer (would_block ∷ answers) c = (true, c)
read_frames buffer (failed ∷ answers) c = (true, close_socket c)
read_frames buffer (got [] ∷ answers) c = (true, close_socket c)
read_frames buffer (got (b ∷ bytes) ∷ answers) c =
    let buffer' = buffer ++ take (pose_frame_size - length buffer) (b ∷ bytes) in
    let whole = length buffer' == pose_frame_size in
    read_frames (if whole then [] else buffer') answers (if whole then take_frame buffer' c else c)

unfoldable pub read_available_frames : List RecvAnswer → PoseClient → Bool × PoseClient
unfolding read_frames
read_available_frames answers c = read_frames [] answers c

pub record CallAnswers : Type 0 where
  pub broker : BrokerAnswers
  pub hosts : String → HostAnswer
  pub received : List RecvAnswer

-- Whether the call returned, whether the hosts were tried, and the client; the call returns `latest`.
unfoldable pub latest_pose_frame : CallAnswers → PoseClient → Bool × Bool × PoseClient
latest_pose_frame a c =
    let (found, c1) = query_pose_broker a.broker c in
    let (connected, tried, c2) = ensure_connected a.hosts c1 in
    let (returned, c3) = read_available_frames a.received c2 in
    if found
    then (true, false, c1)
    else if connected
    then (returned, tried, c3)
    else (true, tried, c2)
