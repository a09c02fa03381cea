-- ===== src/Gpu/Service.antt =====
-- UnixFdFrameServer::serve and send_gpu_frame_descriptor of protocol/gpu_transport.cpp. A file
-- descriptor that a system call gives is `none` where the call fails.
use axrb.Common.{
  ℕ, Bool, true, false, ◌||◌, not, Option, none, some, List, [], ◌∷◌, ◌++◌, length, take, ltb, leb,
  ◌==◌, if◌then◌else◌,
}
use axrb.Gpu.Server.{
  GpuFrameDescriptor, Message, GpuFrame, GpuServed, continues, serve_messages, descriptor_size,
  k_max_gpu_frame_planes,
}

-- What comes to the server: `none` where `accept` fails, and else the socket and what its client sends
-- before it closes the connection.
abbrev pub GpuClient : Type 0
GpuClient = Option (ℕ × List Message)

-- What goes to the callback, what the server closes, and whether the loop has ended: else it waits for
-- a client.
pub record Accepted : Type 0 where
  pub delivered : List GpuFrame
  pub closed : List ℕ
  pub ended : Bool

abbrev pub nothing_accepted : Bool → Accepted
nothing_accepted ended = record { delivered = []; closed = []; ended = ended }

unfoldable pub after_gpu_client : ℕ → GpuServed → Accepted → Accepted
after_gpu_client client_fd s next = record {
  delivered = s.delivered ++ next.delivered;
  closed = s.closed ++ client_fd ∷ next.closed;
  ended = next.ended;
}

-- The outer loop.
unfoldable pub accept_gpu_clients : ℕ → ℕ → List GpuClient → Accepted
unfolding continues serve_messages after_gpu_client
accept_gpu_clients max_frames frames [] = nothing_accepted (not (continues max_frames frames))
accept_gpu_clients max_frames frames (none ∷ clients) =
    let next = accept_gpu_clients max_frames frames clients in
    if continues max_frames frames then next else nothing_accepted true
accept_gpu_clients max_frames frames (some (client_fd, messages) ∷ clients) =
    let s = serve_messages max_frames frames messages in
    let next = accept_gpu_clients max_frames s.frames clients in
    if continues max_frames frames then after_gpu_client client_fd s next else nothing_accepted true

-- sizeof(address.sun_path)
abbrev pub sun_path_size : ℕ
sun_path_size = 108

-- A path is its bytes before the terminating null byte.
unfoldable pub bad_path : Option (List ℕ) → Bool
bad_path none = true
bad_path (some path) = length path == 0 || leb sun_path_size (length path)

pub record ListenAnswers : Type 0 where
  pub server_fd : Option ℕ
  pub bound : Bool
  pub listens : Bool

-- The exit code, which is `none` as long as the server waits, and how often the path was unlinked.
pub record ServeEnd : Type 0 where
  pub delivered : List GpuFrame
  pub closed : List ℕ
  pub unlinked : ℕ
  pub exit : Option ℕ

unfoldable pub not_served : List ℕ → ℕ → ℕ → ServeEnd
not_served closed unlinked code = record {
  delivered = [];
  closed = closed;
  unlinked = unlinked;
  exit = some code;
}

unfoldable pub serve_end : ℕ → Accepted → ServeEnd
serve_end server_fd a =
    if a.ended
    then record {
      delivered = a.delivered;
      closed = a.closed ++ server_fd ∷ [];
      unlinked = 2;
      exit = some 0;
    }
    else record { delivered = a.delivered; closed = a.closed; unlinked = 1; exit = none }

serve_on : ListenAnswers → Option ℕ → ℕ → List GpuClient → ServeEnd
unfolding not_served serve_end accept_gpu_clients
serve_on answers none max_frames clients = not_served [] 0 1
serve_on answers (some server_fd) max_frames clients =
    if not answers.bound
    then not_served (server_fd ∷ []) 1 1
    else if not answers.listens
    then not_served (server_fd ∷ []) 1 1
    else serve_end server_fd (accept_gpu_clients max_frames 0 clients)

unfoldable pub serve_gpu : Option (List ℕ) → ℕ → ListenAnswers → List GpuClient → ServeEnd
unfolding bad_path serve_on not_served
serve_gpu socket_path max_frames answers clients =
    if bad_path socket_path
    then not_served [] 0 2
    else serve_on answers answers.server_fd max_frames clients

-- `sent` is what `sendmsg` returns, at least 0.
pub record SendAnswers : Type 0 where
  pub socket_fd : Option ℕ
  pub connected : Bool
  pub sent : ℕ

-- The result, what was given to `sendmsg`, and what is closed.
abbrev pub GpuSent : Type 0
GpuSent = Bool × Option GpuFrame × List ℕ

send_on : SendAnswers → Option ℕ → GpuFrame → GpuSent
send_on answers none frame = (false, none, [])
send_on answers (some socket_fd) frame =
    if not answers.connected
    then (false, none, socket_fd ∷ [])
    else (answers.sent == descriptor_size, some frame, socket_fd ∷ [])

-- `fds` are the numbers behind the pointer, `fd_count` at least, if it is not null. Only a null path
-- and one that is too long are refused: an empty one is not.
unfoldable pub send_gpu_frame_descriptor :
    Option (List ℕ) → GpuFrameDescriptor → Option (List ℕ) → ℕ → SendAnswers → GpuSent
unfolding send_on
send_gpu_frame_descriptor none descriptor fds fd_count answers = (false, none, [])
send_gpu_frame_descriptor (some path) descriptor none fd_count answers = (false, none, [])
send_gpu_frame_descriptor (some path) descriptor (some fds) fd_count answers =
    if fd_count == 0 || ltb k_max_gpu_frame_planes fd_count
    then (false, none, [])
    else if leb sun_path_size (length path)
    then (false, none, [])
    else send_on answers answers.socket_fd (descriptor, take fd_count fds)
