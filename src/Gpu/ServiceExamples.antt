-- ===== src/Gpu/ServiceExamples.antt =====
-- The GPU frame server with clients that are refused and served, a sender, and a program of UniqueFds.
use axrb.Common.{
  ℕ, ◌≡◌, refl, true, false, not, ◌&&◌, none, some, List, [], ◌∷◌, map, length, leb, ◌==◌,
  if◌then◌else◌, arith,
}
use axrb.Gpu.Server.{
  GpuFrameDescriptor, Message, validate_descriptor, recv_descriptor_with_fds, k_gpu_frame_magic,
  k_gpu_frame_version, k_gpu_frame_type_dma_buf, descriptor_size,
}
use axrb.Gpu.UniqueFd.{
  FdCall, constructs, moves, assigns, releases, resets, destroys, reset, release, reset_at,
  release_at, in_scope, fd_call, fd_step, fd_run, no_fds,
}
use axrb.Gpu.Closing.{Accounted, fds_closed_once}
use axrb.Gpu.Service.{GpuClient, bad_path, serve_gpu}
use axrb.Gpu.Delivery.{
  offered, within, ready, serve_gpu_lem, Sending, sent_ok, as_client, AllWellFormed, sends_served,
}

abbrev image : ℕ → GpuFrameDescriptor
image sequence = record {
  magic = k_gpu_frame_magic;
  version = k_gpu_frame_version;
  type = k_gpu_frame_type_dma_buf;
  header_size = descriptor_size;
  width = 64;
  height = 64;
  layers = 1;
  format_type = 1;
  drm_format = 0x34324152;
  drm_modifier = 0;
  plane_count = 1;
  fd_count = 1;
  sequence = sequence;
  monotonic_time_ns = 6;
  planes = [];
}

abbrev message : ℕ → List ℕ → Message
message sequence fds = record {
  failed = false;
  received = descriptor_size;
  descriptor = image sequence;
  rights = fds;
}

abbrev socket_path : List ℕ
socket_path = 47 ∷ 97 ∷ []

path_fine : bad_path (some socket_path) ≡ false
unfolding bad_path
path_fine = refl

-- A client that is refused, a failed accept, and a client with two frames.
abbrev three_clients : List GpuClient
three_clients =
    some (5, message 1 (8 ∷ 9 ∷ []) ∷ message 2 (10 ∷ []) ∷ [])
    ∷ none
    ∷ some (6, message 3 (11 ∷ []) ∷ message 4 (12 ∷ []) ∷ [])
    ∷ []

serve_gpu_lem_example :
    ((serve_gpu (some socket_path) 2 (ready 3) three_clients).delivered
      ≡ within 2 (offered three_clients))
    × ((serve_gpu (some socket_path) 2 (ready 3) three_clients).exit
        ≡ (if not (2 == 0) && leb 2 (length (offered three_clients)) then some 0 else none))
serve_gpu_lem_example = serve_gpu_lem socket_path 2 3 three_clients path_fine (omega arith)

two_frames : within 2 (offered three_clients) ≡ (image 3, 11 ∷ []) ∷ (image 4, 12 ∷ []) ∷ []
unfolding recv_descriptor_with_fds validate_descriptor
two_frames = refl

abbrev sending : ℕ → ℕ → Sending
sending sequence fd = record {
  descriptor = image sequence;
  fds = fd ∷ [];
  socket_fd = 20;
  client_fd = 21;
  installed = 22 ∷ [];
}

abbrev two_sendings : List Sending
two_sendings = sending 1 7 ∷ sending 2 8 ∷ []

image_valid : (sequence : ℕ) → validate_descriptor (image sequence) 1 ≡ true
unfolding validate_descriptor
image_valid sequence = refl

two_sendings-AllWellFormed : AllWellFormed two_sendings
two_sendings-AllWellFormed = (
  record { valid = image_valid 1; as_many = refl; opened = refl },
  (record { valid = image_valid 2; as_many = refl; opened = refl }, tt),
)

sends_served_example :
    (serve_gpu
      (some socket_path)
      0
      (ready 3)
      (map (λ s. as_client s (sent_ok socket_path s).1) two_sendings)).delivered
    ≡ map (λ s. (s.descriptor, s.installed)) two_sendings
sends_served_example = sends_served socket_path 3 two_sendings path_fine two_sendings-AllWellFormed

-- The second variable takes 7 from the first one; 8 is given to the first one, moved over 7, which
-- closes it, and released; 9 is closed as it goes out of scope.
abbrev program : List FdCall
program =
    constructs (some 7)
    ∷ moves 0
    ∷ resets 0 (some 8)
    ∷ assigns 1 0
    ∷ releases 1
    ∷ constructs (some 9)
    ∷ destroys 2
    ∷ []

program_closes :
    ((fd_run no_fds program).closed ≡ 7 ∷ 9 ∷ []) × ((fd_run no_fds program).released ≡ 8 ∷ [])
unfolding fd_run fd_step fd_call in_scope reset_at release_at reset release
program_closes = (refl, refl)

fds_closed_once_example : Accounted 7 (fd_run no_fds program)
fds_closed_once_example = fds_closed_once 7 program
