-- ===== src/Gpu/Examples.antt =====
-- A client of the GPU frame server, evaluated.
use axrb.Common.{ℕ, ◌≡◌, refl, true, false, List, [], ◌∷◌, ◌++◌, take, replicate, inr, arith}
use axrb.Gpu.Server.{
  GpuFramePlane, GpuFrameDescriptor, Message, validate_descriptor, recv_descriptor_with_fds,
  continues, then_served, serve_messages, k_gpu_frame_magic, k_gpu_frame_version,
  k_gpu_frame_type_dma_buf, descriptor_size,
}
use axrb.Gpu.Ownership.{passed, delivered_fds, fds_accounted, short_message_leaks}

abbrev no_plane : GpuFramePlane
no_plane = record { fd_index = 0; plane_index = 0; offset = 0; size = 0; stride = 0; reserved = 0 }

abbrev one_plane : GpuFrameDescriptor
one_plane = record {
  magic = k_gpu_frame_magic;
  version = k_gpu_frame_version;
  type = k_gpu_frame_type_dma_buf;
  header_size = descriptor_size;
  width = 64;
  height = 64;
  layers = 1;
  format_type = 1;
  drm_format = 0x34324152;
  drm_modifier = 0;
  plane_count = 1;
  fd_count = 1;
  sequence = 5;
  monotonic_time_ns = 6;
  planes = replicate 4 no_plane;
}

abbrev whole : List ℕ → Message
whole fds = record {
  failed = false;
  received = descriptor_size;
  descriptor = one_plane;
  rights = fds;
}

-- A good message, and one with a file descriptor too many.
abbrev two_messages : List Message
two_messages = whole (7 ∷ []) ∷ whole (8 ∷ 9 ∷ []) ∷ []

fds_accounted_example :
    passed (take (serve_messages 0 0 two_messages).consumed two_messages)
    ≡ delivered_fds (serve_messages 0 0 two_messages).delivered
      ++ (serve_messages 0 0 two_messages).closed
fds_accounted_example = fds_accounted 0 0 two_messages (inr (refl, refl), (inr (refl, refl), tt))

two_messages_served : (serve_messages 0 0 two_messages).closed ≡ 8 ∷ 9 ∷ []
unfolding serve_messages then_served recv_descriptor_with_fds validate_descriptor continues
two_messages_served = refl

abbrev cut_short : Message
cut_short = record { failed = false; received = 100; descriptor = one_plane; rights = 7 ∷ [] }

whole_good : (recv_descriptor_with_fds (whole (8 ∷ []))).0 ≡ true
unfolding recv_descriptor_with_fds validate_descriptor
whole_good = refl

short_message_leaks_example :
    let s = serve_messages 0 0 (whole (8 ∷ []) ∷ cut_short ∷ []) in
    passed (take s.consumed (whole (8 ∷ []) ∷ cut_short ∷ []))
    ≡ (delivered_fds s.delivered ++ s.closed) ++ 7 ∷ []
short_message_leaks_example =
    short_message_leaks 0 (whole (8 ∷ []) ∷ []) cut_short [] (whole_good, tt) (omega arith)
