-- ===== src/Gpu/Server.antt =====
-- validate_descriptor, recv_descriptor_with_fds and the loop over one client of
-- UnixFdFrameServer::serve in protocol/gpu_transport.cpp.
use axrb.Common.{
  ℕ, suc, ◌+◌, u32, Bool, true, false, ◌||◌, not, List, [], ◌∷◌, length, ltb, ◌==◌, if◌then◌else◌,
}

abbrev pub k_gpu_frame_magic : ℕ
k_gpu_frame_magic = 0x47525841

abbrev pub k_gpu_frame_version : ℕ
k_gpu_frame_version = 1

abbrev pub k_gpu_frame_type_dma_buf : ℕ
k_gpu_frame_type_dma_buf = 1

abbrev pub k_max_gpu_frame_planes : ℕ
k_max_gpu_frame_planes = 4

abbrev pub descriptor_size : ℕ
descriptor_size = 200

pub record GpuFramePlane : Type 0 where
  pub fd_index : ℕ
  pub plane_index : ℕ
  pub offset : ℕ
  pub size : ℕ
  pub stride : ℕ
  pub reserved : ℕ

-- `planes` has kMaxGpuFramePlanes elements.
pub record GpuFrameDescriptor : Type 0 where
  pub magic : ℕ
  pub version : ℕ
  pub type : ℕ
  pub header_size : ℕ
  pub width : ℕ
  pub height : ℕ
  pub layers : ℕ
  pub format_type : ℕ
  pub drm_format : ℕ
  pub drm_modifier : ℕ
  pub plane_count : ℕ
  pub fd_count : ℕ
  pub sequence : ℕ
  pub monotonic_time_ns : ℕ
  pub planes : List GpuFramePlane

unfoldable pub validate_descriptor : GpuFrameDescriptor → ℕ → Bool
validate_descriptor d received_fd_count =
    if not (d.magic == k_gpu_frame_magic)
      || (not (d.version == k_gpu_frame_version)
          || (not (d.type == k_gpu_frame_type_dma_buf) || not (d.header_size == descriptor_size)))
    then false
    else if d.width == 0 || (d.height == 0 || d.layers == 0)
    then false
    else if d.plane_count == 0
        || (ltb k_max_gpu_frame_planes d.plane_count
            || (d.fd_count == 0
                || (ltb k_max_gpu_frame_planes d.fd_count
                    || not (d.fd_count == received_fd_count))))
    then false
    else true

-- What `recvmsg` gives: whether it failed, how many bytes came (0 at the end of the stream), the
-- descriptor that they make, and the file descriptors that came with them, in order.
pub record Message : Type 0 where
  pub failed : Bool
  pub received : ℕ
  pub descriptor : GpuFrameDescriptor
  pub rights : List ℕ

-- The result, and the file descriptors that the UniqueFd vector owns.
unfoldable pub recv_descriptor_with_fds : Message → Bool × List ℕ
unfolding validate_descriptor
recv_descriptor_with_fds m =
    if m.received == 0
    then (false, [])
    else if m.failed
    then (false, [])
    else if not (m.received == descriptor_size)
    then (false, [])
    else (validate_descriptor m.descriptor (u32 (length m.rights)), m.rights)

abbrev pub GpuFrame : Type 0
GpuFrame = GpuFrameDescriptor × List ℕ

-- What goes to the callback, which owns its file descriptors from then on; the file descriptors that
-- the server closes; the number of frames; and the number of messages that were read.
pub record GpuServed : Type 0 where
  pub delivered : List GpuFrame
  pub closed : List ℕ
  pub frames : ℕ
  pub consumed : ℕ

unfoldable pub continues : ℕ → ℕ → Bool
continues max_frames frames = max_frames == 0 || ltb frames max_frames

unfoldable pub then_served : GpuFrame → GpuServed → GpuServed
then_served frame s = record s { delivered = frame ∷ s.delivered; consumed = suc s.consumed }

-- A message that is refused ends the loop, and the vector closes what it owns.
unfoldable pub serve_messages : ℕ → ℕ → List Message → GpuServed
unfolding continues then_served recv_descriptor_with_fds
serve_messages max_frames frames [] = record {
  delivered = [];
  closed = [];
  frames = frames;
  consumed = 0;
}
serve_messages max_frames frames (m ∷ ms) =
    let (good, fds) = recv_descriptor_with_fds m in
    let next = then_served (m.descriptor, fds) (serve_messages max_frames (u32 (frames + 1)) ms) in
    if not (continues max_frames frames)
    then record { delivered = []; closed = []; frames = frames; consumed = 0 }
    else if not good
    then record { delivered = []; closed = fds; frames = frames; consumed = 1 }
    else next
