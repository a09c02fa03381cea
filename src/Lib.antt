-- ===== src/Lib.antt =====
-- AXRB, an OpenXR bridge: an Android OpenXR application runs in a container against the runtime of
-- android-runtime/, and a host program shows its frames and feeds it poses.
--
-- The parts and the files that model them:
--
-- 1. android-runtime/openxr_dispatch/openxr_minimal.h: result codes, session states and structure
--   types. Xr, Xr/StructureType.
-- 2. android-runtime/session.cpp: the entry points that an application calls. All its state is in
--   globals, here the record Runtime.Runtime, and a call is a function of the record: Runtime holds
--   the state, the handle checks and the helpers, Runtime/Session, Runtime/Swapchain, Runtime/Path,
--   Runtime/Action, Runtime/Space, Runtime/Frame, Runtime/System, Runtime/Enumerate, Runtime/Input,
--   Runtime/Location (with the arithmetic of poses in Runtime/Float) and Runtime/Dispatch the entry
--   points, named after them without the prefix xr and the suffix _impl
--   (xrBeginSession_impl is begin_session). Runtime/Calls puts the calls that change the state
--   together: a client is any list of them, with any arguments.
-- 3. protocol/video_packet.h and protocol/video_transport.cpp: encoded frames over UDP. Video/Packet
--   (the header, its bytes, valid_packet), Video/Sender (UdpVideoSender), Video/Receiver and
--   Video/Loop (UdpVideoReceiver::receive: one packet, and the loop), Video/Synthetic (test patterns).
-- 4. protocol/image_frame.h, protocol/image_transport.cpp and the ImageTransportClient of
--   android-runtime/session.cpp: raw images over a byte stream. Image/Header (the header, its bytes,
--   the checks), Image/Stream (recv_all), Image/Server (TcpImageServer), Image/Client and Image/Uplink.
-- 5. protocol/pose_frame.h and protocol/transport_tcp.cpp: pose frames over TCP. Pose/Frame (the frame),
--   Pose/Server (TcpPoseServer). android-runtime/pose_client.cpp: Pose/Client (PoseClient).
-- 6. protocol/gpu_transport.cpp: dma-buf descriptors over a Unix socket. Gpu/UniqueFd (the class),
--   Gpu/Server (the checks, and the loop over one client of UnixFdFrameServer), Gpu/Service (its set-up
--   and its loop over clients, and send_gpu_frame_descriptor).
-- 7. host-bridge/openxr_host.cpp: the host program. Host/Decode (how a raw video frame becomes an
--   image), Host/Source (OpenXrPoseSource: the loop that polls an OpenXR runtime for poses and shows
--   frames on it), Host/Upload (HostImageFrame, and how an image gets into the projection texture),
--   Host/Run (the command line, and the loops that send video).
--
-- The other modules below Runtime, Video, Image, Pose, Gpu and Host hold theorems, and the modules with
-- Examples in their name concrete runs.
--
-- The runtime's parts share its globals; the frame calls read what the session and the swapchain calls
-- write, and the action spaces read the path table. The video sender and the receiver share the packet
-- format only, as do the image client and the image server; what the image client sends is what
-- xrEndFrame reads back.
--
-- Conventions. A pointer argument is an Option or, where only its being null matters, a Bool; a handle
-- is a constructor for each global that it may point to, or a foreign pointer. Numbers are natural
-- numbers; where machine arithmetic can wrap it is written out by u16, u32 and u64. A float is its
-- bits. What the system answers (the clock, texture names, datagrams, whether sendto takes a packet)
-- is an argument.
--
-- Fuel. Video.Receiver.evict runs for as many rounds as the map has frames, and each round takes one
-- away; Video.Sender.send_from runs for as many rounds as the payload has bytes, and each round sends
-- one at least; Image.Server.serve_client runs for one round more than the connection has bytes, and
-- each round takes 64. The receive loop is a recursion on the list of events, and the send_all of the
-- image client one on the list of what send answers; their results say whether they have returned or
-- wait.
--
-- Not modelled: sockets and their options, OpenGL ES and Direct3D calls, JNI, logging, the Java glue,
-- and the set-up of the host program: its loader, the choice of its graphics device, and the actions of
-- its controllers. The arithmetic of floats is a parameter, one operation at a time: a compiler that
-- contracts a product and a sum is outside the model.
pub mod Common
pub mod Xr
pub mod Gpu
pub mod Host
pub mod Image
pub mod Pose
pub mod Runtime
pub mod Video
