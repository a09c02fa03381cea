-- ===== src/Pose.antt =====
-- protocol/pose_frame.h and protocol/transport_tcp.cpp: pose frames over TCP.
pub mod Frame
pub mod Client
pub mod Server
pub mod Order
mod Examples
mod ClientExamples
