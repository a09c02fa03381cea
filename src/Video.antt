-- ===== src/Video.antt =====
-- protocol/video_packet.h, protocol/video_transport.h and protocol/video_transport.cpp: encoded video
-- frames over UDP.
pub mod Packet
pub mod Frame
pub mod Receiver
pub mod Marks
pub mod Table
pub mod Invariant
pub mod Integrity
pub mod Loop
pub mod Batches
pub mod Exit
pub mod Delivery
pub mod Sender
pub mod Wire
pub mod Packets
pub mod Progress
pub mod RoundTrip
pub mod Synthetic
mod Examples
