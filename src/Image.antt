-- ===== src/Image.antt =====
-- protocol/image_frame.h, protocol/image_transport.cpp and the ImageTransportClient of
-- android-runtime/session.cpp: raw images over a byte stream.
pub mod Header
pub mod Stream
pub mod Server
pub mod Client
pub mod Fragments
pub mod Layout
pub mod Transfer
pub mod Readback
pub mod Uplink
pub mod Whole
pub mod Restarts
mod Examples
mod UplinkExamples
