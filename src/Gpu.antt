-- ===== src/Gpu.antt =====
-- protocol/gpu_frame.h and protocol/gpu_transport.cpp: dma-buf descriptors over a Unix socket.
pub mod UniqueFd
pub mod Closing
pub mod Server
pub mod Service
pub mod Ownership
pub mod Delivery
mod Examples
mod ServiceExamples
