-- ===== src/Host.antt =====
-- host-bridge/openxr_host.cpp: the host program.
pub mod Decode
pub mod Source
pub mod Upload
pub mod Run
pub mod Arguments
pub mod Stream
mod Examples
mod SourceExamples
mod UploadExamples
mod RunExamples
