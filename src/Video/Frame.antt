-- ===== src/Video/Frame.antt =====
-- EncodedVideoFrame of protocol/video_transport.h, and the codecs of protocol/video_packet.h that frames
-- are made with here.
use axrb.Common.{ℕ, Bool, List}

pub record EncodedVideoFrame : Type 0 where
  pub stream_id : ℕ
  pub codec : ℕ
  pub frame_id : ℕ
  pub capture_time_ns : ℕ
  pub width : ℕ
  pub height : ℕ
  pub key_frame : Bool
  pub payload : List ℕ

-- kEncodedVideoCodecOpaqueTest
abbrev pub k_encoded_video_codec_opaque_test : ℕ
k_encoded_video_codec_opaque_test = 0

-- kEncodedVideoCodecAxrbRgba8
abbrev pub k_encoded_video_codec_axrb_rgba8 : ℕ
k_encoded_video_codec_axrb_rgba8 = 100
