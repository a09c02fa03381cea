-- ===== src/Host/Source/Order.antt =====
-- OpenXrPoseSource of host-bridge/openxr_host.cpp keeps the rules of its OpenXR runtime.
use axrb.Common.{ℕ, ◌≡◌, ◌≢◌, Bool, true, false, List, [], ◌∷◌}
use axrb.Host.Source.{success, Round, Start, stops, proceeds}
use axrb.Host.Source.Conduct.{FrameStage, no_frame, begun, Conduct}

abbrev begun_if : Bool → ℕ → FrameStage
begun_if true time = begun time
begun_if false time = no_frame

-- Where the frame is after start_frame.
abbrev stage_after : Start → FrameStage
stage_after stops = no_frame
stage_after (proceeds locate_time time began) = begun_if began time

-- A begun frame has a time to locate at.
abbrev CanLocate : Start → Type 0
CanLocate start = (locate_time time : ℕ) → start ≡ proceeds locate_time time true → locate_time ≢ 0

-- The display time that xrWaitFrame predicts is a time, and none is 0.
abbrev pub PredictsTime : Round → Type 0
PredictsTime r = r.wait ≡ success → r.predicted_display_time ≢ 0

abbrev pub AllPredictTime : List Round → Type 0
AllPredictTime [] = Unit {0}
AllPredictTime (r ∷ rounds) = PredictsTime r × AllPredictTime rounds
