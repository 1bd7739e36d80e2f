-- ===== src/Room/Options/Examples.antt =====
-- options.rs at a camera of 720 lines, and at one of 4:3 with 1920 lines.
use livekit_rust.Base.{◌≡◌, true, false, max, arith}
use livekit_rust.Base.Outcome.{panic}
use livekit_rust.Proto.{camera}
use livekit_rust.Room.Options.{compute_video_encodings, is_screen}
use livekit_rust.Room.Options.Encodings.{layers, rids, oversize_panics, fitting_track_encodings}

oversize_panics_example : compute_video_encodings false 2560 1920 camera true ≡ panic
oversize_panics_example = oversize_panics false 2560 1920 camera true (omega arith)

fitting_track_encodings_example :
    rids (fitting_track_encodings true 1280 720 camera true (omega arith)).0
    ≡ layers (is_screen camera) true (max 1280 720)
fitting_track_encodings_example =
    (fitting_track_encodings true 1280 720 camera true (omega arith)).2
