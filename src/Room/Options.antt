-- ===== src/Room/Options.antt =====
-- livekit/src/room/options.rs: the encodings of a published video track. `wide` stands for the
-- comparison of the aspect ratio, in floating point, with 16/9 and 4/3. The other floats are exact
-- here: frame rates are whole numbers, and a scale is a fraction, with denominator 0 for an infinite one.
mod Encodings
mod Examples
use livekit_rust.Base.{
  ℕ, zero, suc, ◌+◌, ◌*◌, ◌/◌, max, min, Bool, true, false, List, [], ◌∷◌, Option, none, some,
  if◌then◌else◌, leb, String,
}
use livekit_rust.Base.Outcome.{Outcome, ok, panic}
use livekit_rust.Proto.{TrackSource, screenshare}

pub record VideoEncoding : Type 0 where
  pub max_bitrate : ℕ
  pub max_framerate : ℕ

pub record VideoPreset : Type 0 where
  pub width : ℕ
  pub height : ℕ
  pub encoding : VideoEncoding

abbrev pub preset : ℕ → ℕ → ℕ → ℕ → VideoPreset
preset width height bitrate fps = record {
  width = width;
  height = height;
  encoding = record { max_bitrate = bitrate; max_framerate = fps };
}

abbrev presets_16_9 : List VideoPreset
presets_16_9 =
    preset 160 90 90000 15
    ∷ preset 320 180 160000 15
    ∷ preset 384 216 180000 15
    ∷ preset 640 360 450000 20
    ∷ preset 960 540 800000 25
    ∷ preset 1280 720 1700000 30
    ∷ preset 1920 1080 3000000 30
    ∷ preset 2560 1440 5000000 30
    ∷ preset 3840 2160 8000000 30
    ∷ []

abbrev presets_4_3 : List VideoPreset
presets_4_3 =
    preset 160 120 80000 15
    ∷ preset 240 180 100000 15
    ∷ preset 320 240 150000 15
    ∷ preset 480 360 225000 20
    ∷ preset 640 480 300000 20
    ∷ preset 720 540 450000 25
    ∷ preset 960 720 1500000 30
    ∷ preset 1440 1080 2500000 30
    ∷ preset 1920 1440 3500000 30
    ∷ []

abbrev presets_screenshare : List VideoPreset
presets_screenshare =
    preset 640 360 200000 3
    ∷ preset 1280 720 400000 5
    ∷ preset 1280 720 1000000 15
    ∷ preset 1920 1080 1500000 15
    ∷ preset 1920 1080 3000000 30
    ∷ []

unfoldable pub compute_presets_for_resolution : (wide is_screenshare : Bool) → List VideoPreset
compute_presets_for_resolution wide true = presets_screenshare
compute_presets_for_resolution true false = presets_16_9
compute_presets_for_resolution false false = presets_4_3

-- The loop of `compute_appropriate_encoding`; behind it is `unreachable!`.
unfoldable pub first_fitting : ℕ → List VideoPreset → Outcome (Unit {0}) VideoEncoding
first_fitting size [] = panic
first_fitting size (p ∷ ps) =
    let rest = first_fitting size ps in if leb size p.width then ok p.encoding else rest

unfoldable pub compute_appropriate_encoding :
    (wide is_screenshare : Bool) → ℕ → ℕ → Outcome (Unit {0}) VideoEncoding
unfolding first_fitting compute_presets_for_resolution
compute_appropriate_encoding wide is_screenshare width height =
    first_fitting (max width height) (compute_presets_for_resolution wide is_screenshare)

-- A division by zero is a panic.
unfoldable pub compute_default_simulcast_preset : VideoPreset → Outcome (Unit {0}) VideoPreset
compute_default_simulcast_preset initial =
    let divisor = 4 * (initial.encoding.max_framerate / 3) in
    if leb 1 divisor
    then ok (
        preset (initial.width / 2) (initial.height / 2)
          (max 150000 (initial.encoding.max_bitrate / divisor)) 3)
    else panic

-- The low preset, if there is one, and the middle one.
unfoldable pub compute_default_simulcast_presets :
    (wide is_screenshare : Bool)
    → VideoPreset
    → Outcome (Unit {0}) (Option VideoPreset × VideoPreset)
unfolding compute_default_simulcast_preset
compute_default_simulcast_presets wide true initial =
    elim (compute_default_simulcast_preset initial) [ ok p ↦ ok (none, p) | _ ↦ panic ]
compute_default_simulcast_presets true false initial =
    ok (some (preset 320 180 160000 15), preset 640 360 450000 20)
compute_default_simulcast_presets false false initial =
    ok (some (preset 240 180 100000 15), preset 480 360 225000 20)

pub data Rid : Type 0 where
  q h f : Rid

pub record Encoding : Type 0 where
  pub rid : Rid
  pub scale_over : ℕ
  pub scale_under : ℕ
  pub bitrate : ℕ
  pub framerate : ℕ

-- `max(1.0, size / m)`
abbrev pub scaled : Rid → ℕ → VideoPreset → Encoding
scaled rid size p =
    let m = min p.width p.height in
    record {
      rid = rid;
      scale_over = if leb size m then 1 else size;
      scale_under = if leb size m then 1 else m;
      bitrate = p.encoding.max_bitrate;
      framerate = p.encoding.max_framerate;
    }

abbrev rids_from : List Rid → ℕ → List VideoPreset → Outcome (Unit {0}) (List Encoding)
rids_from rids size [] = ok []
rids_from [] size (p ∷ ps) = panic
rids_from (rid ∷ rids) size (p ∷ ps) = elim (rids_from rids size ps) [
  | ok es ↦ ok (scaled rid size p ∷ es)
  | _ ↦ panic
]

-- `VIDEO_RIDS[i]` is a panic behind the third.
unfoldable pub into_rtp_encodings : ℕ → ℕ → List VideoPreset → Outcome (Unit {0}) (List Encoding)
into_rtp_encodings width height ps = rids_from (q ∷ h ∷ f ∷ []) (min width height) ps

abbrev pub is_screen : TrackSource → Bool
is_screen screenshare = true
is_screen _ = false

abbrev pub choose :
    (size width height : ℕ)
    → VideoPreset
    → Option VideoPreset × VideoPreset
    → Outcome (Unit {0}) (List Encoding)
choose size width height initial (some low, mid) =
    if leb 960 size
    then into_rtp_encodings width height (low ∷ mid ∷ initial ∷ [])
    else if leb 480 size
    then into_rtp_encodings width height (mid ∷ initial ∷ [])
    else into_rtp_encodings width height (initial ∷ [])
choose size width height initial (none, mid) =
    if leb 480 size
    then into_rtp_encodings width height (mid ∷ initial ∷ [])
    else into_rtp_encodings width height (initial ∷ [])

abbrev pub initial_preset : ℕ → ℕ → VideoEncoding → VideoPreset
initial_preset width height e = record { width = width; height = height; encoding = e }

abbrev pub simulcast_encodings :
    (wide is_screenshare simulcast : Bool)
    → ℕ
    → ℕ
    → VideoEncoding
    → Outcome (Unit {0}) (List Encoding)
simulcast_encodings wide is_screenshare false width height e =
    into_rtp_encodings width height (initial_preset width height e ∷ [])
simulcast_encodings wide is_screenshare true width height e =
    elim (compute_default_simulcast_presets wide is_screenshare (initial_preset width height e)) [
      | ok presets ↦ choose (max width height) width height (initial_preset width height e) presets
      | _ ↦ panic
    ]

-- Of the options, the source and whether to simulcast.
unfoldable pub compute_video_encodings :
    (wide : Bool) → ℕ → ℕ → TrackSource → (simulcast : Bool) → Outcome (Unit {0}) (List Encoding)
unfolding compute_appropriate_encoding compute_default_simulcast_presets into_rtp_encodings
compute_video_encodings wide width height source simulcast =
    elim (compute_appropriate_encoding wide (is_screen source) width height) [
      | ok e ↦ simulcast_encodings wide (is_screen source) simulcast width height e
      | _ ↦ panic
    ]
