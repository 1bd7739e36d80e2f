-- ===== src/Room/Options/Encodings.antt =====
-- options.rs: which encodings a video track gets.
use livekit_rust.Base.{
  ℕ, ◌*◌, ◌/◌, ◌≡◌, refl, max, min, ◌≤◌, ◌<◌, Bool, true, false, not, ◌&&◌, ◌||◌, List, [], ◌∷◌,
  Option, none, some, arith, if◌then◌else◌, leb, is_some, Bool-cases, inl, inr,
}
use livekit_rust.Base.Outcome.{Outcome, ok, panic}
use livekit_rust.Proto.{TrackSource}
use livekit_rust.Room.Options.{
  VideoEncoding, VideoPreset, Encoding, Rid, q, h, f, compute_presets_for_resolution, first_fitting,
  compute_appropriate_encoding, compute_default_simulcast_preset, compute_default_simulcast_presets,
  into_rtp_encodings, is_screen, simulcast_encodings, compute_video_encodings, initial_preset,
  scaled, choose, preset,
}

-- The width of the largest preset.
abbrev pub widest : (wide is_screenshare : Bool) → ℕ
widest wide true = 1920
widest true false = 3840
widest false false = 1920

-- The layers that a track of a size is to have, the smallest first.
abbrev pub layers : (is_screenshare simulcast : Bool) → ℕ → List Rid
layers is_screenshare simulcast size =
    if not simulcast
    then q ∷ []
    else if leb 960 size && not is_screenshare
    then q ∷ h ∷ f ∷ []
    else if leb 480 size
    then q ∷ h ∷ []
    else q ∷ []

abbrev pub rids : List Encoding → List Rid
rids [] = []
rids (e ∷ es) = e.rid ∷ rids es

-- Whether the last encoding is not scaled.
abbrev pub full_last : List Encoding → Bool
full_last [] = false
full_last (e ∷ []) = leb e.scale_over 1 && leb 1 e.scale_under
full_last (e ∷ d ∷ es) = full_last (d ∷ es)

abbrev some_fits : ℕ → List VideoPreset → Bool
some_fits size [] = false
some_fits size (p ∷ ps) = leb size p.width || some_fits size ps

abbrev all_move : List VideoPreset → Bool
all_move [] = true
all_move (p ∷ ps) = leb 3 p.encoding.max_framerate && all_move ps

first_fitting-none :
    (size : ℕ) (ps : List VideoPreset) → some_fits size ps ≡ false → first_fitting size ps ≡ panic
unfolding first_fitting
first_fitting-none size [] small = refl
first_fitting-none size (p ∷ ps) small = ground (arith, first_fitting-none size ps)

first_fitting-some :
    (size : ℕ) (ps : List VideoPreset)
    → some_fits size ps ≡ true
    → all_move ps ≡ true
    → (e : VideoEncoding) × (first_fitting size ps ≡ ok e) × (leb 3 e.max_framerate ≡ true)
unfolding first_fitting
first_fitting-some size [] fits moves = absurd (ground arith)
first_fitting-some size (p ∷ ps) fits moves = elim (Bool-cases (leb size p.width)) [
  | inl here ↦ (p.encoding, ground arith, ground arith)
  | inr later ↦
      let (e, found, move) = first_fitting-some size ps (ground arith) (ground arith) in
      (e, ground arith, move)
]

presets-fit :
    (wide is_screenshare : Bool) (size : ℕ)
    → size ≤ widest wide is_screenshare
    → some_fits size (compute_presets_for_resolution wide is_screenshare) ≡ true
unfolding compute_presets_for_resolution
presets-fit true true size le = ground arith
presets-fit false true size le = ground arith
presets-fit true false size le = ground arith
presets-fit false false size le = ground arith

presets-too_small :
    (wide is_screenshare : Bool) (size : ℕ)
    → widest wide is_screenshare < size
    → some_fits size (compute_presets_for_resolution wide is_screenshare) ≡ false
unfolding compute_presets_for_resolution
presets-too_small true true size lt = ground arith
presets-too_small false true size lt = ground arith
presets-too_small true false size lt = ground arith
presets-too_small false false size lt = ground arith

presets-move :
    (wide is_screenshare : Bool)
    → all_move (compute_presets_for_resolution wide is_screenshare) ≡ true
unfolding compute_presets_for_resolution
presets-move true true = refl
presets-move false true = refl
presets-move true false = refl
presets-move false false = refl

screenshare-preset :
    (width height : ℕ) (e : VideoEncoding)
    → leb 3 e.max_framerate ≡ true
    → (p : VideoPreset) × (compute_default_simulcast_preset (initial_preset width height e) ≡ ok p)
unfolding compute_default_simulcast_preset
screenshare-preset width height e move = (
  preset (width / 2) (height / 2) (max 150000 (e.max_bitrate / (4 * (e.max_framerate / 3)))) 3,
  ground arith,
)

-- What a track's encodings are to be.
abbrev Laid : (is_screenshare simulcast : Bool) → ℕ → Outcome (Unit {0}) (List Encoding) → Type 0
Laid is_screenshare simulcast size x =
    (es : List Encoding) × (x ≡ ok es)
    × (rids es ≡ layers is_screenshare simulcast size)
    × (full_last es ≡ true)

one-Laid :
    (width height : ℕ) (e : VideoEncoding)
    → full_last (scaled q (min width height) (initial_preset width height e) ∷ []) ≡ true
one-Laid width height e = ground arith

choose-Laid :
    (width height : ℕ) (e : VideoEncoding) (o : Option VideoPreset) (mid : VideoPreset)
    → Laid
        (not (is_some o))
        true
        (max width height)
        (choose (max width height) width height (initial_preset width height e) (o, mid))
unfolding into_rtp_encodings
choose-Laid width height e none mid = elim (Bool-cases (leb 480 (max width height))) [
  | inl two ↦ (
    scaled q (min width height) mid
        ∷ scaled h (min width height) (initial_preset width height e)
        ∷ [],
    ground arith,
    ground arith,
    one-Laid width height e,
  )
  | inr one ↦ (
    scaled q (min width height) (initial_preset width height e) ∷ [],
    ground arith,
    ground arith,
    one-Laid width height e,
  )
]
choose-Laid width height e (some low) mid = elim (Bool-cases (leb 960 (max width height))) [
  | inl three ↦ (
    scaled q (min width height) low
        ∷ scaled h (min width height) mid
        ∷ scaled f (min width height) (initial_preset width height e)
        ∷ [],
    ground arith,
    ground arith,
    one-Laid width height e,
  )
  | inr fewer ↦ elim (Bool-cases (leb 480 (max width height))) [
    | inl two ↦ (
      scaled q (min width height) mid
          ∷ scaled h (min width height) (initial_preset width height e)
          ∷ [],
      ground arith,
      ground arith,
      one-Laid width height e,
    )
    | inr one ↦ (
      scaled q (min width height) (initial_preset width height e) ∷ [],
      ground arith,
      ground arith,
      one-Laid width height e,
    )
  ]
]

simulcast-Laid :
    (wide is_screenshare simulcast : Bool) (width height : ℕ) (e : VideoEncoding)
    → leb 3 e.max_framerate ≡ true
    → Laid is_screenshare simulcast
        (max width height)
        (simulcast_encodings wide is_screenshare simulcast width height e)
unfolding into_rtp_encodings compute_default_simulcast_presets
simulcast-Laid wide is_screenshare false width height e move = (
  scaled q (min width height) (initial_preset width height e) ∷ [],
  refl,
  refl,
  one-Laid width height e,
)
simulcast-Laid wide true true width height e move =
    let (p, given) = screenshare-preset width height e move in
    let (es, chosen, laid, full) = choose-Laid width height e none p in
    (es, ground (arith, given, chosen), laid, full)
simulcast-Laid true false true width height e move =
    choose-Laid width height e (some (preset 320 180 160000 15)) (preset 640 360 450000 20)
simulcast-Laid false false true width height e move =
    choose-Laid width height e (some (preset 240 180 100000 15)) (preset 480 360 225000 20)

-- A track wider or higher than the largest preset of its kind makes the code panic.
pub oversize_panics :
    (wide : Bool) (width height : ℕ) (source : TrackSource) (simulcast : Bool)
    → widest wide (is_screen source) < max width height
    → compute_video_encodings wide width height source simulcast ≡ panic
unfolding compute_video_encodings compute_appropriate_encoding
oversize_panics wide width height source simulcast lt = ground (
  arith,
  first_fitting-none (max width height) (compute_presets_for_resolution wide (is_screen source))
      (presets-too_small wide (is_screen source) (max width height) lt),
)

-- Every other track gets its encodings: one without simulcast or below 480 pixels, two from there on,
-- and three from 960 pixels on unless it is a shared screen, by the identifiers q, h and f in this
-- order; the last one has the track's full resolution. Assumed: the larger side is at most the
-- largest preset's width.
pub fitting_track_encodings :
    (wide : Bool) (width height : ℕ) (source : TrackSource) (simulcast : Bool)
    → max width height ≤ widest wide (is_screen source)
    → (es : List Encoding) × (compute_video_encodings wide width height source simulcast ≡ ok es)
      × (rids es ≡ layers (is_screen source) simulcast (max width height))
      × (full_last es ≡ true)
unfolding compute_video_encodings compute_appropriate_encoding
fitting_track_encodings wide width height source simulcast le =
    let s = is_screen source in
    let (e, found, move) =
      first_fitting-some (max width height) (compute_presets_for_resolution wide s)
        (presets-fit wide s (max width height) le) (presets-move wide s) in
    let (es, given, laid, full) = simulcast-Laid wide s simulcast width height e move in
    (es, ground arith, laid, full)
