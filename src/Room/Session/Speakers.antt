-- ===== src/Room/Session/Speakers.antt =====
-- room/mod.rs: the active speakers.
use livekit_rust.Base.Outcome.{ok, panic}
use livekit_rust.Base.{
  map, ℕ, ◌≡◌, refl, ap, ◌∙◌, Bool, true, false, ◌&&◌, ◌||◌, List, [], ◌∷◌, none, some, String,
  arith, leb, ◌==◌, eq_iff, Option-cases, inl, inr,
}
use livekit_rust.Base.Dict
use livekit_rust.Base.Dict.{get-insert}
use livekit_rust.Room.Participant.{AudioLevel, set_audio_level, set_speaking}
use livekit_rust.Room.Session.{
  tell_speakers, incomparable, place, Session, SpeakerInfo, active_speakers_changed,
  get_participant, change, heard_speaker, note_speakers, audio_level, insert_by, sort_by,
  handle_speakers_changed,
}
use livekit_rust.Room.Session.Presence.{has_participant}
use livekit_rust.Room.Session.Inert.{change-has}

abbrev pub listed : String → List String → Bool
listed k [] = false
listed k (j ∷ js) = j == k || listed k js

abbrev at_most : ℕ → (String → ℕ) → List String → Bool
at_most n level [] = true
at_most n level (x ∷ xs) = leb n (level x) && at_most n level xs

-- Ascending by `level`.
abbrev pub ascending : (String → ℕ) → List String → Bool
ascending level [] = true
ascending level (x ∷ xs) = at_most (level x) level xs && ascending level xs

-- Whether somebody with the identifier is reported as active.
abbrev pub reported : String → List SpeakerInfo → Bool
reported k [] = false
reported k (s ∷ ss) = (s.active && s.sid == k) || reported k ss

-- Whether somebody with the identifier is in the room, the local participant included.
abbrev pub is_here : String → Session → Bool
is_here k r = r.local.sid == k || has_participant k r

at_most-insert_by :
    (n : ℕ) (level : String → ℕ) (x : String) (xs : List String)
    → at_most n level (insert_by level x xs) ≡ (leb n (level x) && at_most n level xs)
unfolding insert_by
at_most-insert_by n level x [] = refl
at_most-insert_by n level x (y ∷ ys) = ground (arith, at_most-insert_by n level x ys)

at_most-le :
    (m n : ℕ) (level : String → ℕ) (xs : List String)
    → leb m n ≡ true
    → at_most n level xs ≡ true
    → at_most m level xs ≡ true
at_most-le m n level [] h k = refl
at_most-le m n level (x ∷ xs) h k = ground (arith, at_most-le m n level xs h)

insert_by-ascending :
    (level : String → ℕ) (x : String) (xs : List String)
    → ascending level xs ≡ true
    → ascending level (insert_by level x xs) ≡ true
unfolding insert_by
insert_by-ascending level x [] h = refl
insert_by-ascending level x (y ∷ ys) h = ground (
  arith,
  insert_by-ascending level x ys,
  at_most-insert_by (level y) level x ys,
  at_most-le (level x) (level y) level ys,
)

sort_by-ascending :
    (level : String → ℕ) (xs : List String) → ascending level (sort_by level xs) ≡ true
unfolding sort_by
sort_by-ascending level [] = refl
sort_by-ascending level (x ∷ xs) = insert_by-ascending level x _ (sort_by-ascending level xs)

listed-insert_by :
    (k : String) (level : String → ℕ) (x : String) (xs : List String)
    → listed k (insert_by level x xs) ≡ (x == k || listed k xs)
unfolding insert_by
listed-insert_by k level x [] = refl
listed-insert_by k level x (y ∷ ys) = ground (arith, listed-insert_by k level x ys)

listed-sort_by :
    (k : String) (level : String → ℕ) (xs : List String) → listed k (sort_by level xs) ≡ listed k xs
unfolding sort_by
listed-sort_by k level [] = refl
listed-sort_by k level (x ∷ xs) =
    listed-insert_by k level x (sort_by level xs)
    ∙ ap (λ b. x == k || b) (listed-sort_by k level xs)

change-nobody :
    (s : SpeakerInfo) (r : Session)
    → change s.sid (heard_speaker s) r ≡ none
    → is_here s.sid r ≡ false
unfolding change get_participant
change-nobody s r h = ground (
  arith,
  eq_iff s.sid r.local.sid,
  eq_iff r.local.sid s.sid,
  Option-cases (Dict.get s.sid r.participants),
)

change-here :
    (k : String) (s : SpeakerInfo) (r u : Session)
    → change s.sid (heard_speaker s) r ≡ some u
    → (is_here k u ≡ is_here k r) × (is_here s.sid r ≡ true)
unfolding change get_participant set_audio_level set_speaking
change-here k s r u h = (
  ground (
    arith,
    change-has k s.sid (heard_speaker s) r u h,
    Option-cases (Dict.get s.sid r.participants),
  ),
  ground (
    arith,
    eq_iff s.sid r.local.sid,
    eq_iff r.local.sid s.sid,
    Option-cases (Dict.get s.sid r.participants),
  ),
)

note_speakers-listed :
    (k : String) (infos : List SpeakerInfo) (r : Session)
    → listed k (note_speakers infos r).0 ≡ (reported k infos && is_here k r)
unfolding note_speakers
note_speakers-listed k [] r = refl
note_speakers-listed k (s ∷ ss) r = elim (Option-cases (change s.sid (heard_speaker s) r)) [
  | inl nobody ↦
      rw (nobody, note_speakers)
        (note_speakers-listed k ss r ∙ ground (arith, eq_iff s.sid k, change-nobody s r nobody))
  | inr (u, found) ↦
      rw (found, note_speakers)
        (ground (arith, eq_iff s.sid k, change-here k s r u found, note_speakers-listed k ss u))
]

-- The levels of the active speakers, as the report leaves them, in the order of the report.
abbrev pub speaker_levels : List SpeakerInfo → Session → List AudioLevel
speaker_levels infos r = let (speakers, r1) = note_speakers infos r in map (audio_level r1) speakers

-- The room's active speakers, after the server has reported who speaks, are exactly those reported
-- as active who are in the room, the local participant included. They are in ascending order of
-- the audio levels that the report leaves, and the room tells of that list and of nothing else.
-- Assumed: no level is NaN among those of two or more active speakers.
pub speakers_lem :
    (infos : List SpeakerInfo) (r : Session)
    → incomparable (speaker_levels infos r) ≡ false
    → let (told, r1) = handle_speakers_changed infos r in
      (told ≡ ok (active_speakers_changed r1.active_speakers ∷ []))
      × (ascending (λ sid. place (audio_level r1 sid)) r1.active_speakers ≡ true)
      × ((k : String) → listed k r1.active_speakers ≡ (reported k infos && is_here k r))
unfolding handle_speakers_changed tell_speakers audio_level
speakers_lem infos r comparable =
    let (speakers, r1) = note_speakers infos r in
    rw (handle_speakers_changed, comparable, tell_speakers)
      (
        refl,
        sort_by-ascending (λ sid. place (audio_level r1 sid)) speakers,
        (λ k.
            listed-sort_by k (λ sid. place (audio_level r1 sid)) speakers
            ∙ note_speakers-listed k infos r),
      )

-- A NaN among the levels of two or more active speakers panics in the sort: the speakers' own flags
-- and levels are set, and the room's list of active speakers stays what it was.
pub nan_panics :
    (infos : List SpeakerInfo) (r : Session)
    → incomparable (speaker_levels infos r) ≡ true
    → handle_speakers_changed infos r ≡ (panic, (note_speakers infos r).1)
unfolding handle_speakers_changed tell_speakers
nan_panics infos r h = rw (handle_speakers_changed, h, tell_speakers) refl
