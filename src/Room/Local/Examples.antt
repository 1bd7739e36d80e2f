-- ===== src/Room/Local/Examples.antt =====
-- livekit/src/room/participant/local_participant.rs: an engine that counts its calls, and refuses
-- to remove the sender 0.
use livekit_rust.Base.{ℕ, zero, suc, ◌≡◌, refl, true, [], ◌∷◌, some, none, String}
use livekit_rust.Base.Dict.{get, insert, remove}
use livekit_rust.Base.Outcome.{ok, err, Call}
use livekit_rust.Room.Local.{
  LocalTrack, LocalEngine, LocalPublication, LocalParticipant, publish_track, unpublish_track,
  remove_sender, republish, republish_track, published_tracks_info, local_track_published,
  local_track_unpublished,
}
use livekit_rust.Room.Local.Errors.{failed_unpublish_forgets, failed_publish_changes_nothing}

abbrev removal : ℕ → Call ℕ String (Unit {0})
removal zero s = (err "closed", s)
removal (suc n) s = (ok tt, suc s)

abbrev addition : LocalTrack → Unit {0} → Call ℕ String String
addition t o zero = (err "timeout", zero)
addition t o (suc s) = (ok "TR_new", suc (suc s))

abbrev counting : LocalEngine
counting = record {
  State = ℕ;
  Error = String;
  Options = Unit {0};
  track_not_found = "track not found";
  add_track = addition;
  create_sender = λ t o s. (ok s, suc s);
  remove_track = removal;
  publisher_negotiation_needed = suc;
}

abbrev microphone : ℕ → LocalTrack
microphone sender = record { cid = "c1"; sid = "TR_old"; transceiver = some sender; enabled = true }

abbrev published : ℕ → LocalPublication counting
published sender = record { sid = "TR_old"; track = some (microphone sender); publish_options = tt }

abbrev with_microphone : ℕ → ℕ → LocalParticipant counting
with_microphone sender s = record {
  rtc_engine = s;
  tracks = ("TR_old", published sender) ∷ [];
  events = [];
}

failed_unpublish_forgets_example :
    let (r, u) = unpublish_track counting "TR_old" (with_microphone 0 1) in
    (r ≡ err "closed")
    × (u.events ≡ [])
    × (u.rtc_engine ≡ 1)
    × (get "TR_old" u.tracks ≡ none)
    × (unpublish_track counting "TR_old" u ≡ (err "track not found", u))
unfolding get
failed_unpublish_forgets_example =
    failed_unpublish_forgets counting "TR_old" (with_microphone 0 1) (published 0) (microphone 0) 0
      "closed" 1 refl refl refl refl

refused_publication :
    (publish_track counting (microphone 3) tt (with_microphone 3 0)).0 ≡ err "timeout"
unfolding publish_track
refused_publication = refl

failed_publish_changes_nothing_example :
    let (r, u) = publish_track counting (microphone 3) tt (with_microphone 3 0) in
    (u.tracks ≡ ("TR_old", published 3) ∷ []) × (u.events ≡ [])
failed_publish_changes_nothing_example =
    failed_publish_changes_nothing counting (microphone 3) tt (with_microphone 3 0) "timeout"
      refused_publication

-- A republication takes the old publication away and announces the new one.
republished_run :
    let p = with_microphone 3 1 in
    let (finished, u) = republish counting p.tracks p in
    (finished ≡ true)
    × (u.events ≡ local_track_unpublished "TR_old" ∷ local_track_published "TR_new" ∷ [])
    × (published_tracks_info counting u.tracks ≡ ("c1", "TR_new") ∷ [])
unfolding republish republish_track unpublish_track publish_track remove_sender
    published_tracks_info get insert remove
republished_run = (refl, refl, refl)
