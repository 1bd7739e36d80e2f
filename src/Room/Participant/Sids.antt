-- ===== src/Room/Participant/Sids.antt =====
-- remote_participant.rs: what the operations leave of a participant's own identifier.
use livekit_rust.Base.{◌≡◌, refl, ◌∙◌, List, [], ◌∷◌, String, arith, Option-cases, if_elim}
use livekit_rust.Base.Dict
use livekit_rust.Room.Publication.{TrackInfo}
use livekit_rust.Room.Participant.{
  Participant, ParticipantInfo, ParticipantEvent, put_info, unpublish_track, update_track,
  update_tracks, is_valid, unpublish_stale, update_info,
}

update_track-sid : (t : TrackInfo) (p : Participant) → (update_track t p).1.sid ≡ p.sid
unfolding update_track
update_track-sid t p = ground (arith, Option-cases (Dict.get t.sid p.tracks))

update_tracks-sid : (ts : List TrackInfo) (p : Participant) → (update_tracks ts p).1.sid ≡ p.sid
unfolding update_tracks
update_tracks-sid [] p = refl
update_tracks-sid (t ∷ ts) p = update_tracks-sid ts (update_track t p).1 ∙ update_track-sid t p

pub unpublish_track-sid : (sid : String) (p : Participant) → (unpublish_track sid p).1.sid ≡ p.sid
unfolding unpublish_track
unpublish_track-sid sid p = ground (arith, Option-cases (Dict.get sid p.tracks))

unpublish_stale-sid :
    (valid : List TrackInfo) (sids : List String) (p : Participant)
    → (unpublish_stale valid sids p).1.sid ≡ p.sid
unfolding unpublish_stale
unpublish_stale-sid valid [] p = refl
unpublish_stale-sid valid (sid ∷ sids) p =
    unpublish_stale-sid valid sids _
    ∙ if_elim (λ (x : List ParticipantEvent × Participant). x.1.sid ≡ p.sid) (is_valid sid valid)
        (λ _. refl) (λ _. unpublish_track-sid sid p)

-- After an update the participant's identifier is that of the update.
pub update_info-sid :
    (info : ParticipantInfo) (p : Participant) → (update_info info p).1.sid ≡ info.sid
unfolding update_info put_info
update_info-sid info p =
    unpublish_stale-sid info.tracks _ (update_tracks info.tracks (put_info info p)).1
    ∙ update_tracks-sid info.tracks (put_info info p)
