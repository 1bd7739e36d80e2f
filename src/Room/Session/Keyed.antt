-- ===== src/Room/Session/Keyed.antt =====
-- room/mod.rs: where the participants of a room stand.
use livekit_rust.Base.{
  Bool, map, ◌≡◌, refl, subst, ◌∙◌, true, false, List, [], ◌∷◌, Option, none, some, String, arith,
  ◌==◌, eq_iff, Bool-cases, Option-cases, inl, inr, if_elim,
}
use livekit_rust.Base.Dict
use livekit_rust.Base.Dict.{Dict, keys, get-insert, get-remove}
use livekit_rust.Room.Participant
use livekit_rust.Room.Participant.{Participant, ParticipantInfo, ParticipantEvent}
use livekit_rust.Room.Participant.Keyed.{WellKeyed, new-WellKeyed, update_info-WellKeyed}
use livekit_rust.Room.Participant.Sids.{update_info-sid}
use livekit_rust.Room.Session.{
  handled, tell_speakers, incomparable, audio_level, Session, Handler, SpeakerInfo, QualityInfo,
  RoomEvent, ◌then_do◌, unpublish_all, heard_speaker, update_connection_state, create_participant,
  handle_participant_disconnect, update_present, update_remote, update_participant,
  handle_participant_update, change, note_speakers, handle_speakers_changed, update_quality,
  handle_connection_quality_update, ConnectionState, state_eq, is_local,
}

abbrev pub RoomKeyed : Session → Type 0
RoomKeyed r =
    (k : String) (p : Participant) → Dict.get k r.participants ≡ some p → (p.sid ≡ k) × WellKeyed p

-- A handler keeps the room keyed.
abbrev pub Keeps : Handler → Type 0
Keeps h = (r : Session) → RoomKeyed r → RoomKeyed (h r).1

pub then-Keeps : (f g : Handler) → Keeps f → Keeps g → Keeps (f then_do g)
then-Keeps f g kf kg r w = kg (f r).1 (kf r w)

pub insert-RoomKeyed :
    (sid : String) (q : Participant) (r : Session)
    → RoomKeyed r
    → q.sid ≡ sid
    → WellKeyed q
    → RoomKeyed (record r { participants = Dict.insert sid q r.participants })
insert-RoomKeyed sid q r w own tracks k p h = elim (Bool-cases (sid == k)) [
  | inl here ↦
      let e : q ≡ p = ground (arith, get-insert sid k q r.participants, here) in
      (subst (λ x. x.sid ≡ k) e (own ∙ (eq_iff sid k).0 here), subst WellKeyed e tracks)
  | inr away ↦ w k p (ground (arith, get-insert sid k q r.participants, away))
]

pub update_state-Keeps :
    (s : ConnectionState) (more : List RoomEvent) → Keeps (update_connection_state s more)
unfolding update_connection_state
update_state-Keeps s more r w =
    if_elim (λ (x : List RoomEvent × Session). RoomKeyed x.1) (state_eq r.state s) (λ _. w) (λ _. w)

remove-RoomKeyed :
    (sid : String) (r : Session)
    → RoomKeyed r
    → RoomKeyed (record r { participants = Dict.remove sid r.participants })
remove-RoomKeyed sid r w k q h = w k q (ground (arith, get-remove sid k r.participants))

pub disconnect-Keeps : (p : Participant) → Keeps (handle_participant_disconnect p)
unfolding handle_participant_disconnect
disconnect-Keeps p r w = remove-RoomKeyed (unpublish_all (keys p.tracks) p).1.sid r w

pub update_present-Keeps :
    (pi : ParticipantInfo) (p : Participant) → WellKeyed p → Keeps (update_present pi p)
unfolding update_present
update_present-Keeps pi p wp r w =
    insert-RoomKeyed pi.sid (Participant.update_info pi p).1 r w (update_info-sid pi p)
      (update_info-WellKeyed pi p wp)

pub create-RoomKeyed :
    (pi : ParticipantInfo) (r : Session) → RoomKeyed r → RoomKeyed (create_participant pi r)
unfolding create_participant Participant.new
create-RoomKeyed pi r w =
    insert-RoomKeyed pi.sid _ r w refl (new-WellKeyed pi.sid pi.identity pi.name pi.metadata)

update_remote-Keeps :
    (pi : ParticipantInfo) (o : Option Participant) (r : Session)
    → ((p : Participant) → o ≡ some p → WellKeyed p)
    → RoomKeyed r
    → RoomKeyed (update_remote pi o r).1
unfolding update_remote
update_remote-Keeps pi none r wp w =
    update_present-Keeps pi _ (new-WellKeyed pi.sid pi.identity pi.name pi.metadata)
      (create_participant pi r) (create-RoomKeyed pi r w)
update_remote-Keeps pi (some p) r wp w =
    if_elim (λ (x : List RoomEvent × Session). RoomKeyed x.1) pi.disconnected
      (λ _. disconnect-Keeps p r w) (λ _. update_present-Keeps pi p (wp p refl) r w)

update_participant-Keeps : (pi : ParticipantInfo) → Keeps (update_participant pi)
unfolding update_participant
update_participant-Keeps pi r w =
    if_elim (λ (x : List RoomEvent × Session). RoomKeyed x.1) (is_local pi r) (λ _. w)
      (λ _. update_remote-Keeps pi _ r (λ p h. (w pi.sid p h).1) w)

pub handle_participant_update-Keeps :
    (pis : List ParticipantInfo) → Keeps (handle_participant_update pis)
unfolding handle_participant_update
handle_participant_update-Keeps [] r w = w
handle_participant_update-Keeps (pi ∷ pis) r w =
    handle_participant_update-Keeps pis _ (update_participant-Keeps pi r w)

change-RoomKeyed :
    (sid : String) (f : Participant → Participant) (r u : Session)
    → ((p : Participant) → (f p).sid ≡ p.sid)
    → ((p : Participant) → WellKeyed p → WellKeyed (f p))
    → change sid f r ≡ some u
    → RoomKeyed r
    → RoomKeyed u
unfolding change
change-RoomKeyed sid f r u own tracks h w = elim (Bool-cases (sid == r.local.sid)) [
  | inl local ↦ subst RoomKeyed (at_local local) w
  | inr remote ↦ elim (Option-cases (Dict.get sid r.participants)) [
    | inl missing ↦ absurd (nobody remote missing)
    | inr (p, found) ↦
        subst RoomKeyed (at_remote remote p found)
          (insert-RoomKeyed sid (f p) r w (own p ∙ (w sid p found).0) (tracks p (w sid p found).1))
  ]
]
  where
    at_local : sid == r.local.sid ≡ true → record r { local = f r.local } ≡ u
    at_local local = ground arith

    nobody : sid == r.local.sid ≡ false → Dict.get sid r.participants ≡ none → ⊥
    nobody remote missing = ground arith

    at_remote :
        sid == r.local.sid ≡ false
        → (p : Participant) → Dict.get sid r.participants ≡ some p
        → record r { participants = Dict.insert sid (f p) r.participants } ≡ u
    at_remote remote p found = ground arith

note_speakers-RoomKeyed :
    (infos : List SpeakerInfo) (r : Session) → RoomKeyed r → RoomKeyed (note_speakers infos r).1
unfolding note_speakers
note_speakers-RoomKeyed [] r w = w
note_speakers-RoomKeyed (s ∷ ss) r w = elim (Option-cases (change s.sid (heard_speaker s) r)) [
  | inl none' ↦ rw (none', note_speakers) (note_speakers-RoomKeyed ss r w)
  | inr (u, some') ↦
      rw (some', note_speakers)
        (note_speakers-RoomKeyed ss u (
          change-RoomKeyed s.sid (heard_speaker s) r u
            (λ p. unfold Participant.set_audio_level Participant.set_speaking in refl)
            (λ p k. unfold Participant.set_audio_level Participant.set_speaking in k) some' w))
]

tell_speakers-RoomKeyed :
    (b : Bool) (sids : List String) (r : Session)
    → RoomKeyed r
    → RoomKeyed (handled (tell_speakers b sids r)).1
unfolding tell_speakers
tell_speakers-RoomKeyed true sids r w = w
tell_speakers-RoomKeyed false sids r w = w

pub handle_speakers-Keeps :
    (infos : List SpeakerInfo) → Keeps (λ r. handled (handle_speakers_changed infos r))
unfolding handle_speakers_changed
handle_speakers-Keeps infos r w =
    let (sids, u) = note_speakers infos r in
    tell_speakers-RoomKeyed (incomparable (map (audio_level u) sids)) sids u
      (note_speakers-RoomKeyed infos r w)

update_quality-Keeps : (u : QualityInfo) → Keeps (update_quality u)
unfolding update_quality
update_quality-Keeps u r w =
    elim (Option-cases
      (change u.participant_sid (Participant.set_connection_quality u.quality) r)) [
        | inl none' ↦ rw (none', update_quality) w
        | inr (v, some') ↦
            rw (some', update_quality)
              (change-RoomKeyed u.participant_sid (Participant.set_connection_quality u.quality) r v
                (λ p. unfold Participant.set_connection_quality in refl)
                (λ p k. unfold Participant.set_connection_quality in k) some' w)
      ]

pub handle_quality-Keeps : (us : List QualityInfo) → Keeps (handle_connection_quality_update us)
unfolding handle_connection_quality_update
handle_quality-Keeps [] r w = w
handle_quality-Keeps (u ∷ us) r w = handle_quality-Keeps us _ (update_quality-Keeps u r w)
