-- ===== src/Room/Session/Inert.antt =====
-- room/mod.rs: the handlers that leave the participants or the state of the room alone.
use livekit_rust.Base.{
  true, false, map, ◌≡◌, refl, sym, ap, ◌∙◌, Bool, List, [], ◌∷◌, Option, none, some, String, arith,
  eq_iff, Bool-cases, Option-cases, inl, inr, if_elim,
}
use livekit_rust.Base.Dict
use livekit_rust.Base.Dict.{Dict, keys, get-insert, get-remove}
use livekit_rust.Room.Participant
use livekit_rust.Room.Participant.{Participant, ParticipantInfo, ParticipantEvent}
use livekit_rust.Room.Session.{
  handled, tell_speakers, incomparable, audio_level, active_speakers_changed, Session, SpeakerInfo,
  QualityInfo, ConnectionState, state_eq, RoomEvent, participant_disconnected, tell, unpublish_all,
  heard_speaker, update_connection_state, create_participant, handle_participant_disconnect,
  update_present, update_remote, is_local, update_participant, handle_participant_update, change,
  note_speakers, handle_speakers_changed, update_quality, handle_connection_quality_update,
}
use livekit_rust.Room.Session.Presence.{
  believe, meet, has_participant, follow, room_state, Tells, believe-append, believe-tell,
  then-Tells,
}

pub change-has :
    (k sid : String) (f : Participant → Participant) (r u : Session)
    → change sid f r ≡ some u
    → has_participant k u ≡ has_participant k r
unfolding change
change-has k sid f r u h = elim (Option-cases (Dict.get sid r.participants)) [
  | inl missing ↦ ground (arith, missing)
  | inr (p, found) ↦ ground (arith, found, get-insert sid k (f p) r.participants, eq_iff sid k)
]

change-state :
    (sid : String) (f : Participant → Participant) (r u : Session)
    → change sid f r ≡ some u
    → u.state ≡ r.state
unfolding change
change-state sid f r u h = ground (arith, Option-cases (Dict.get sid r.participants))

note_speakers-has :
    (k : String) (infos : List SpeakerInfo) (r : Session)
    → has_participant k (note_speakers infos r).1 ≡ has_participant k r
unfolding note_speakers
note_speakers-has k [] r = refl
note_speakers-has k (s ∷ ss) r = elim (Option-cases (change s.sid (heard_speaker s) r)) [
  | inl nobody ↦ rw (nobody, note_speakers) (note_speakers-has k ss r)
  | inr (u, found) ↦
      rw (found, note_speakers)
        (note_speakers-has k ss u ∙ change-has k s.sid (heard_speaker s) r u found)
]

note_speakers-state :
    (infos : List SpeakerInfo) (r : Session) → (note_speakers infos r).1.state ≡ r.state
unfolding note_speakers
note_speakers-state [] r = refl
note_speakers-state (s ∷ ss) r = elim (Option-cases (change s.sid (heard_speaker s) r)) [
  | inl nobody ↦ rw (nobody, note_speakers) (note_speakers-state ss r)
  | inr (u, found) ↦
      rw (found, note_speakers)
        (note_speakers-state ss u ∙ change-state s.sid (heard_speaker s) r u found)
]

-- The end of the handler tells at most of the speakers, and changes only their list.
tell_speakers-Tells :
    {B : Type 0} (see : RoomEvent → B → B) (view : Session → B) (b : Bool) (sids : List String)
    (r : Session)
    → ((js : List String) (x : B) → see (active_speakers_changed js) x ≡ x)
    → ((js : List String) → view (record r { active_speakers = js }) ≡ view r)
    → let (events, u) = handled (tell_speakers b sids r) in believe see events (view r) ≡ view u
unfolding tell_speakers
tell_speakers-Tells see view true sids r quiet apart = refl
tell_speakers-Tells see view false sids r quiet apart = quiet _ (view r) ∙ sym (apart _)

handle_speakers_changed-Tells :
    {B : Type 0} (see : RoomEvent → B → B) (view : Session → B) (infos : List SpeakerInfo)
    → ((js : List String) (x : B) → see (active_speakers_changed js) x ≡ x)
    → ((js : List String) (r : Session) → view (record r { active_speakers = js }) ≡ view r)
    → ((r : Session) → view (note_speakers infos r).1 ≡ view r)
    → Tells see view (λ r. handled (handle_speakers_changed infos r))
unfolding handle_speakers_changed
handle_speakers_changed-Tells see view infos quiet apart noted r =
    let (sids, u) = note_speakers infos r in
    let b = incomparable (map (audio_level u) sids) in
    ap (believe see (handled (tell_speakers b sids u)).0) (sym (noted r))
    ∙ tell_speakers-Tells see view b sids u quiet (λ js. apart js u)

pub handle_speakers_changed-meet :
    (k : String) (infos : List SpeakerInfo)
    → Tells (meet k) (has_participant k) (λ r. handled (handle_speakers_changed infos r))
handle_speakers_changed-meet k infos =
    handle_speakers_changed-Tells (meet k) (has_participant k) infos (λ js x. refl) (λ js r. refl)
      (note_speakers-has k infos)

pub handle_speakers_changed-follow :
    (infos : List SpeakerInfo)
    → Tells follow room_state (λ r. handled (handle_speakers_changed infos r))
handle_speakers_changed-follow infos =
    handle_speakers_changed-Tells follow room_state infos (λ js x. refl) (λ js r. refl)
      (λ r. ap some (note_speakers-state infos r))

update_quality-meet :
    (k : String) (u : QualityInfo) → Tells (meet k) (has_participant k) (update_quality u)
unfolding update_quality
update_quality-meet k u r =
    elim (Option-cases
      (change u.participant_sid (Participant.set_connection_quality u.quality) r)) [
        | inl nobody ↦ rw (nobody, update_quality) refl
        | inr (v, found) ↦
            rw (found, update_quality)
              (sym (
                change-has k u.participant_sid (Participant.set_connection_quality u.quality) r v
                  found))
      ]

update_quality-follow : (u : QualityInfo) → Tells follow room_state (update_quality u)
unfolding update_quality
update_quality-follow u r =
    elim (Option-cases
      (change u.participant_sid (Participant.set_connection_quality u.quality) r)) [
        | inl nobody ↦ rw (nobody, update_quality) refl
        | inr (v, found) ↦
            rw (found, update_quality)
              (ap some (
                sym (
                  change-state u.participant_sid (Participant.set_connection_quality u.quality) r v
                    found)))
      ]

pub quality-meet :
    (k : String) (us : List QualityInfo)
    → Tells (meet k) (has_participant k) (handle_connection_quality_update us)
unfolding handle_connection_quality_update
quality-meet k [] r = refl
quality-meet k (u ∷ us) r =
    then-Tells (meet k) (has_participant k) (update_quality u) (handle_connection_quality_update us)
      (update_quality-meet k u) (quality-meet k us) r

pub quality-follow :
    (us : List QualityInfo) → Tells follow room_state (handle_connection_quality_update us)
unfolding handle_connection_quality_update
quality-follow [] r = refl
quality-follow (u ∷ us) r =
    then-Tells follow room_state (update_quality u) (handle_connection_quality_update us)
      (update_quality-follow u) (quality-follow us) r

-- An event of a participant, or of anything else than the state, says nothing of the state.
tell-follow :
    (sid : String) (evs : List ParticipantEvent) (s : Option ConnectionState)
    → believe follow (tell sid evs) s ≡ s
tell-follow sid evs s = believe-tell follow (λ _ _ _. refl) sid evs s

pub disconnect-follow :
    (p : Participant) → Tells follow room_state (handle_participant_disconnect p)
unfolding handle_participant_disconnect
disconnect-follow p r =
    let (events, q) = unpublish_all (keys p.tracks) p in
    believe-append follow (tell p.sid events) (participant_disconnected q.sid ∷ []) (room_state r)
    ∙ ap (follow (participant_disconnected q.sid)) (tell-follow p.sid events (room_state r))

update_present-follow :
    (pi : ParticipantInfo) (p : Participant) → Tells follow room_state (update_present pi p)
unfolding update_present
update_present-follow pi p r =
    let (events, q) = Participant.update_info pi p in tell-follow q.sid events (room_state r)

update_remote-follow :
    (pi : ParticipantInfo) (o : Option Participant) → Tells follow room_state (update_remote pi o)
unfolding update_remote create_participant
update_remote-follow pi none r =
    update_present-follow pi (Participant.new pi.sid pi.identity pi.name pi.metadata)
      (create_participant pi r)
update_remote-follow pi (some p) r =
    if_elim (λ (x : List RoomEvent × Session). believe follow x.0 (room_state r) ≡ room_state x.1)
      pi.disconnected (λ _. disconnect-follow p r) (λ _. update_present-follow pi p r)

update_participant-follow : (pi : ParticipantInfo) → Tells follow room_state (update_participant pi)
unfolding update_participant
update_participant-follow pi r =
    if_elim (λ (x : List RoomEvent × Session). believe follow x.0 (room_state r) ≡ room_state x.1)
      (is_local pi r) (λ _. refl) (λ _. update_remote-follow pi _ r)

pub handle_participant_update-follow :
    (pis : List ParticipantInfo) → Tells follow room_state (handle_participant_update pis)
unfolding handle_participant_update
handle_participant_update-follow [] r = refl
handle_participant_update-follow (pi ∷ pis) r =
    then-Tells follow room_state (update_participant pi) (handle_participant_update pis)
      (update_participant-follow pi) (handle_participant_update-follow pis) r

pub update_state-meet :
    (k : String) (s : ConnectionState) (more : List RoomEvent)
    → ((b : Bool) → believe (meet k) more b ≡ b)
    → Tells (meet k) (has_participant k) (update_connection_state s more)
unfolding update_connection_state
update_state-meet k s more inert r =
    if_elim
      (λ (x : List RoomEvent × Session).
        believe (meet k) x.0 (has_participant k r) ≡ has_participant k x.1)
      (state_eq r.state s) (λ _. refl) (λ _. inert (has_participant k r))

pub update_state-follow :
    (s : ConnectionState) (more : List RoomEvent)
    → ((t : Option ConnectionState) → believe follow more t ≡ t)
    → Tells follow room_state (update_connection_state s more)
unfolding update_connection_state
update_state-follow s more inert r = elim (Bool-cases (state_eq r.state s)) [
  | inl there ↦ rw (there, update_connection_state) refl
  | inr away ↦ rw (away, update_connection_state) (rw away (inert (some s)))
]
