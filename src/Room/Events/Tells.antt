-- ===== src/Room/Events/Tells.antt =====
-- room/mod.rs: the events of a run of the room task.
use livekit_rust.Base.Outcome.{Outcome, ok, err, panic, hang}
use livekit_rust.Base.{◌≡◌, refl, sym, ap, subst, ◌∙◌, List, [], ◌∷◌, ◌++◌, some, String, inl, inr}
use livekit_rust.Base.Dict.{Dict}
use livekit_rust.Engine.State
use livekit_rust.Engine.State.{EngineEvent, DisconnectReason}
use livekit_rust.Room.Participant
use livekit_rust.Room.Participant.{Participant, ParticipantInfo}
use livekit_rust.Room.Session.{
  handled, RoomError, Handler, Session, LastInfo, RoomEvent, payloads, ConnectionState,
  disconnected, connected, reconnecting, room_disconnected, room_reconnecting, room_reconnected,
  spawn, republish, sync_state, SpeakerInfo, QualityInfo, handle_speakers_changed,
  handle_connection_quality_update, update_connection_state, handle_participant_disconnect,
  handle_participant_update,
}
use livekit_rust.Room.Session.Presence.{
  believe, meet, has_participant, follow, room_state, Tells, believe-append, then-Tells,
  disconnect-meet, handle_participant_update-meet,
}
use livekit_rust.Room.Session.Inert.{
  handle_speakers_changed-meet, handle_speakers_changed-follow, quality-meet, quality-follow,
  disconnect-follow, handle_participant_update-follow, update_state-meet, update_state-follow,
}
use livekit_rust.Room.Events.{
  go_on, handle_resuming, handle_resumed, disconnect_all, handle_restarting, handle_restarted,
  handle_signal_restarted, handle_disconnected, on_engine_event, room_task,
}
use livekit_rust.Room.Events.Reaction.{
  react, Quiet, meet-Quiet, follow-Quiet, Idle, media_track-Idle, data-Idle,
}

-- What the handlers tell of `view`, if the operations that they are made of do.
module _ {B : Type 0} (see : RoomEvent → B → B) (view : Session → B)
    (quiet : (ev : RoomEvent) → Quiet ev → (b : B) → see ev b ≡ b)
    (update : (pis : List ParticipantInfo) → Tells see view (handle_participant_update pis))
    (disconnect : (p : Participant) → Tells see view (handle_participant_disconnect p))
    (to_state : (s : ConnectionState) (more : List RoomEvent)
      → ((b : B) → believe see more b ≡ b)
      → Tells see view (update_connection_state s more))
    (put_local : (p : Participant) (r : Session) → view (record r { local = p }) ≡ view r)
    (speakers : (ss : List SpeakerInfo)
      → Tells see view (λ r. handled (handle_speakers_changed ss r)))
    (qualities : (us : List QualityInfo)
      → Tells see view (handle_connection_quality_update us)) where
  Idle-Tells :
      (x : List RoomEvent × Session) (r : Session) → Idle x r → believe see x.0 (view r) ≡ view x.1
  Idle-Tells x r (inl e) = subst (λ y. believe see y.0 (view r) ≡ view y.1) (sym e) refl
  Idle-Tells x r (inr (ev, q, e)) =
      subst (λ y. believe see y.0 (view r) ≡ view y.1) (sym e) (quiet ev q (view r))

  disconnect_all-Tells : (m : Dict Participant) → Tells see view (disconnect_all m)
  unfolding disconnect_all
  disconnect_all-Tells [] r = refl
  disconnect_all-Tells ((k, p) ∷ m) r =
      then-Tells see view (handle_participant_disconnect p) (disconnect_all m) (disconnect p)
        (disconnect_all-Tells m) r

  -- A handler, and then one quiet event.
  ending :
      (ev : RoomEvent) (events : List RoomEvent) (b c : B)
      → Quiet ev
      → believe see events b ≡ c
      → believe see (events ++ ev ∷ []) b ≡ c
  ending ev events b c q h = believe-append see events (ev ∷ []) b ∙ quiet ev q _ ∙ h

  react-Tells : (info : LastInfo) (ev : EngineEvent payloads) → Tells see view (react info ev)
  unfolding on_engine_event handle_resuming handle_resumed handle_restarting handle_restarted
      handle_signal_restarted handle_disconnected
  react-Tells info (State.participant_update us) r = update us r
  react-Tells info (State.media_track t) r = Idle-Tells _ r (media_track-Idle info t r)
  react-Tells info State.resuming r = to_state reconnecting _ (quiet room_reconnecting tt) r
  react-Tells info State.resumed r =
      ending room_reconnected (update_connection_state connected [] r).0 (view r) _ tt
        (to_state connected [] (λ b. refl) r)
  react-Tells info State.signal_resumed r = quiet (spawn sync_state) tt (view r)
  react-Tells info State.restarting r =
      then-Tells see view (disconnect_all r.participants)
        (update_connection_state reconnecting (room_reconnecting ∷ []))
        (disconnect_all-Tells r.participants) (to_state reconnecting _ (quiet room_reconnecting tt))
        r
  react-Tells info State.restarted r =
      ending room_reconnected (update_connection_state connected [] r).0 (view r) _ tt
        (to_state connected [] (λ b. refl) r)
  react-Tells info State.signal_restarted r =
      let r0 = record r { local = Participant.put_info info.participant r.local } in
      let events = (handle_participant_update info.other_participants r0).0 in
      ending (spawn republish) events (view r) _ tt (
        ap (believe see events) (sym (put_local (Participant.put_info info.participant r.local) r))
        ∙ update info.other_participants r0)
  react-Tells info (State.disconnected reason) r =
      to_state disconnected _ (quiet (room_disconnected reason) tt) r
  react-Tells info (State.received d) r = Idle-Tells _ r (data-Idle d r)
  react-Tells info (State.speakers_changed ss) r = speakers ss r
  react-Tells info (State.connection_quality us) r = qualities us r

  go_on-Tells :
      (x : Outcome RoomError (List RoomEvent) × Session) (rest : Handler) (b : B)
      → believe see (handled x).0 b ≡ view (handled x).1
      → Tells see view rest
      → believe see (go_on x rest).0 b ≡ view (go_on x rest).1
  go_on-Tells (ok events, r) rest b h t =
      believe-append see events (rest r).0 b ∙ ap (believe see (rest r).0) h ∙ t r
  go_on-Tells (err e, r) rest b h t = ap (believe see (rest r).0) h ∙ t r
  go_on-Tells (panic, r) rest b h t = h
  go_on-Tells (hang, r) rest b h t = h

  room_task-Tells : (evs : List (LastInfo × EngineEvent payloads)) → Tells see view (room_task evs)
  unfolding room_task
  room_task-Tells [] r = refl
  room_task-Tells ((info, ev) ∷ evs) r =
      go_on-Tells (on_engine_event info ev r) (room_task evs) (view r) (react-Tells info ev r)
        (room_task-Tells evs)

-- The room tells of everybody who comes and goes: whoever knows whether a participant is in the
-- room, and then hears the connected and disconnected events of any run of the room task, knows
-- whether it is in the room after that run.
pub room_task-presence :
    (k : String) (evs : List (LastInfo × EngineEvent payloads)) (r : Session)
    → believe (meet k) (room_task evs r).0 (has_participant k r)
      ≡ has_participant k (room_task evs r).1
room_task-presence k =
    room_task-Tells (meet k) (has_participant k) (meet-Quiet k) (handle_participant_update-meet k)
      (disconnect-meet k) (update_state-meet k) (λ p r. refl) (handle_speakers_changed-meet k)
      (quality-meet k)

-- The state changes that a run of the room task reports are real changes, each from the state that
-- the one before it led to, and the last one leads to the state that the room is left in.
pub room_task-state :
    (evs : List (LastInfo × EngineEvent payloads)) (r : Session)
    → believe follow (room_task evs r).0 (some r.state) ≡ some (room_task evs r).1.state
room_task-state =
    room_task-Tells follow room_state follow-Quiet handle_participant_update-follow
      disconnect-follow update_state-follow (λ p r. refl) handle_speakers_changed-follow
      quality-follow
