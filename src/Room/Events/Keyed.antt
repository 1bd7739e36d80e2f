-- ===== src/Room/Events/Keyed.antt =====
-- room/mod.rs: what the engine's events keep of the room's two maps.
use livekit_rust.Base.Outcome.{Outcome, ok, err, panic, hang}
use livekit_rust.Base.{sym, subst, Bool, List, [], ◌∷◌, arith, inl, inr}
use livekit_rust.Base.Dict
use livekit_rust.Base.Dict.{Dict}
use livekit_rust.Engine.State
use livekit_rust.Engine.State.{EngineEvent, DisconnectReason}
use livekit_rust.Room.Participant
use livekit_rust.Room.Participant.{Participant, ParticipantInfo}
use livekit_rust.Room.Session.{
  handled, RoomError, Handler, Session, LastInfo, RoomEvent, payloads, disconnected, connected,
  reconnecting, create_participant,
}
use livekit_rust.Room.Session.Keyed.{
  RoomKeyed, Keeps, update_state-Keeps, disconnect-Keeps, update_present-Keeps, create-RoomKeyed,
  handle_participant_update-Keeps, handle_speakers-Keeps, handle_quality-Keeps,
}
use livekit_rust.Room.Participant.Keyed.{new-WellKeyed}
use livekit_rust.Room.Events.{
  go_on, handle_resuming, handle_resumed, disconnect_all, handle_restarting, handle_restarted,
  handle_signal_restarted, handle_disconnected, on_engine_event, room_task, join_others, connect,
}
use livekit_rust.Room.Events.Reaction.{react, Idle, media_track-Idle, data-Idle}

Idle-Keeps : (x : List RoomEvent × Session) (r : Session) → Idle x r → RoomKeyed r → RoomKeyed x.1
Idle-Keeps x r (inl e) w = subst (λ y. RoomKeyed y.1) (sym e) w
Idle-Keeps x r (inr (ev, q, e)) w = subst (λ y. RoomKeyed y.1) (sym e) w

disconnect_all-Keeps : (m : Dict Participant) → Keeps (disconnect_all m)
unfolding disconnect_all
disconnect_all-Keeps [] r w = w
disconnect_all-Keeps ((k, p) ∷ m) r w = disconnect_all-Keeps m _ (disconnect-Keeps p r w)

react-Keeps : (info : LastInfo) (ev : EngineEvent payloads) → Keeps (react info ev)
unfolding on_engine_event handle_resuming handle_resumed handle_restarting handle_restarted
    handle_signal_restarted handle_disconnected
react-Keeps info (State.participant_update us) r w = handle_participant_update-Keeps us r w
react-Keeps info (State.media_track t) r w = Idle-Keeps _ r (media_track-Idle info t r) w
react-Keeps info State.resuming r w = update_state-Keeps reconnecting _ r w
react-Keeps info State.resumed r w = update_state-Keeps connected _ r w
react-Keeps info State.signal_resumed r w = w
react-Keeps info State.restarting r w =
    update_state-Keeps reconnecting _ _ (disconnect_all-Keeps r.participants r w)
react-Keeps info State.restarted r w = update_state-Keeps connected _ r w
react-Keeps info State.signal_restarted r w =
    handle_participant_update-Keeps info.other_participants
      (record r { local = Participant.put_info info.participant r.local }) w
react-Keeps info (State.disconnected reason) r w = update_state-Keeps disconnected _ r w
react-Keeps info (State.received d) r w = Idle-Keeps _ r (data-Idle d r) w
react-Keeps info (State.speakers_changed ss) r w = handle_speakers-Keeps ss r w
react-Keeps info (State.connection_quality us) r w = handle_quality-Keeps us r w

join_others-RoomKeyed :
    (pis : List ParticipantInfo) (r : Session) → RoomKeyed r → RoomKeyed (join_others pis r)
unfolding join_others
join_others-RoomKeyed [] r w = w
join_others-RoomKeyed (pi ∷ pis) r w = join_others-RoomKeyed pis _ (
    update_present-Keeps pi _ (new-WellKeyed pi.sid pi.identity pi.name pi.metadata)
      (create_participant pi r) (create-RoomKeyed pi r w))

pub connect-RoomKeyed : (auto : Bool) (info : LastInfo) → RoomKeyed (connect auto info).1
unfolding connect Dict.get
connect-RoomKeyed auto info =
    update_state-Keeps connected [] _
      (join_others-RoomKeyed info.other_participants _ (λ k p h. ground (arith, h)))

go_on-RoomKeyed :
    (x : Outcome RoomError (List RoomEvent) × Session) (rest : Handler)
    → RoomKeyed (handled x).1
    → Keeps rest
    → RoomKeyed (go_on x rest).1
go_on-RoomKeyed (ok events, r) rest w k = k r w
go_on-RoomKeyed (err e, r) rest w k = k r w
go_on-RoomKeyed (panic, r) rest w k = w
go_on-RoomKeyed (hang, r) rest w k = w

room_task-Keeps : (evs : List (LastInfo × EngineEvent payloads)) → Keeps (room_task evs)
unfolding room_task
room_task-Keeps [] r w = w
room_task-Keeps ((info, ev) ∷ evs) r w =
    go_on-RoomKeyed (on_engine_event info ev r) (room_task evs) (react-Keeps info ev r w)
      (room_task-Keeps evs)

-- Whatever the engine reports to a room that has connected, every participant of the room stands
-- under its own identifier, and so does every publication of every participant, with its handlers
-- installed.
pub room-RoomKeyed :
    (auto : Bool) (info : LastInfo) (evs : List (LastInfo × EngineEvent payloads))
    → RoomKeyed (room_task evs (connect auto info).1).1
room-RoomKeyed auto info evs = room_task-Keeps evs _ (connect-RoomKeyed auto info)
