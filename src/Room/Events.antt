-- ===== src/Room/Events.antt =====
-- livekit/src/room/mod.rs: the engine's events as the room handles them, the state that is sent to
-- the server after a resumption, and how a room begins.
mod StreamId
mod Sync
mod Reaction
mod Keyed
mod Tells
mod Restart
mod Rejoin
mod Examples
use Prim.Native.String
use Prim.Native.Char.{Char, code}
use livekit_rust.Base.{
  ℕ, ◌≡◌, Bool, true, false, not, List, [], ◌∷◌, ◌++◌, map, Option, none, some, String,
  if◌then◌else◌, nat_eq,
}
use livekit_rust.Base.Dict.{Dict, keys}
use livekit_rust.Base.Outcome.{Outcome, ok, err, panic, hang, Call}
use livekit_rust.Engine.State
use livekit_rust.Engine.State.{EngineEvent, DisconnectReason}
use livekit_rust.Room.Publication.{Publication, is_desired}
use livekit_rust.Room.Participant
use livekit_rust.Room.Participant.{Participant, ParticipantInfo}
use livekit_rust.Room.Session.{
  handled, Session, Handler, nothing, ◌then_do◌, LastInfo, MediaTrack, Packet, RoomEvent, RoomError,
  internal, payloads, ConnectionState, disconnected, connected, reconnecting,
  connection_state_changed, data_received, room_connected, room_disconnected, room_reconnecting,
  room_reconnected, spawn, sync_state, republish, add_media_track, get_participant,
  update_connection_state, create_participant, handle_participant_disconnect, update_present,
  handle_participant_update, handle_speakers_changed, handle_connection_quality_update,
}

-- `split('|')`
abbrev grow : Char → List String → List String
grow c [] = []
grow c (w ∷ ws) = String.◌∷◌ c w ∷ ws

unfoldable pub split_bar : String → List String
split_bar String.[] = "" ∷ []
split_bar (String.◌∷◌ c s) =
    let rest = split_bar s in if nat_eq (code c) b'|' then "" ∷ rest else grow c rest

abbrev pair : List String → Option (String × String)
pair (a ∷ b ∷ []) = some (a, b)
pair _ = none

unfoldable pub unpack_stream_id : String → Option (String × String)
unfolding split_bar
unpack_stream_id id = pair (split_bar id)

unfoldable pub handle_media_track : MediaTrack → Call Session RoomError (List RoomEvent)
unfolding get_participant unpack_stream_id
handle_media_track t r = elim (unpack_stream_id t.stream_id) [
  | none ↦ (err (internal "MediaTrack event with invalid track_id"), r)
  | some (psid, tsid) ↦ elim (get_participant psid r) [
    | none ↦ (err (internal "AddTrack event with invalid participant_sid"), r)
    | some p ↦ (ok (spawn (add_media_track psid tsid t.kind t.media) ∷ []), r)
  ]
]

unfoldable pub handle_resuming : Handler
handle_resuming = update_connection_state reconnecting (room_reconnecting ∷ [])

unfoldable pub handle_resumed : Handler
handle_resumed r =
    let (events, r1) = update_connection_state connected [] r in
    (events ++ room_reconnected ∷ [], r1)

unfoldable pub disconnect_all : Dict Participant → Handler
disconnect_all [] = nothing
disconnect_all ((k, p) ∷ m) = handle_participant_disconnect p then_do disconnect_all m

unfoldable pub handle_restarting : Handler
handle_restarting r =
    (disconnect_all r.participants
        then_do update_connection_state reconnecting (room_reconnecting ∷ []))
      r

unfoldable pub handle_restarted : Handler
unfolding handle_resumed
handle_restarted = handle_resumed

-- `spawn republish` unpublishes and publishes the local tracks again (Room.Local).
unfoldable pub handle_signal_restarted : LastInfo → Handler
handle_signal_restarted info r =
    let (events, r1) =
      handle_participant_update info.other_participants
        (record r { local = Participant.put_info info.participant r.local }) in
    (events ++ spawn republish ∷ [], r1)

unfoldable pub handle_disconnected : DisconnectReason → Handler
handle_disconnected reason = update_connection_state disconnected (room_disconnected reason ∷ [])

unfoldable pub handle_data : Packet → Handler
unfolding get_participant
handle_data d r = elim (get_participant d.participant_sid r) [
  | none ↦ ([], r)
  | some p ↦ (data_received d.payload d.kind d.participant_sid ∷ [], r)
]

-- A handler that returns nothing.
abbrev pub succeed : List RoomEvent × Session → Outcome RoomError (List RoomEvent) × Session
succeed (events, r) = (ok events, r)

unfoldable pub on_engine_event :
    LastInfo → EngineEvent payloads → Call Session RoomError (List RoomEvent)
unfolding handle_speakers_changed
on_engine_event info (State.participant_update us) r = succeed (handle_participant_update us r)
on_engine_event info (State.media_track t) r = handle_media_track t r
on_engine_event info State.resuming r = succeed (handle_resuming r)
on_engine_event info State.resumed r = succeed (handle_resumed r)
on_engine_event info State.signal_resumed r = (ok (spawn sync_state ∷ []), r)
on_engine_event info State.restarting r = succeed (handle_restarting r)
on_engine_event info State.restarted r = succeed (handle_restarted r)
on_engine_event info State.signal_restarted r = succeed (handle_signal_restarted info r)
on_engine_event info (State.disconnected reason) r = succeed (handle_disconnected reason r)
on_engine_event info (State.received d) r = succeed (handle_data d r)
on_engine_event info (State.speakers_changed ss) r = handle_speakers_changed ss r
on_engine_event info (State.connection_quality us) r =
    succeed (handle_connection_quality_update us r)

-- The rest of the loop: a panic ends the task, and an error does not.
abbrev pub go_on : Outcome RoomError (List RoomEvent) × Session → Handler → List RoomEvent × Session
go_on (ok events, r) rest = let (more, u) = rest r in (events ++ more, u)
go_on (err e, r) rest = rest r
go_on (panic, r) rest = ([], r)
go_on (hang, r) rest = ([], r)

-- The loop of `room_task`.
unfoldable pub room_task : List (LastInfo × EngineEvent payloads) → Handler
unfolding on_engine_event
room_task [] r = nothing r
room_task ((info, ev) ∷ evs) r = go_on (on_engine_event info ev r) (room_task evs)

abbrev same : Bool → Bool → Bool
same true b = b
same false b = not b

-- The identifiers of the tracks of one participant that are not as `auto_subscribe` says.
unfoldable pub differing : Bool → Dict Publication → List String
differing auto [] = []
differing auto ((sid, q) ∷ m) =
    let rest = differing auto m in if same auto (is_desired q) then rest else sid ∷ rest

unfoldable pub differing_tracks : Bool → Dict Participant → List String
differing_tracks auto [] = []
differing_tracks auto ((sid, p) ∷ m) = differing auto p.tracks ++ differing_tracks auto m

pub record SyncState : Type 0 where
  pub answer : String
  pub offer : String
  pub track_sids : List String
  pub subscribe : Bool
  pub publish_tracks : List String
  pub data_channels : List String

-- `published` are the local participant's tracks. `ok none` is the early return; an answer without
-- an offer is a panic.
unfoldable pub send_sync_state :
    LastInfo → (published : List String) → Session → Outcome RoomError (Option SyncState)
send_sync_state info published r = elim info.subscriber_answer [
  | none ↦ ok none
  | some answer ↦ elim info.subscriber_offer [
    | none ↦ panic
    | some offer ↦ ok (
        some (record {
          answer = answer;
          offer = offer;
          track_sids = differing_tracks r.auto_subscribe r.participants;
          subscribe = not r.auto_subscribe;
          publish_tracks = published;
          data_channels = info.data_channels_info;
        }))
  ]
]

unfoldable pub join_others : List ParticipantInfo → Session → Session
join_others [] r = r
join_others (pi ∷ pis) r =
    join_others pis
      (update_present pi (Participant.new pi.sid pi.identity pi.name pi.metadata)
        (create_participant pi r)).1

abbrev track_keys : Dict Participant → List (String × List String)
track_keys [] = []
track_keys ((sid, p) ∷ m) = (sid, keys p.tracks) ∷ track_keys m

-- The part of `Room::connect` behind the engine's connection. The events of `join_others` come
-- before anybody is registered, so nobody hears them.
unfoldable pub connect : (auto_subscribe : Bool) → LastInfo → List RoomEvent × Session
connect auto info =
    let me = info.participant in
    let r = join_others info.other_participants (record {
      state = disconnected;
      auto_subscribe = auto;
      active_speakers = [];
      local = Participant.new me.sid me.identity me.name me.metadata;
      participants = [];
    }) in
    let (events, r1) = update_connection_state connected [] r in
    (room_connected (track_keys r.participants) ∷ events, r1)
