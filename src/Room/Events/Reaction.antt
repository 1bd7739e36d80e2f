-- ===== src/Room/Events/Reaction.antt =====
-- room/mod.rs: the handler of an engine event, and the events that are of no consequence.
use livekit_rust.Base.{
  ◌≡◌, refl, ◌⊎◌, Bool, List, [], ◌∷◌, Option, String, arith, Option-cases, inl, inr,
}
use livekit_rust.Base.Dict
use livekit_rust.Base.Dict.{Dict}
use livekit_rust.Engine.State
use livekit_rust.Engine.State.{EngineEvent, DisconnectReason}
use livekit_rust.Room.Session.{
  handled, Session, Handler, LastInfo, MediaTrack, Packet, RoomEvent, payloads, ConnectionState,
  participant_connected, participant_disconnected, of_participant, active_speakers_changed,
  connection_quality_changed, connection_state_changed, room_connected, room_disconnected,
  room_reconnecting, room_reconnected, spawn, add_media_track, data_received, get_participant,
}
use livekit_rust.Room.Session.Presence.{meet, follow}
use livekit_rust.Room.Events.{handle_media_track, handle_data, on_engine_event, unpack_stream_id}

-- The handler that `room_task` runs for an event.
abbrev pub react : LastInfo → EngineEvent payloads → Handler
react info ev r = handled (on_engine_event info ev r)

-- The events that say nothing of who is in the room, or of its state.
abbrev pub Quiet : RoomEvent → Type 0
Quiet (spawn x) = Unit
Quiet (data_received payload kind sid) = Unit
Quiet (room_disconnected reason) = Unit
Quiet room_reconnecting = Unit
Quiet room_reconnected = Unit
Quiet _ = ⊥

pub meet-Quiet : (k : String) (ev : RoomEvent) → Quiet ev → (b : Bool) → meet k ev b ≡ b
meet-Quiet k (spawn x) q b = refl
meet-Quiet k (data_received payload kind sid) q b = refl
meet-Quiet k (room_disconnected reason) q b = refl
meet-Quiet k room_reconnecting q b = refl
meet-Quiet k room_reconnected q b = refl
meet-Quiet k (participant_connected sid) q b = elim q [ ]
meet-Quiet k (participant_disconnected sid) q b = elim q [ ]
meet-Quiet k (of_participant sid x) q b = elim q [ ]
meet-Quiet k (active_speakers_changed sids) q b = elim q [ ]
meet-Quiet k (connection_quality_changed quality sid) q b = elim q [ ]
meet-Quiet k (connection_state_changed t) q b = elim q [ ]
meet-Quiet k (room_connected others) q b = elim q [ ]

pub follow-Quiet : (ev : RoomEvent) → Quiet ev → (s : Option ConnectionState) → follow ev s ≡ s
follow-Quiet (spawn x) q s = refl
follow-Quiet (data_received payload kind sid) q s = refl
follow-Quiet (room_disconnected reason) q s = refl
follow-Quiet room_reconnecting q s = refl
follow-Quiet room_reconnected q s = refl
follow-Quiet (participant_connected sid) q s = elim q [ ]
follow-Quiet (participant_disconnected sid) q s = elim q [ ]
follow-Quiet (of_participant sid x) q s = elim q [ ]
follow-Quiet (active_speakers_changed sids) q s = elim q [ ]
follow-Quiet (connection_quality_changed quality sid) q s = elim q [ ]
follow-Quiet (connection_state_changed t) q s = elim q [ ]
follow-Quiet (room_connected others) q s = elim q [ ]

-- A handler that tells one quiet event at most, and leaves the session alone.
abbrev pub Idle : List RoomEvent × Session → Session → Type 0
Idle x r = (x ≡ ([], r)) ⊎ ((ev : RoomEvent) × Quiet ev × (x ≡ (ev ∷ [], r)))

pub media_track-Idle :
    (info : LastInfo) (t : MediaTrack) (r : Session) → Idle (react info (State.media_track t) r) r
unfolding on_engine_event handle_media_track get_participant
media_track-Idle info t r = elim (Option-cases (unpack_stream_id t.stream_id)) [
  | inl bad ↦ inl (ground arith)
  | inr ((psid, tsid), good) ↦ elim (Option-cases (Dict.get psid r.participants)) [
    | inl missing ↦ inl (ground arith)
    | inr (p, found) ↦ inr (spawn (add_media_track psid tsid t.kind t.media), tt, ground arith)
  ]
]

pub data-Idle : (d : Packet) (r : Session) → Idle (handle_data d r) r
unfolding handle_data get_participant
data-Idle d r = elim (Option-cases (Dict.get d.participant_sid r.participants)) [
  | inl missing ↦ inl (ground arith)
  | inr (p, found) ↦ inr (data_received d.payload d.kind d.participant_sid, tt, ground arith)
]
