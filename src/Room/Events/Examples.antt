-- ===== src/Room/Events/Examples.antt =====
-- room/mod.rs at a room with one other participant.
use livekit_rust.Base.{◌≡◌, refl, true, false, List, [], ◌∷◌, some}
use livekit_rust.Base.Dict
use livekit_rust.Base.Outcome.{ok}
use livekit_rust.Engine.State
use livekit_rust.Engine.State.{EngineEvent, client_initiated}
use livekit_rust.Proto.{video, camera, no_encryption}
use livekit_rust.Room.Publication
use livekit_rust.Room.Publication.{TrackInfo, Track, Publication, is_desired}
use livekit_rust.Room.Participant
use livekit_rust.Room.Participant.{ordered, Participant, ParticipantInfo}
use livekit_rust.Room.Session.{
  create_participant, update_connection_state, update_present, note_speakers, audio_level, Session,
  LastInfo, SpeakerInfo, payloads, active_speakers_changed, handle_speakers_changed,
}
use livekit_rust.Room.Session.Presence.{believe, meet, has_participant, follow}
use livekit_rust.Room.Session.Speakers.{speakers_lem}
use livekit_rust.Room.Session.Keyed.{RoomKeyed}
use livekit_rust.Room.Events.{connect, join_others, room_task, send_sync_state, SyncState}
use livekit_rust.Room.Events.Keyed.{room-RoomKeyed}
use livekit_rust.Room.Events.Tells.{room_task-presence, room_task-state}
use livekit_rust.Room.Events.Sync.{lists, resumption_unsubscribes}

abbrev camera_info : TrackInfo
camera_info = record {
  sid = "TR_1";
  name = "cam";
  kind = video;
  source = camera;
  muted = false;
  simulcast = true;
  width = 1280;
  height = 720;
  mime_type = "video/vp8";
  encryption = no_encryption;
}

abbrev bob_info : ParticipantInfo
bob_info = record {
  sid = "PA_2";
  identity = "bob";
  name = "Bob";
  metadata = "";
  disconnected = false;
  tracks = camera_info ∷ [];
}

abbrev carol_info : ParticipantInfo
carol_info = record bob_info { sid = "PA_3"; identity = "carol"; tracks = [] }

abbrev alice_info : ParticipantInfo
alice_info = record bob_info { sid = "PA_1"; identity = "alice"; tracks = [] }

abbrev info : LastInfo
info = record {
  participant = alice_info;
  other_participants = bob_info ∷ [];
  subscriber_offer = some "offer";
  subscriber_answer = some "answer";
  data_channels_info = [];
}

abbrev room : Session
room = (connect true info).1

-- Carol comes, Bob goes, and the engine restarts.
abbrev run : List (LastInfo × EngineEvent payloads)
run =
    (info, State.participant_update (carol_info ∷ record bob_info { disconnected = true } ∷ []))
    ∷ (info, State.restarting)
    ∷ (info, State.restarted)
    ∷ []

room-RoomKeyed_example : RoomKeyed (room_task run (connect true info).1).1
room-RoomKeyed_example = room-RoomKeyed true info run

room_task-presence_example :
    believe (meet "PA_2") (room_task run room).0 (has_participant "PA_2" room)
    ≡ has_participant "PA_2" (room_task run room).1
room_task-presence_example = room_task-presence "PA_2" run room

room_task-state_example :
    believe follow (room_task run room).0 (some room.state) ≡ some (room_task run room).1.state
room_task-state_example = room_task-state run room

abbrev speakers : List SpeakerInfo
speakers =
    record { sid = "PA_2"; level = ordered 7; active = true }
    ∷ record { sid = "PA_1"; level = ordered 3; active = true }
    ∷ record { sid = "PA_9"; level = ordered 1; active = true }
    ∷ []

speakers_lem_example :
    (handle_speakers_changed speakers room).0
    ≡ ok (active_speakers_changed (handle_speakers_changed speakers room).1.active_speakers ∷ [])
unfolding note_speakers audio_level connect create_participant join_others update_connection_state
    Dict.get Dict.insert update_present Participant.set_audio_level Participant.set_speaking
    Participant.new
speakers_lem_example = (speakers_lem speakers room refl).0

-- A room that subscribes automatically, and has got the camera's track.
abbrev camera_track : Track
camera_track = record {
  sid = "TR_1";
  name = "cam";
  kind = video;
  source = camera;
  enabled = true;
  media = 1;
}

abbrev publication : Publication
publication = record (Publication.new camera_info (some camera_track)) { attached = true }

abbrev bob : Participant
bob = record (Participant.new "PA_2" "bob" "Bob" "") { tracks = ("TR_1", publication) ∷ [] }

abbrev watching : Session
watching = record room { auto_subscribe = true; participants = ("PA_2", bob) ∷ [] }

abbrev sent : SyncState
sent = record {
  answer = "answer";
  offer = "offer";
  track_sids = "TR_1" ∷ [];
  subscribe = false;
  publish_tracks = [];
  data_channels = [];
}

resumption_unsubscribes_example :
    (s : SyncState) × (send_sync_state info [] watching ≡ ok (some s))
    × (lists "TR_1" s.track_sids ≡ true)
    × (s.subscribe ≡ false)
unfolding Publication.new Dict.get Participant.new
resumption_unsubscribes_example =
    resumption_unsubscribes info [] watching "answer" "offer" "PA_2" "TR_1" bob publication
      camera_track refl refl refl refl refl refl refl
