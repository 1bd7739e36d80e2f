-- ===== src/Ffi/Room.antt =====
-- livekit-ffi/src/server/room.rs: a room behind a handle, its events as they are forwarded to the
-- foreign language, and the requests to publish and to unpublish a track, which are synchronised
-- with the events.
-- A participant, publication or track is known by its identifier, also in the messages, which carry
-- the protocol's description of it; the states and qualities are those of the library.
pub mod Leak
mod Order
mod Stuck
mod Examples
use livekit_rust.Base.{
  ℕ, ◌+◌, Bool, true, false, List, [], ◌∷◌, ◌++◌, Option, none, some, String, ◌==◌, ◌||◌,
  if◌then◌else◌,
}
use livekit_rust.Base.Outcome.{Outcome, ok, err, panic, hang, Call}
use livekit_rust.Engine.State.{DisconnectReason}
use livekit_rust.Proto.{ConnectionQuality, DataPacketKind}
use livekit_rust.Room.Session.{ConnectionState}
use livekit_rust.Ffi.Server.{
  Server, Handle, HandleKind, ffi_room, ffi_participant, ffi_publication, ffi_track,
  ffi_data_buffer, FfiError, store_new, send_event, next_id, retrieve_handle,
}

-- The states of a frame cryptor (libwebrtc).
pub data EncryptionState : Type 0 where
  crypt_new crypt_ok encryption_failed decryption_failed missing_key key_ratcheted : EncryptionState
  internal_error : EncryptionState

-- `livekit::RoomEvent`, with what the forwarding reads of it.
pub data RoomEvent : Type 0 where
  participant_connected participant_disconnected : String → RoomEvent
  local_track_published local_track_unpublished : String → RoomEvent
  track_published track_unpublished track_subscribed track_unsubscribed :
      String → String → RoomEvent
  track_subscription_failed : String → String → String → RoomEvent
  track_muted track_unmuted : String → String → RoomEvent
  active_speakers_changed : List String → RoomEvent
  connection_quality_changed : ConnectionQuality → String → RoomEvent
  data_received : List ℕ → DataPacketKind → String → RoomEvent
  e2ee_state_changed : String → EncryptionState → RoomEvent
  connection_state_changed : ConnectionState → RoomEvent
  connected : List (String × List String) → RoomEvent
  disconnected : DisconnectReason → RoomEvent
  reconnecting reconnected : RoomEvent

-- `proto::room_event::Message`; an `owns_` message begins with the identifier of a new handle.
pub data RoomMessage : Type 0 where
  owns_participant : ℕ → String → RoomMessage
  owns_publication owns_track : ℕ → String → String → RoomMessage
  owns_data : ℕ → List ℕ → DataPacketKind → String → RoomMessage
  without_handle : RoomEvent → RoomMessage

-- A participant with its publications, each with its handle.
abbrev pub InitialState : Type 0
InitialState = List ((ℕ × String) × List (ℕ × String))

-- `proto::ffi_event::Message`
pub data Message : Type 0 where
  room_event : ℕ → RoomMessage → Message
  connect_callback : ℕ → ℕ → ℕ × String → InitialState → Message
  connect_error : ℕ → String → Message
  disconnect_callback : ℕ → Message
  publish_track_callback : ℕ → ℕ → String → Message
  publish_track_error : ℕ → String → Message
  unpublish_track_callback : ℕ → Option String → Message
  publish_data_callback : ℕ → Option String → Message

-- The rooms' own state, beside the server's: the tracks just published, and just unpublished.
pub record RoomInner : Type 0 where
  pub handle_id : ℕ
  pub pending_published_tracks : List String
  pub pending_unpublished_tracks : List String

-- `HashSet::contains`, `insert` and `remove`
unfoldable pub contains : String → List String → Bool
contains x [] = false
contains x (y ∷ ys) = y == x || contains x ys

unfoldable pub add : String → List String → List String
unfolding contains
add x ys = if contains x ys then ys else x ∷ ys

unfoldable pub take_out : String → List String → List String
take_out x [] = []
take_out x (y ∷ ys) = let rest = take_out x ys in if y == x then rest else y ∷ rest

abbrev pub World : Type 0
World = RoomInner × Server Message

-- `let _ = server.send_event(…).await`
unfoldable pub tell_event : Message → Server Message → Server Message
tell_event m s = (send_event Message m s).1

unfoldable pub send_room_event : RoomMessage → World → World
unfolding tell_event
send_room_event m (r, s) = (r, tell_event (room_event r.handle_id m) s)

-- A new handle is stored, and then a message that carries it is sent.
unfoldable pub announce : Handle → (ℕ → RoomMessage) → World → World
unfolding send_room_event
announce h m (r, s) = let (id, s1) = store_new Message h s in send_room_event (m id) (r, s1)

abbrev pub handle_of : HandleKind → String → Handle
handle_of kind sid = record { kind = kind; holds = sid }

-- After the wait: the publication gets a handle of its own, and the message has only its sid.
unfoldable pub tell_published : String → World → World
unfolding send_room_event
tell_published sid (r, s) = send_room_event (without_handle (local_track_published sid)) (
  record r { pending_published_tracks = take_out sid r.pending_published_tracks },
  (store_new Message (handle_of ffi_publication sid) s).1,
)

unfoldable pub tell_unpublished : String → World → World
unfolding send_room_event
tell_unpublished sid w =
    let (r, s) = send_room_event (without_handle (local_track_unpublished sid)) w in
    (record r { pending_unpublished_tracks = add sid r.pending_unpublished_tracks }, s)

-- `none`: the loop that waits for the callback of the publication's request goes on.
unfoldable pub forward_event : RoomEvent → World → Option World
unfolding announce tell_published tell_unpublished contains send_room_event
forward_event (participant_connected sid) w =
    some (announce (handle_of ffi_participant sid) (λ id. owns_participant id sid) w)
forward_event (local_track_published sid) w =
    if contains sid w.0.pending_published_tracks then some (tell_published sid w) else none
forward_event (local_track_unpublished sid) w = some (tell_unpublished sid w)
forward_event (track_published psid sid) w =
    some (announce (handle_of ffi_publication sid) (λ id. owns_publication id psid sid) w)
forward_event (track_subscribed psid sid) w =
    some (announce (handle_of ffi_track sid) (λ id. owns_track id psid sid) w)
forward_event (data_received payload kind psid) w =
    some (announce (handle_of ffi_data_buffer psid) (λ id. owns_data id payload kind psid) w)
forward_event (connected participants) w = some w
forward_event e w = some (send_room_event (without_handle e) w)

-- The end of the task that `publish_track` spawns, with the result of the participant's call: the
-- callback, up to the await of its `send_event`, and what the task does after the await.
unfoldable pub publish_done : ℕ → String → World → World
unfolding tell_event
publish_done async_id sid (r, s) =
    let (id, s1) = store_new Message (handle_of ffi_publication sid) s in
    (r, tell_event (publish_track_callback async_id id sid) s1)

unfoldable pub note_published : String → World → World
unfolding add contains
note_published sid (r, s) =
    (record r { pending_published_tracks = add sid r.pending_published_tracks }, s)

-- The first of these is taken out: `none` if it is not there.
unfoldable pub take_first : String → List String → Option (List String)
take_first x [] = none
take_first x (y ∷ ys) =
    let rest = take_first x ys in
    if y == x then some ys else elim rest [ none ↦ none | some zs ↦ some (y ∷ zs) ]

unfoldable pub publish_failed : ℕ → String → World → World
unfolding tell_event
publish_failed async_id error (r, s) = (r, tell_event (publish_track_error async_id error) s)

-- One round of the loop in which `unpublish_track` waits for the event to be sent; `none` if it
-- goes on.
unfoldable pub unpublish_done : ℕ → String → World → Option World
unfolding tell_event contains take_out
unpublish_done async_id sid (r, s) =
    if contains sid r.pending_unpublished_tracks
    then some (
      record r { pending_unpublished_tracks = take_out sid r.pending_unpublished_tracks },
      tell_event (unpublish_track_callback async_id none) s,
    )
    else none

unfoldable pub unpublish_failed : ℕ → String → World → World
unfolding tell_event
unpublish_failed async_id error (r, s) =
    (r, tell_event (unpublish_track_callback async_id (some error)) s)

-- What may happen to a room: the room emits an event, `room_task` forwards the oldest one, or a
-- request's task goes on: one that publishes sends its callback, and notes the publication later.
-- `events` is the channel, and `notes` are the publications whose tasks have still to note them.
pub data RoomStep : Type 0 where
  emits : RoomEvent → RoomStep
  forwards : RoomStep
  publishes : ℕ → String → RoomStep
  notes_publication : String → RoomStep
  fails_to_publish fails_to_unpublish : ℕ → String → RoomStep
  unpublishes : ℕ → String → RoomStep

pub record Running : Type 0 where
  pub events : List RoomEvent
  pub notes : List String
  pub world : World

abbrev pub waited : Running → Option World → Running
waited x none = x
waited x (some w) = record x { world = w }

unfoldable pub forward_first : List RoomEvent → Running → Running
unfolding forward_event
forward_first [] x = x
forward_first (e ∷ es) x = elim (forward_event e x.world) [
  | none ↦ x
  | some w ↦ record x { events = es; world = w }
]

-- The step of a task that is at its note: nothing, if there is none.
unfoldable pub note_first : String → Option (List String) → Running → Running
unfolding note_published
note_first sid none x = x
note_first sid (some rest) x = record x { notes = rest; world = note_published sid x.world }

unfoldable pub room_step : RoomStep → Running → Running
unfolding forward_first note_first take_first publish_done publish_failed unpublish_done
    unpublish_failed
room_step (emits e) x = record x { events = x.events ++ e ∷ [] }
room_step forwards x = forward_first x.events x
room_step (publishes async_id sid) x = record x {
  notes = sid ∷ x.notes;
  world = publish_done async_id sid x.world;
}
room_step (notes_publication sid) x = note_first sid (take_first sid x.notes) x
room_step (fails_to_publish async_id e) x = record x { world = publish_failed async_id e x.world }
room_step (fails_to_unpublish async_id e) x = record x {
  world = unpublish_failed async_id e x.world;
}
room_step (unpublishes async_id sid) x = waited x (unpublish_done async_id sid x.world)

unfoldable pub room_task : List RoomStep → Running → Running
unfolding room_step
room_task [] x = x
room_task (s ∷ ss) x = room_task ss (room_step s x)

-- The handles of a participant's publications, and then those of the participants.
unfoldable pub initial_publications :
    List String → Server Message → List (ℕ × String) × Server Message
initial_publications [] s = ([], s)
initial_publications (sid ∷ sids) s =
    let (id, s1) = store_new Message (handle_of ffi_publication sid) s in
    let (ps, s2) = initial_publications sids s1 in ((id, sid) ∷ ps, s2)

unfoldable pub initial_participants :
    List (String × List String) → Server Message → InitialState × Server Message
unfolding initial_publications
initial_participants [] s = ([], s)
initial_participants ((sid, tracks) ∷ ps) s =
    let (id, s1) = store_new Message (handle_of ffi_participant sid) s in
    let (pubs, s2) = initial_publications tracks s1 in
    let (rest, s3) = initial_participants ps s2 in (((id, sid), pubs) ∷ rest, s3)

unfoldable pub build_initial_states :
    String
    → List (String × List String)
    → Server Message
    → (ℕ × String × InitialState) × Server Message
unfolding initial_participants
build_initial_states local ps s =
    let (id, s1) = store_new Message (handle_of ffi_participant local) s in
    let (infos, s2) = initial_participants ps s1 in ((id, local, infos), s2)
