-- ===== src/Room/Session.antt =====
-- livekit/src/room/mod.rs: the room session. A handler returns the events that it dispatches, in
-- order, and the new session; events of a participant's publications are `of_participant`. A task
-- that a handler spawns is an event `spawn` here: what it does is a function of its own, such as
-- `send_sync_state`. `last_info` is what the engine answers to the call of that name.
-- The calls of the encryption manager, whose model is Room/E2ee, are left out of the handlers, and an
-- identifier without its prefix, which is a panic, does not occur.
pub mod Keyed
pub mod Presence
pub mod Inert
pub mod Speakers
use livekit_rust.Base.Outcome.{Outcome, ok, err, panic, hang, Call}
use livekit_rust.Base.{
  ℕ, ◌≡◌, refl, Bool, true, false, not, ◌||◌, List, [], ◌∷◌, ◌++◌, map, Option, none, some, String,
  if◌then◌else◌, is_some, ◌==◌, nat_eq, leb,
}
use livekit_rust.Base.Dict
use livekit_rust.Base.Dict.{Dict, keys}
use livekit_rust.Proto.{ConnectionQuality, TrackKind, DataPacketKind}
use livekit_rust.Engine.State.{Payloads, EngineEvent, DisconnectReason}
use livekit_rust.Room.Publication
use livekit_rust.Room.Publication.{Publication, TrackInfo}
use livekit_rust.Room.Participant
use livekit_rust.Room.Participant.{
  AudioLevel, ordered, not_a_number, silent, Participant, ParticipantInfo, ParticipantEvent,
  unpublish_track,
}

pub data ConnectionState : Type 0 where
  disconnected connected reconnecting : ConnectionState

pub record MediaTrack : Type 0 where
  pub stream_id : String
  pub kind : TrackKind
  pub media : ℕ

pub record Packet : Type 0 where
  pub participant_sid : String
  pub payload : List ℕ
  pub kind : DataPacketKind

pub record SpeakerInfo : Type 0 where
  pub sid : String
  pub level : AudioLevel
  pub active : Bool

pub record QualityInfo : Type 0 where
  pub participant_sid : String
  pub quality : ConnectionQuality

-- `rtc_engine.last_info()`
pub record LastInfo : Type 0 where
  pub participant : ParticipantInfo
  pub other_participants : List ParticipantInfo
  pub subscriber_offer : Option String
  pub subscriber_answer : Option String
  pub data_channels_info : List String

abbrev pub payloads : Payloads
payloads = record {
  Updates = List ParticipantInfo;
  MediaTrack = MediaTrack;
  Packet = Packet;
  Speakers = List SpeakerInfo;
  Qualities = List QualityInfo;
  Info = LastInfo;
}

pub data Spawned : Type 0 where
  sync_state republish : Spawned
  add_media_track : (participant track : String) → TrackKind → ℕ → Spawned

pub data RoomEvent : Type 0 where
  participant_connected participant_disconnected : String → RoomEvent
  of_participant : String → ParticipantEvent → RoomEvent
  active_speakers_changed : List String → RoomEvent
  connection_quality_changed : ConnectionQuality → String → RoomEvent
  data_received : List ℕ → DataPacketKind → String → RoomEvent
  connection_state_changed : ConnectionState → RoomEvent
  room_connected : List (String × List String) → RoomEvent
  room_disconnected : DisconnectReason → RoomEvent
  room_reconnecting room_reconnected : RoomEvent
  spawn : Spawned → RoomEvent

pub data RoomError : Type 0 where
  internal : String → RoomError

pub record Session : Type 0 where
  pub state : ConnectionState
  pub auto_subscribe : Bool
  pub active_speakers : List String
  pub local : Participant
  pub participants : Dict Participant

abbrev pub Handler : Type 0
Handler = Session → List RoomEvent × Session

abbrev pub nothing : Handler
nothing r = ([], r)

-- What a handler that may fail comes to for the loop of `room_task`: an error is only logged.
abbrev pub handled : Outcome RoomError (List RoomEvent) × Session → List RoomEvent × Session
handled (ok events, r) = (events, r)
handled (err e, r) = ([], r)
handled (panic, r) = ([], r)
handled (hang, r) = ([], r)

-- One handler after another.
infixl 10 ◌then_do◌
abbrev pub ◌then_do◌ : Handler → Handler → Handler
◌then_do◌ f g r = let (xs, r1) = f r in let (ys, r2) = g r1 in (xs ++ ys, r2)

abbrev pub state_eq : ConnectionState → ConnectionState → Bool
state_eq disconnected disconnected = true
state_eq connected connected = true
state_eq reconnecting reconnecting = true
state_eq _ _ = false

abbrev pub tell : String → List ParticipantEvent → List RoomEvent
tell sid evs = map (of_participant sid) evs

unfoldable pub get_participant : String → Session → Option Participant
get_participant sid r = Dict.get sid r.participants

-- Nothing happens in a state that is there already; otherwise the `true` of the code is `then`.
unfoldable pub update_connection_state : ConnectionState → List RoomEvent → Handler
update_connection_state s more r =
    if state_eq r.state s
    then ([], r)
    else (connection_state_changed s ∷ more, record r { state = s })

-- `create_participant` installs the handlers that `of_participant` stands for.
unfoldable pub create_participant : ParticipantInfo → Session → Session
create_participant pi r = record r {
  participants =
      Dict.insert pi.sid (Participant.new pi.sid pi.identity pi.name pi.metadata) r.participants;
}

-- `unpublish_track` of every track that the participant had.
unfoldable pub unpublish_all : List String → Participant → List ParticipantEvent × Participant
unpublish_all [] p = ([], p)
unpublish_all (sid ∷ sids) p =
    let (events, p1) = unpublish_track sid p in
    let (more, p2) = unpublish_all sids p1 in (events ++ more, p2)

unfoldable pub handle_participant_disconnect : Participant → Handler
handle_participant_disconnect p r =
    let (events, q) = unpublish_all (keys p.tracks) p in
    (
      tell p.sid events ++ participant_disconnected q.sid ∷ [],
      record r { participants = Dict.remove q.sid r.participants },
    )

-- The update of a participant that is in the map.
unfoldable pub update_present : ParticipantInfo → Participant → Handler
update_present pi p r =
    let (events, q) = Participant.update_info pi p in
    (tell q.sid events, record r { participants = Dict.insert pi.sid q r.participants })

unfoldable pub update_remote : ParticipantInfo → Option Participant → Handler
unfolding handle_participant_disconnect update_present create_participant
update_remote pi (some p) r =
    if pi.disconnected then handle_participant_disconnect p r else update_present pi p r
update_remote pi none r =
    let p = Participant.new pi.sid pi.identity pi.name pi.metadata in
    let (events, r') = update_present pi p (create_participant pi r) in
    (participant_connected pi.sid ∷ events, r')

abbrev is_local : ParticipantInfo → Session → Bool
is_local pi r = pi.sid == r.local.sid || pi.identity == r.local.identity

unfoldable pub update_participant : ParticipantInfo → Handler
unfolding get_participant
update_participant pi r =
    if is_local pi r
    then ([], record r { local = Participant.put_info pi r.local })
    else update_remote pi (get_participant pi.sid r) r

unfoldable pub handle_participant_update : List ParticipantInfo → Handler
handle_participant_update [] = nothing
handle_participant_update (pi ∷ pis) = update_participant pi then_do handle_participant_update pis

-- The participant with an identifier, local or remote, replaced by what `f` makes of it.
unfoldable pub change : String → (Participant → Participant) → Session → Option Session
unfolding get_participant
change sid f r =
    if sid == r.local.sid
    then some (record r { local = f r.local })
    else elim (get_participant sid r) [
      | none ↦ none
      | some p ↦ some (record r { participants = Dict.insert sid (f p) r.participants })
    ]

abbrev heard_speaker : SpeakerInfo → Participant → Participant
heard_speaker s p = Participant.set_audio_level s.level (Participant.set_speaking s.active p)

-- The loop over the speakers: the speakers that are active, in order, and the session.
unfoldable pub note_speakers : List SpeakerInfo → Session → List String × Session
unfolding change
note_speakers [] r = ([], r)
note_speakers (s ∷ ss) r = elim (change s.sid (heard_speaker s) r) [
  | none ↦ note_speakers ss r
  | some r1 ↦
      let (speakers, r2) = note_speakers ss r1 in
      (if s.active then s.sid ∷ speakers else speakers, r2)
]

unfoldable pub audio_level : Session → String → AudioLevel
unfolding get_participant
audio_level r sid =
    if sid == r.local.sid
    then r.local.audio_level
    else elim (get_participant sid r) [ none ↦ silent | some p ↦ p.audio_level ]

abbrev pub place : AudioLevel → ℕ
place (ordered n) = n
place not_a_number = 0

abbrev pub has_nan : List AudioLevel → Bool
has_nan [] = false
has_nan (ordered n ∷ ls) = has_nan ls
has_nan (not_a_number ∷ ls) = true

-- Whether `partial_cmp(…).unwrap()` panics while these are sorted: a sort compares every element, if
-- there are two.
abbrev pub incomparable : List AudioLevel → Bool
incomparable [] = false
incomparable (l ∷ []) = false
incomparable (l ∷ m ∷ ls) = has_nan (l ∷ m ∷ ls)

-- The stable sort by audio level.
unfoldable pub insert_by : (String → ℕ) → String → List String → List String
insert_by level x [] = x ∷ []
insert_by level x (y ∷ ys) =
    let rest = insert_by level x ys in if leb (level x) (level y) then x ∷ y ∷ ys else y ∷ rest

unfoldable pub sort_by : (String → ℕ) → List String → List String
unfolding insert_by
sort_by level [] = []
sort_by level (x ∷ xs) = insert_by level x (sort_by level xs)

-- The sort and what follows it; the argument says whether the sort panics.
unfoldable pub tell_speakers : Bool → List String → Call Session RoomError (List RoomEvent)
tell_speakers true speakers r = (panic, r)
tell_speakers false speakers r =
    let sorted = sort_by (λ sid. place (audio_level r sid)) speakers in
    (ok (active_speakers_changed sorted ∷ []), record r { active_speakers = sorted })

unfoldable pub handle_speakers_changed : List SpeakerInfo → Call Session RoomError (List RoomEvent)
unfolding tell_speakers
handle_speakers_changed infos r =
    let (speakers, r1) = note_speakers infos r in
    tell_speakers (incomparable (map (audio_level r1) speakers)) speakers r1

unfoldable pub update_quality : QualityInfo → Handler
unfolding change
update_quality u r =
    elim (change u.participant_sid (Participant.set_connection_quality u.quality) r) [
      | none ↦ ([], r)
      | some r1 ↦ (connection_quality_changed u.quality u.participant_sid ∷ [], r1)
    ]

unfoldable pub handle_connection_quality_update : List QualityInfo → Handler
handle_connection_quality_update [] = nothing
handle_connection_quality_update (u ∷ us) =
    update_quality u then_do handle_connection_quality_update us
