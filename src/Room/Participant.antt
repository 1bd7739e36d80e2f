-- ===== src/Room/Participant.antt =====
-- livekit/src/room/participant/mod.rs and remote_participant.rs: a participant with its
-- publications. A method returns what the room's handlers are called with, in order, and the new
-- participant. `create_participant` installs those handlers before anything else happens.
pub mod Sids
pub mod Known
pub mod Keyed
pub mod Accounts
mod Examples
use livekit_rust.Base.{
  ℕ, ◌≡◌, refl, Bool, true, false, ◌||◌, List, [], ◌∷◌, ◌++◌, Option, none, some, String,
  if◌then◌else◌, is_some, ◌==◌,
}
use livekit_rust.Base.Dict
use livekit_rust.Base.Dict.{Dict, keys}
use livekit_rust.Proto.{ConnectionQuality, excellent, TrackKind, audio, video}
use livekit_rust.Room.Publication
use livekit_rust.Room.Publication.{
  Publication, PublicationEvent, TrackInfo, Track, on_subscribed, on_unsubscribed,
  on_status_changed, on_permission_changed, on_update_needed, on_muted, on_unmuted,
}

-- An `f32`, which the library only stores and compares: its place in the ascending order of the
-- values that are numbers, or NaN, which is not comparable. The place of 0.0 is 2^31.
pub data AudioLevel : Type 0 where
  ordered : ℕ → AudioLevel
  not_a_number : AudioLevel

abbrev pub silent : AudioLevel
silent = ordered 2147483648

-- The fields of proto::ParticipantInfo that are read; `disconnected` is the state's value.
pub record ParticipantInfo : Type 0 where
  pub sid : String
  pub identity : String
  pub name : String
  pub metadata : String
  pub disconnected : Bool
  pub tracks : List TrackInfo

pub record Participant : Type 0 where
  pub sid : String
  pub identity : String
  pub name : String
  pub metadata : String
  pub speaking : Bool
  pub audio_level : AudioLevel
  pub connection_quality : ConnectionQuality
  pub tracks : Dict Publication

pub data ParticipantEvent : Type 0 where
  track_published track_unpublished : String → ParticipantEvent
  track_subscribed track_unsubscribed : String → Track → ParticipantEvent
  track_subscription_failed : String → ParticipantEvent
  track_muted track_unmuted : String → ParticipantEvent
  -- The UpdateSubscription that is sent to the server.
  update_subscription : String → (subscribe : Bool) → ParticipantEvent

unfoldable pub new : String → String → String → String → Participant
new sid identity name metadata = record {
  sid = sid;
  identity = identity;
  name = name;
  metadata = metadata;
  speaking = false;
  audio_level = silent;
  connection_quality = excellent;
  tracks = [];
}

unfoldable pub put_info : ParticipantInfo → Participant → Participant
put_info info p = record p {
  sid = info.sid;
  name = info.name;
  identity = info.identity;
  metadata = info.metadata;
}

unfoldable pub set_speaking : Bool → Participant → Participant
set_speaking b p = record p { speaking = b }

unfoldable pub set_audio_level : AudioLevel → Participant → Participant
set_audio_level l p = record p { audio_level = l }

unfoldable pub set_connection_quality : ConnectionQuality → Participant → Participant
set_connection_quality q p = record p { connection_quality = q }

-- The handlers that `add_publication` installs; the two others are never installed.
abbrev forward : String → PublicationEvent → List ParticipantEvent
forward sid (on_subscribed t) = track_subscribed sid t ∷ []
forward sid (on_unsubscribed t) = track_unsubscribed sid t ∷ []
forward sid (on_status_changed old new') = []
forward sid (on_permission_changed old new') = []
forward sid (on_update_needed b) = update_subscription sid b ∷ []
forward sid on_muted = track_muted sid ∷ []
forward sid on_unmuted = track_unmuted sid ∷ []

unfoldable pub forward_all : String → List PublicationEvent → List ParticipantEvent
forward_all sid [] = []
forward_all sid (ev ∷ evs) = forward sid ev ++ forward_all sid evs

-- The handlers' calls of a publication reach the room while they are attached.
abbrev pub heard : Publication → List PublicationEvent → List ParticipantEvent
heard p evs = if p.attached then forward_all p.sid evs else []

unfoldable pub add_publication : Publication → Participant → Participant
add_publication pub' p = record p {
  tracks = Dict.insert pub'.sid (record pub' { attached = true }) p.tracks;
}

unfoldable pub remove_publication : String → Participant → Option Publication × Participant
remove_publication sid p = elim (Dict.get sid p.tracks) [
  | none ↦ (none, p)
  | some pub' ↦
      (some (record pub' { attached = false }), record p { tracks = Dict.remove sid p.tracks })
]

unfoldable pub get_track_publication : String → Participant → Option Publication
get_track_publication sid p = Dict.get sid p.tracks

-- `track.disable(); publication.set_track(None)`
abbrev drop_track : Publication → List ParticipantEvent
drop_track q = elim q.track [
  | none ↦ []
  | some t ↦
      heard q
        (Publication.set_track none (record q { track = some (record t { enabled = false }) })).0
]

unfoldable pub unpublish_track : String → Participant → List ParticipantEvent × Participant
unfolding get_track_publication remove_publication
unpublish_track sid p = elim (get_track_publication sid p) [
  | none ↦ ([], p)
  | some q ↦ (drop_track q ++ track_unpublished q.sid ∷ [], (remove_publication sid p).1)
]

-- One track of an update: a publication that is known is updated, another is added.
unfoldable pub update_track : TrackInfo → Participant → List ParticipantEvent × Participant
unfolding get_track_publication add_publication
update_track t p = elim (get_track_publication t.sid p) [
  | some q ↦
      let (events, q') = Publication.update_info t q in
      (heard q' events, record p { tracks = Dict.insert t.sid q' p.tracks })
  | none ↦ (track_published t.sid ∷ [], add_publication (Publication.new t none) p)
]

unfoldable pub update_tracks : List TrackInfo → Participant → List ParticipantEvent × Participant
update_tracks [] p = ([], p)
update_tracks (t ∷ ts) p =
    let (events, p1) = update_track t p in
    let (more, p2) = update_tracks ts p1 in (events ++ more, p2)

abbrev pub is_valid : String → List TrackInfo → Bool
is_valid sid [] = false
is_valid sid (t ∷ ts) = t.sid == sid || is_valid sid ts

-- The tracks of a list of identifiers that the update no longer has.
unfoldable pub unpublish_stale :
    List TrackInfo → List String → Participant → List ParticipantEvent × Participant
unpublish_stale valid [] p = ([], p)
unpublish_stale valid (sid ∷ sids) p =
    let (events, p1) = if is_valid sid valid then ([], p) else unpublish_track sid p in
    let (more, p2) = unpublish_stale valid sids p1 in (events ++ more, p2)

unfoldable pub update_info : ParticipantInfo → Participant → List ParticipantEvent × Participant
update_info info p =
    let (events, p1) = update_tracks info.tracks (put_info info p) in
    let (more, p2) = unpublish_stale info.tracks (keys p1.tracks) p1 in (events ++ more, p2)

-- A media track of a kind that the publication does not have is `unreachable!`: `none`. The wait of
-- up to five seconds for the publication is over here, with the publication or without it.
abbrev same_kind : TrackKind → TrackKind → Bool
same_kind audio audio = true
same_kind video video = true
same_kind _ _ = false

abbrev remote_track : Publication → ℕ → Track
remote_track q media = record {
  sid = q.sid;
  name = q.name;
  kind = q.kind;
  source = q.source;
  enabled = true;
  media = media;
}

-- The publication takes its own identifier back from the track.
abbrev subscribe_track :
    String → ℕ → Publication → Participant → Option (List ParticipantEvent × Participant)
subscribe_track sid media q p =
    let (events, q') =
      Publication.set_track (some (remote_track q media)) (record q { attached = true }) in
    some (heard q' events, add_publication q' (add_publication q p))

unfoldable pub add_subscribed_media_track :
    String → TrackKind → ℕ → Participant → Option (List ParticipantEvent × Participant)
unfolding get_track_publication add_publication
add_subscribed_media_track sid kind media p = elim (get_track_publication sid p) [
  | none ↦ some (track_subscription_failed sid ∷ [], p)
  | some q ↦ if same_kind q.kind kind then subscribe_track sid media q p else none
]
