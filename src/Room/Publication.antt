-- ===== src/Room/Publication.antt =====
-- livekit/src/room/publication/mod.rs and remote.rs: a remote track publication. A method returns
-- the calls of the handlers, in order, and the new publication; the participant decides which
-- handlers are installed. Incoming infos are well formed: the code panics (`unwrap`) on a track
-- identifier without its prefix and on a data track.
mod Status
mod Examples
use livekit_rust.Base.{
  ℕ, ◌≡◌, refl, Bool, true, false, not, List, [], ◌∷◌, ◌++◌, Option, none, some, String,
  if◌then◌else◌, is_some,
}
use livekit_rust.Proto.{TrackKind, TrackSource, EncryptionType}

pub data SubscriptionStatus : Type 0 where
  desired subscribed unsubscribed : SubscriptionStatus

pub data PermissionStatus : Type 0 where
  allowed not_allowed : PermissionStatus

-- The fields of proto::TrackInfo that are read, with the enums converted.
pub record TrackInfo : Type 0 where
  pub sid : String
  pub name : String
  pub kind : TrackKind
  pub source : TrackSource
  pub muted : Bool
  pub simulcast : Bool
  pub width : ℕ
  pub height : ℕ
  pub mime_type : String
  pub encryption : EncryptionType

-- A remote track: `media` is the number of the media stream track behind it.
pub record Track : Type 0 where
  pub sid : String
  pub name : String
  pub kind : TrackKind
  pub source : TrackSource
  pub enabled : Bool
  pub media : ℕ

-- `attached` says that the participant's handlers are installed.
pub record Publication : Type 0 where
  pub track : Option Track
  pub name : String
  pub sid : String
  pub kind : TrackKind
  pub source : TrackSource
  pub simulcasted : Bool
  pub width : ℕ
  pub height : ℕ
  pub mime_type : String
  pub muted : Bool
  pub encryption_type : EncryptionType
  pub proto_info : TrackInfo
  pub subscribed : Bool
  pub allowed : Bool
  pub attached : Bool

pub data PublicationEvent : Type 0 where
  on_subscribed on_unsubscribed : Track → PublicationEvent
  on_status_changed : (old new : SubscriptionStatus) → PublicationEvent
  on_permission_changed : (old new : PermissionStatus) → PublicationEvent
  on_update_needed : (subscribe : Bool) → PublicationEvent
  on_muted on_unmuted : PublicationEvent

unfoldable pub new : TrackInfo → Option Track → Publication
new info track = record {
  track = track;
  name = info.name;
  sid = info.sid;
  kind = info.kind;
  source = info.source;
  simulcasted = info.simulcast;
  width = info.width;
  height = info.height;
  mime_type = info.mime_type;
  muted = info.muted;
  encryption_type = info.encryption;
  proto_info = info;
  subscribed = false;
  allowed = true;
  attached = false;
}

unfoldable pub subscription_status : Publication → SubscriptionStatus
subscription_status p =
    if not p.subscribed
    then unsubscribed
    else if is_some p.track
    then SubscriptionStatus.subscribed
    else desired

unfoldable pub permission_status : Publication → PermissionStatus
permission_status p = if p.allowed then PermissionStatus.allowed else not_allowed

unfoldable pub is_subscribed : Publication → Bool
is_subscribed p = is_some p.track

unfoldable pub is_desired : Publication → Bool
is_desired p = p.subscribed

abbrev status_eq : SubscriptionStatus → SubscriptionStatus → Bool
status_eq desired desired = true
status_eq SubscriptionStatus.subscribed SubscriptionStatus.subscribed = true
status_eq unsubscribed unsubscribed = true
status_eq _ _ = false

abbrev permission_eq : PermissionStatus → PermissionStatus → Bool
permission_eq PermissionStatus.allowed PermissionStatus.allowed = true
permission_eq not_allowed not_allowed = true
permission_eq _ _ = false

unfoldable pub emit_subscription_update : SubscriptionStatus → Publication → List PublicationEvent
unfolding subscription_status
emit_subscription_update old p =
    if status_eq old (subscription_status p)
    then []
    else on_status_changed old (subscription_status p) ∷ []

unfoldable pub emit_permission_update : PermissionStatus → Publication → List PublicationEvent
unfolding permission_status
emit_permission_update old p =
    if permission_eq old (permission_status p)
    then []
    else on_permission_changed old (permission_status p) ∷ []

-- The inner `set_track` of mod.rs: a track brings its identifier.
unfoldable pub put_track : Option Track → Publication → Publication
put_track none p = record p { track = none }
put_track (some t) p = record p { track = some t; sid = t.sid }

abbrev pub gone : Option Track → List PublicationEvent
gone none = []
gone (some t) = on_unsubscribed t ∷ []

abbrev arrived : Option Track → List PublicationEvent
arrived none = []
arrived (some t) = on_subscribed t ∷ []

unfoldable pub set_track : Option Track → Publication → List PublicationEvent × Publication
unfolding put_track emit_subscription_update emit_permission_update
set_track track p =
    let q = put_track track p in
    (
      gone p.track
          ++ (arrived track
              ++ (emit_subscription_update (subscription_status p) q
                  ++ emit_permission_update (permission_status p) q)),
      q,
    )

-- The inner `update_info` of mod.rs.
unfoldable pub put_info : TrackInfo → Publication → Publication
put_info info p = record p {
  kind = info.kind;
  source = info.source;
  encryption_type = info.encryption;
  proto_info = info;
  name = info.name;
  sid = info.sid;
  width = info.width;
  height = info.height;
  mime_type = info.mime_type;
  simulcasted = info.simulcast;
}

abbrev mute_change : (old new : Bool) → List PublicationEvent
mute_change true true = []
mute_change false false = []
mute_change false true = on_muted ∷ []
mute_change true false = on_unmuted ∷ []

unfoldable pub update_info : TrackInfo → Publication → List PublicationEvent × Publication
unfolding put_info
update_info info p =
    (mute_change p.muted info.muted, record (put_info info p) { muted = info.muted })

unfoldable pub set_subscribed : Bool → Publication → List PublicationEvent × Publication
unfolding set_track
set_subscribed wanted p =
    let p1 = record p { subscribed = wanted; allowed = if wanted then true else p.allowed } in
    let (events, q) = set_track none p1 in
    (
      events
          ++ on_update_needed wanted
            ∷ (emit_subscription_update (subscription_status p) q
                ++ emit_permission_update (permission_status p) q),
      q,
    )
