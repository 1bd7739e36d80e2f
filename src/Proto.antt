-- ===== src/Proto.antt =====
-- livekit/src/proto.rs and livekit/src/room/id.rs: the conversions between the protocol's enums and
-- those of the library, and the identifiers that are checked by their prefix.
mod Laws
use text.Mathlib.Text.{starts_with}
use livekit_rust.Base.{Bool, true, false, String, Option, none, some, if◌then◌else◌, ◌⊎◌, inl, inr}

pub data ProtoConnectionQuality : Type 0 where
  excellent_proto good_proto poor_proto : ProtoConnectionQuality

pub data ConnectionQuality : Type 0 where
  excellent good poor : ConnectionQuality

pub data TrackType : Type 0 where
  audio_type video_type data_type : TrackType

pub data TrackKind : Type 0 where
  audio video : TrackKind

pub data ProtoTrackSource : Type 0 where
  unknown_proto camera_proto microphone_proto screen_share_proto : ProtoTrackSource
  screen_share_audio_proto : ProtoTrackSource

pub data TrackSource : Type 0 where
  unknown camera microphone screenshare screenshare_audio : TrackSource

pub data ProtoKind : Type 0 where
  reliable_proto lossy_proto : ProtoKind

pub data DataPacketKind : Type 0 where
  lossy reliable : DataPacketKind

pub data ProtoEncryption : Type 0 where
  none_proto gcm_proto custom_proto : ProtoEncryption

pub data EncryptionType : Type 0 where
  no_encryption gcm custom : EncryptionType

unfoldable pub quality_from : ProtoConnectionQuality → ConnectionQuality
quality_from excellent_proto = excellent
quality_from good_proto = good
quality_from poor_proto = poor

-- An error says that data tracks are not implemented.
unfoldable pub kind_try_from : TrackType → Option TrackKind
kind_try_from audio_type = some audio
kind_try_from video_type = some video
kind_try_from data_type = none

unfoldable pub type_from : TrackKind → TrackType
type_from audio = audio_type
type_from video = video_type

unfoldable pub source_from : ProtoTrackSource → TrackSource
source_from camera_proto = camera
source_from microphone_proto = microphone
source_from screen_share_proto = screenshare
source_from screen_share_audio_proto = screenshare_audio
source_from unknown_proto = unknown

unfoldable pub proto_source_from : TrackSource → ProtoTrackSource
proto_source_from camera = camera_proto
proto_source_from microphone = microphone_proto
proto_source_from screenshare = screen_share_proto
proto_source_from screenshare_audio = screen_share_audio_proto
proto_source_from unknown = unknown_proto

unfoldable pub proto_kind_from : DataPacketKind → ProtoKind
proto_kind_from lossy = lossy_proto
proto_kind_from reliable = reliable_proto

unfoldable pub packet_kind_from : ProtoKind → DataPacketKind
packet_kind_from lossy_proto = lossy
packet_kind_from reliable_proto = reliable

unfoldable pub encryption_from : ProtoEncryption → EncryptionType
encryption_from none_proto = no_encryption
encryption_from gcm_proto = gcm
encryption_from custom_proto = custom

unfoldable pub proto_encryption_from : EncryptionType → ProtoEncryption
proto_encryption_from no_encryption = none_proto
proto_encryption_from gcm = gcm_proto
proto_encryption_from custom = custom_proto

abbrev pub room_prefix : String
room_prefix = "RM_"

abbrev pub participant_prefix : String
participant_prefix = "PA_"

abbrev pub track_prefix : String
track_prefix = "TR_"

-- An identifier, or the text that was refused.
unfoldable pub sid_try_from : (prefix : String) → String → String ⊎ String
sid_try_from prefix value = if starts_with value prefix then inr value else inl value
