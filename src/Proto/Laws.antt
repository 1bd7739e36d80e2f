-- ===== src/Proto/Laws.antt =====
-- proto.rs: the conversions in both directions.
use mathlib.Core.Option
use livekit_rust.Base.{◌≡◌, Option, none, some, arith}
use livekit_rust.Proto.{
  TrackType, TrackKind, data_type, ProtoTrackSource, TrackSource, ProtoKind, DataPacketKind,
  ProtoEncryption, EncryptionType, kind_try_from, type_from, source_from, proto_source_from,
  proto_kind_from, packet_kind_from, encryption_from, proto_encryption_from,
}

-- A track type that a media track can have.
abbrev media_type : TrackType → Option TrackType
media_type data_type = none
media_type t = some t

-- Kinds, sources, packet kinds and encryption types come back unchanged from the protocol's enums,
-- and the protocol's come back from the library's; of the track types those that convert at all,
-- which is every one but that of data tracks.
pub conversions_round_trip :
    ((k : TrackKind) → kind_try_from (type_from k) ≡ some k)
    × ((t : TrackType) → Option.map type_from (kind_try_from t) ≡ media_type t)
    × ((s : TrackSource) → source_from (proto_source_from s) ≡ s)
    × ((s : ProtoTrackSource) → proto_source_from (source_from s) ≡ s)
    × ((k : DataPacketKind) → packet_kind_from (proto_kind_from k) ≡ k)
    × ((k : ProtoKind) → proto_kind_from (packet_kind_from k) ≡ k)
    × ((e : EncryptionType) → encryption_from (proto_encryption_from e) ≡ e)
    × ((e : ProtoEncryption) → proto_encryption_from (encryption_from e) ≡ e)
unfolding kind_try_from type_from source_from proto_source_from proto_kind_from packet_kind_from
    encryption_from proto_encryption_from
conversions_round_trip = (
  (λ k. ground arith),
  (λ t. ground arith),
  (λ s. ground arith),
  (λ s. ground arith),
  (λ k. ground arith),
  (λ k. ground arith),
  (λ e. ground arith),
  (λ e. ground arith),
)
