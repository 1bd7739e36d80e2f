-- ===== src/Room/Participant/Known.antt =====
-- remote_participant.rs: which publications a participant has after an operation.
use livekit_rust.Base.{
  ◌≡◌, refl, Bool, true, false, not, ◌&&◌, ◌||◌, List, [], ◌∷◌, none, String, arith, is_some, ◌==◌,
  eq_iff, Bool-cases, Option-cases, inl, inr,
}
use livekit_rust.Base.Dict
use livekit_rust.Base.Dict.{Dict, keys, get-insert, get-remove}
use livekit_rust.Room.Publication
use livekit_rust.Room.Publication.{Publication, TrackInfo}
use livekit_rust.Room.Participant.{
  Participant, ParticipantInfo, put_info, unpublish_track, update_track, update_tracks, is_valid,
  unpublish_stale, update_info, add_publication, get_track_publication,
}

abbrev pub has_track : String → Participant → Bool
has_track k p = is_some (Dict.get k p.tracks)

abbrev mem_key : String → List String → Bool
mem_key k [] = false
mem_key k (j ∷ js) = j == k || mem_key k js

get-key : (k : String) (m : Dict Publication) → mem_key k (keys m) ≡ is_some (Dict.get k m)
unfolding Dict.get
get-key k [] = refl
get-key k ((j, q) ∷ m) = ground (arith, get-key k m)

has-insert :
    (sid k : String) (q : Publication) (m : Dict Publication)
    → is_some (Dict.get k (Dict.insert sid q m)) ≡ (is_some (Dict.get k m) || sid == k)
has-insert sid k q m = ground (arith, get-insert sid k q m)

pub update_track-has :
    (k : String) (t : TrackInfo) (p : Participant)
    → has_track k (update_track t p).1 ≡ (has_track k p || t.sid == k)
unfolding update_track add_publication Publication.new get_track_publication
update_track-has k t p = elim (Option-cases (Dict.get t.sid p.tracks)) [
  | inl h ↦
      ground
        (arith, has-insert t.sid k (record (Publication.new t none) { attached = true }) p.tracks)
  | inr (q, h) ↦ ground (arith, has-insert t.sid k (Publication.update_info t q).1 p.tracks)
]

update_tracks-has :
    (k : String) (ts : List TrackInfo) (p : Participant)
    → has_track k (update_tracks ts p).1 ≡ (has_track k p || is_valid k ts)
unfolding update_tracks
update_tracks-has k [] p = ground arith
update_tracks-has k (t ∷ ts) p =
    ground (arith, update_tracks-has k ts (update_track t p).1, update_track-has k t p)

pub unpublish_track-has :
    (k sid : String) (p : Participant)
    → has_track k (unpublish_track sid p).1 ≡ (has_track k p && not (sid == k))
unfolding unpublish_track
unpublish_track-has k sid p = elim (Option-cases (Dict.get sid p.tracks)) [
  | inl h ↦ ground (arith, eq_iff sid k)
  | inr (q, h) ↦ ground (arith, get-remove sid k p.tracks)
]

unpublish_stale-has :
    (k : String) (valid : List TrackInfo) (sids : List String) (p : Participant)
    → has_track k (unpublish_stale valid sids p).1
      ≡ (has_track k p && (not (mem_key k sids) || is_valid k valid))
unfolding unpublish_stale
unpublish_stale-has k valid [] p = ground arith
unpublish_stale-has k valid (sid ∷ sids) p = elim (Bool-cases (is_valid sid valid)) [
  | inl kept ↦ ground (arith, kept, eq_iff sid k, unpublish_stale-has k valid sids p)
  | inr stale ↦ ground (
    arith,
    stale,
    eq_iff sid k,
    unpublish_stale-has k valid sids (unpublish_track sid p).1,
    unpublish_track-has k sid p,
  )
]

-- After an update a participant has exactly the publications that the update lists.
pub update_info-tracks :
    (k : String) (info : ParticipantInfo) (p : Participant)
    → has_track k (update_info info p).1 ≡ is_valid k info.tracks
unfolding update_info
update_info-tracks k info p =
    let p1 = (update_tracks info.tracks (put_info info p)).1 in
    ground (
      arith,
      unpublish_stale-has k info.tracks (keys p1.tracks) p1,
      get-key k p1.tracks,
      update_tracks-has k info.tracks (put_info info p),
    )
