-- ===== src/Room/Participant/Keyed.antt =====
-- remote_participant.rs: where the publications of a participant stand, and who listens to them.
use livekit_rust.Base.{
  ℕ, ◌≡◌, refl, sym, subst, true, false, List, [], ◌∷◌, none, some, String, arith, eq_iff,
  Bool-cases, Option-cases, inl, inr, if_elim,
}
use livekit_rust.Base.Dict
use livekit_rust.Base.Dict.{Dict, keys, get-insert, get-remove}
use livekit_rust.Room.Publication
use livekit_rust.Room.Publication.{
  Publication, PublicationEvent, TrackInfo, Track, on_subscribed, on_unsubscribed,
  on_status_changed, on_permission_changed, on_update_needed, on_muted, on_unmuted,
}
use livekit_rust.Proto.{TrackKind}
use livekit_rust.Room.Participant.{
  Participant, ParticipantInfo, ParticipantEvent, put_info, unpublish_track, update_track,
  update_tracks, is_valid, unpublish_stale, update_info, add_publication, get_track_publication,
  add_subscribed_media_track, new, same_kind, remote_track,
}

-- A publication that stands where it belongs, and is listened to.
abbrev pub Placed : String → Publication → Type 0
Placed k q = (q.sid ≡ k) × (q.attached ≡ true)

abbrev pub WellKeyed : Participant → Type 0
WellKeyed p = (k : String) (q : Publication) → Dict.get k p.tracks ≡ some q → Placed k q

insert-WellKeyed :
    (sid : String) (r : Publication) (p : Participant)
    → WellKeyed p
    → Placed sid r
    → WellKeyed (record p { tracks = Dict.insert sid r p.tracks })
insert-WellKeyed sid r p w placed k q h =
    ground (arith, get-insert sid k r p.tracks, eq_iff sid k, w k q)

add_publication-WellKeyed :
    (q : Publication) (p : Participant) → WellKeyed p → WellKeyed (add_publication q p)
unfolding add_publication
add_publication-WellKeyed q p w = insert-WellKeyed q.sid _ p w (refl, refl)

remove-WellKeyed :
    (sid : String) (p : Participant)
    → WellKeyed p
    → WellKeyed (record p { tracks = Dict.remove sid p.tracks })
remove-WellKeyed sid p w k q h = ground (arith, get-remove sid k p.tracks, w k q)

pub new-WellKeyed :
    (sid identity name metadata : String) → WellKeyed (new sid identity name metadata)
unfolding new Dict.get
new-WellKeyed sid identity name metadata k q h = cc

pub update_track-WellKeyed :
    (t : TrackInfo) (p : Participant) → WellKeyed p → WellKeyed (update_track t p).1
unfolding update_track add_publication get_track_publication Publication.update_info Publication.new
update_track-WellKeyed t p w = elim (Option-cases (Dict.get t.sid p.tracks)) [
  | inl h ↦ rw (h, update_track) (insert-WellKeyed t.sid _ p w (refl, refl))
  | inr (q, h) ↦ rw (h, update_track) (insert-WellKeyed t.sid _ p w (refl, (w t.sid q h).1))
]

pub update_tracks-WellKeyed :
    (ts : List TrackInfo) (p : Participant) → WellKeyed p → WellKeyed (update_tracks ts p).1
unfolding update_tracks
update_tracks-WellKeyed [] p w = w
update_tracks-WellKeyed (t ∷ ts) p w =
    update_tracks-WellKeyed ts (update_track t p).1 (update_track-WellKeyed t p w)

unpublish_track-found :
    (sid : String) (p : Participant) (q : Publication)
    → Dict.get sid p.tracks ≡ some q
    → (unpublish_track sid p).1 ≡ record p { tracks = Dict.remove sid p.tracks }
unfolding unpublish_track
unpublish_track-found sid p q h = ground arith

pub unpublish_track-WellKeyed :
    (sid : String) (p : Participant) → WellKeyed p → WellKeyed (unpublish_track sid p).1
unfolding unpublish_track
unpublish_track-WellKeyed sid p w = elim (Option-cases (Dict.get sid p.tracks)) [
  | inl h ↦ rw (h, unpublish_track) w
  | inr (q, h) ↦ subst WellKeyed (sym (unpublish_track-found sid p q h)) (remove-WellKeyed sid p w)
]

unpublish_stale-WellKeyed :
    (valid : List TrackInfo) (sids : List String) (p : Participant)
    → WellKeyed p
    → WellKeyed (unpublish_stale valid sids p).1
unfolding unpublish_stale
unpublish_stale-WellKeyed valid [] p w = w
unpublish_stale-WellKeyed valid (sid ∷ sids) p w = unpublish_stale-WellKeyed valid sids _ (
    if_elim (λ (x : List ParticipantEvent × Participant). WellKeyed x.1) (is_valid sid valid)
      (λ _. w) (λ _. unpublish_track-WellKeyed sid p w))

pub put_info-WellKeyed :
    (info : ParticipantInfo) (p : Participant) → WellKeyed p → WellKeyed (put_info info p)
unfolding put_info
put_info-WellKeyed info p w = w

pub update_info-WellKeyed :
    (info : ParticipantInfo) (p : Participant) → WellKeyed p → WellKeyed (update_info info p).1
unfolding update_info put_info
update_info-WellKeyed info p w =
    unpublish_stale-WellKeyed info.tracks _ _
      (update_tracks-WellKeyed info.tracks (put_info info p) w)

add_subscribed-WellKeyed :
    (sid : String) (kind : TrackKind) (media : ℕ) (p : Participant) (events : List ParticipantEvent)
    (u : Participant)
    → WellKeyed p
    → add_subscribed_media_track sid kind media p ≡ some (events, u)
    → WellKeyed u
unfolding add_subscribed_media_track
add_subscribed-WellKeyed sid kind media p events u w h =
    elim (Option-cases (Dict.get sid p.tracks)) [
      | inl missing ↦ subst WellKeyed (unchanged missing) w
      | inr (q, found) ↦ elim (Bool-cases (same_kind q.kind kind)) [
        | inl same ↦ subst WellKeyed (added q found same) (
            add_publication-WellKeyed
              (Publication.set_track (some (remote_track q media)) (record q { attached = true })).1
              (add_publication q p) (add_publication-WellKeyed q p w))
        | inr other ↦ absurd (unreachable q found other)
      ]
    ]
  where
    unchanged : Dict.get sid p.tracks ≡ none → p ≡ u
    unchanged missing = ground arith

    added :
        (q : Publication)
        → Dict.get sid p.tracks ≡ some q
        → same_kind q.kind kind ≡ true
        → add_publication
            (Publication.set_track (some (remote_track q media)) (record q { attached = true })).1
            (add_publication q p)
          ≡ u
    added q found same = ground arith

    unreachable :
        (q : Publication) → Dict.get sid p.tracks ≡ some q → same_kind q.kind kind ≡ false → ⊥
    unreachable q found other = ground arith

-- Every publication of a new participant, and then after every update, unpublication and new media
-- track, stands under its own identifier and has the participant's handlers installed.
pub WellKeyed-kept :
    ((sid identity name metadata : String) → WellKeyed (new sid identity name metadata))
    × ((p : Participant)
        → WellKeyed p
        → ((info : ParticipantInfo) → WellKeyed (update_info info p).1)
          × ((sid : String) → WellKeyed (unpublish_track sid p).1)
          × ((sid : String) (kind : TrackKind) (media : ℕ) (events : List ParticipantEvent)
                (u : Participant)
              → add_subscribed_media_track sid kind media p ≡ some (events, u)
              → WellKeyed u))
WellKeyed-kept = (
  new-WellKeyed,
  (λ p w. (
    (λ info. update_info-WellKeyed info p w),
    (λ sid. unpublish_track-WellKeyed sid p w),
    (λ sid kind media events u. add_subscribed-WellKeyed sid kind media p events u w),
  )),
)
