-- ===== src/Room/Participant/Accounts.antt =====
-- remote_participant.rs: the events of a participant and its publications.
use livekit_rust.Base.{
  ◌≡◌, refl, ap, ◌∙◌, Bool, true, false, List, [], ◌∷◌, ◌++◌, Option, none, some, String, arith,
  if◌then◌else◌, ◌==◌, eq_iff, Bool-cases, Option-cases, inl, inr, if_elim,
}
use livekit_rust.Base.Dict
use livekit_rust.Base.Dict.{Dict, keys, get-insert, get-remove}
use livekit_rust.Room.Publication
use livekit_rust.Room.Publication.{
  Publication, PublicationEvent, TrackInfo, Track, on_subscribed, on_unsubscribed,
  on_status_changed, on_permission_changed, on_update_needed, on_muted, on_unmuted,
}
use livekit_rust.Room.Participant.Known.{has_track, update_track-has, unpublish_track-has}
use livekit_rust.Room.Participant.Keyed.{
  WellKeyed, update_tracks-WellKeyed, unpublish_track-WellKeyed, put_info-WellKeyed,
}
use livekit_rust.Room.Participant.{
  Participant, ParticipantInfo, ParticipantEvent, track_published, track_unpublished,
  track_subscribed, track_unsubscribed, track_subscription_failed, track_muted, track_unmuted,
  update_subscription, put_info, forward_all, heard, unpublish_track, update_track, update_tracks,
  is_valid, unpublish_stale, update_info, drop_track,
}

-- The room's knowledge of the publication `k`, from the events.
abbrev pub known : String → List ParticipantEvent → Bool → Bool
known k [] b = b
known k (track_published sid ∷ evs) b = known k evs (if sid == k then true else b)
known k (track_unpublished sid ∷ evs) b = known k evs (if sid == k then false else b)
known k (track_subscribed sid t ∷ evs) b = known k evs b
known k (track_unsubscribed sid t ∷ evs) b = known k evs b
known k (track_subscription_failed sid ∷ evs) b = known k evs b
known k (track_muted sid ∷ evs) b = known k evs b
known k (track_unmuted sid ∷ evs) b = known k evs b
known k (update_subscription sid w ∷ evs) b = known k evs b

known-append :
    (k : String) (xs ys : List ParticipantEvent) (b : Bool)
    → known k (xs ++ ys) b ≡ known k ys (known k xs b)
known-append k [] ys b = refl
known-append k (track_published sid ∷ xs) ys b = known-append k xs ys _
known-append k (track_unpublished sid ∷ xs) ys b = known-append k xs ys _
known-append k (track_subscribed sid t ∷ xs) ys b = known-append k xs ys b
known-append k (track_unsubscribed sid t ∷ xs) ys b = known-append k xs ys b
known-append k (track_subscription_failed sid ∷ xs) ys b = known-append k xs ys b
known-append k (track_muted sid ∷ xs) ys b = known-append k xs ys b
known-append k (track_unmuted sid ∷ xs) ys b = known-append k xs ys b
known-append k (update_subscription sid w ∷ xs) ys b = known-append k xs ys b

known-forward :
    (k sid : String) (evs : List PublicationEvent) (b : Bool) → known k (forward_all sid evs) b ≡ b
unfolding forward_all
known-forward k sid [] b = refl
known-forward k sid (on_subscribed t ∷ evs) b = known-forward k sid evs b
known-forward k sid (on_unsubscribed t ∷ evs) b = known-forward k sid evs b
known-forward k sid (on_status_changed o n ∷ evs) b = known-forward k sid evs b
known-forward k sid (on_permission_changed o n ∷ evs) b = known-forward k sid evs b
known-forward k sid (on_update_needed w ∷ evs) b = known-forward k sid evs b
known-forward k sid (on_muted ∷ evs) b = known-forward k sid evs b
known-forward k sid (on_unmuted ∷ evs) b = known-forward k sid evs b

known-heard :
    (k : String) (q : Publication) (evs : List PublicationEvent) (b : Bool)
    → known k (heard q evs) b ≡ b
known-heard k q evs b =
    if_elim (λ x. known k x b ≡ b) q.attached (λ _. known-forward k q.sid evs b) (λ _. refl)

known-drop_track : (k : String) (q : Publication) (b : Bool) → known k (drop_track q) b ≡ b
known-drop_track k q b = go q.track
  where
    go :
        (o : Option Track)
        → known k
            (elim o [
              | none ↦ []
              | some t ↦
                  heard q
                    (Publication.set_track none
                      (record q { track = some (record t { enabled = false }) })).0
            ])
            b
          ≡ b
    go none = refl
    go (some t) = known-heard k q _ b

update_track-known :
    (k : String) (t : TrackInfo) (p : Participant)
    → known k (update_track t p).0 (has_track k p) ≡ has_track k (update_track t p).1
unfolding update_track
update_track-known k t p = elim (Option-cases (Dict.get t.sid p.tracks)) [
  | inl h ↦ ground (arith, update_track-has k t p)
  | inr (q, h) ↦ ground (
    arith,
    update_track-has k t p,
    eq_iff t.sid k,
    known-heard k (Publication.update_info t q).1 (Publication.update_info t q).0 (has_track k p),
  )
]

update_tracks-known :
    (k : String) (ts : List TrackInfo) (p : Participant)
    → known k (update_tracks ts p).0 (has_track k p) ≡ has_track k (update_tracks ts p).1
unfolding update_tracks
update_tracks-known k [] p = refl
update_tracks-known k (t ∷ ts) p =
    known-append k (update_track t p).0 _ (has_track k p)
    ∙ ap (known k (update_tracks ts (update_track t p).1).0) (update_track-known k t p)
    ∙ update_tracks-known k ts (update_track t p).1

unpublish_track-known :
    (k sid : String) (p : Participant)
    → WellKeyed p
    → known k (unpublish_track sid p).0 (has_track k p) ≡ has_track k (unpublish_track sid p).1
unfolding unpublish_track
unpublish_track-known k sid p w = elim (Option-cases (Dict.get sid p.tracks)) [
  | inl h ↦ ground arith
  | inr (q, h) ↦ ground (
    arith,
    unpublish_track-has k sid p,
    known-append k (drop_track q) (track_unpublished q.sid ∷ []) (has_track k p),
    known-drop_track k q (has_track k p),
    w sid q h,
  )
]

unpublish_stale-known :
    (k : String) (valid : List TrackInfo) (sids : List String) (p : Participant)
    → WellKeyed p
    → known k (unpublish_stale valid sids p).0 (has_track k p)
      ≡ has_track k (unpublish_stale valid sids p).1
unfolding unpublish_stale
unpublish_stale-known k valid [] p w = refl
unpublish_stale-known k valid (sid ∷ sids) p w = elim (Bool-cases (is_valid sid valid)) [
  | inl kept ↦ rw kept (unpublish_stale-known k valid sids p w)
  | inr stale ↦ rw stale (
      known-append k (unpublish_track sid p).0 _ (has_track k p)
      ∙ ap (known k (unpublish_stale valid sids (unpublish_track sid p).1).0)
          (unpublish_track-known k sid p w)
      ∙ unpublish_stale-known k valid sids (unpublish_track sid p).1
          (unpublish_track-WellKeyed sid p w))
]

same :
    (k : String) (info : ParticipantInfo) (p : Participant)
    → has_track k p ≡ has_track k (put_info info p)
unfolding put_info
same k info p = refl

-- The room is told of every change: whoever knows which publications a participant has, and then
-- learns only from the published and unpublished events of an update, knows it afterwards too.
-- Assumed: every publication stands under its own identifier.
pub update_info-known :
    (k : String) (info : ParticipantInfo) (p : Participant)
    → WellKeyed p
    → known k (update_info info p).0 (has_track k p) ≡ has_track k (update_info info p).1
unfolding update_info
update_info-known k info p w =
    let p1 = (update_tracks info.tracks (put_info info p)).1 in
    known-append k (update_tracks info.tracks (put_info info p)).0 _ (has_track k p)
    ∙ ap (known k (unpublish_stale info.tracks (keys p1.tracks) p1).0) (
        ap (known k (update_tracks info.tracks (put_info info p)).0) (same k info p)
        ∙ update_tracks-known k info.tracks (put_info info p))
    ∙ unpublish_stale-known k info.tracks (keys p1.tracks) p1
        (update_tracks-WellKeyed info.tracks (put_info info p) (put_info-WellKeyed info p w))
