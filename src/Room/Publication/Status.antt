-- ===== src/Room/Publication/Status.antt =====
-- publication/remote.rs: what the handlers' calls tell about a publication.
use livekit_rust.Base.{
  ◌≡◌, Bool, true, false, List, [], ◌∷◌, ◌++◌, Option, none, some, refl, ◌∙◌, arith,
}
use livekit_rust.Room.Publication.{
  Publication, PublicationEvent, TrackInfo, Track, SubscriptionStatus, PermissionStatus, desired,
  unsubscribed, on_subscribed, on_unsubscribed, on_status_changed, on_permission_changed,
  on_update_needed, on_muted, on_unmuted, new, subscription_status, permission_status,
  is_subscribed, is_desired, set_track, update_info, set_subscribed, gone,
}

-- What an observer knows of a publication, and what it learns from a call of a handler.
pub record View : Type 0 where
  pub track : Option Track
  pub muted : Bool
  pub status : SubscriptionStatus
  pub permission : PermissionStatus

abbrev pub learn : PublicationEvent → View → View
learn (on_subscribed t) v = record v { track = some t }
learn (on_unsubscribed t) v = record v { track = none }
learn (on_status_changed old new) v = record v { status = new }
learn (on_permission_changed old new) v = record v { permission = new }
learn (on_update_needed wanted) v = v
learn on_muted v = record v { muted = true }
learn on_unmuted v = record v { muted = false }

abbrev pub learn_all : List PublicationEvent → View → View
learn_all [] v = v
learn_all (ev ∷ evs) v = learn_all evs (learn ev v)

abbrev pub view : Publication → View
view p = record {
  track = p.track;
  muted = p.muted;
  status = subscription_status p;
  permission = permission_status p;
}

set_track-view :
    (t : Option Track) (p : Publication)
    → learn_all (set_track t p).0 (view p) ≡ view (set_track t p).1
unfolding set_track subscription_status permission_status
set_track-view t p = ground arith

update_info-view :
    (info : TrackInfo) (p : Publication)
    → learn_all (update_info info p).0 (view p) ≡ view (update_info info p).1
unfolding update_info subscription_status permission_status
update_info-view info p = ground arith

set_subscribed-view :
    (wanted : Bool) (p : Publication)
    → learn_all (set_subscribed wanted p).0 (view p) ≡ view (set_subscribed wanted p).1
unfolding set_subscribed subscription_status permission_status
set_subscribed-view wanted p = ground arith

-- An observer that starts with a publication's track, mute flag, status and permission, and learns
-- only from the calls of the handlers, knows all four after every operation.
pub handlers_tell_all :
    (p : Publication)
    → ((t : Option Track) → learn_all (set_track t p).0 (view p) ≡ view (set_track t p).1)
      × ((info : TrackInfo)
          → learn_all (update_info info p).0 (view p) ≡ view (update_info info p).1)
      × ((wanted : Bool)
          → learn_all (set_subscribed wanted p).0 (view p) ≡ view (set_subscribed wanted p).1)
handlers_tell_all p =
    ((λ t. set_track-view t p), (λ info. update_info-view info p), (λ b. set_subscribed-view b p))

-- What the room does to a publication without the application's call of `set_subscribed`.
pub data Operation : Type 0 where
  sets_track : Option Track → Operation
  updates_info : TrackInfo → Operation

abbrev pub operate : Operation → Publication → Publication
operate (sets_track track) p = (set_track track p).1
operate (updates_info info) p = (update_info info p).1

unfoldable pub operate_all : List Operation → Publication → Publication
operate_all [] p = p
operate_all (o ∷ os) p = operate_all os (operate o p)

operate-wish :
    (o : Operation) (p : Publication)
    → ((operate o p).subscribed ≡ p.subscribed) × ((operate o p).allowed ≡ p.allowed)
unfolding set_track update_info
operate-wish (sets_track none) p = (refl, refl)
operate-wish (sets_track (some t)) p = (refl, refl)
operate-wish (updates_info info) p = (refl, refl)

operate_all-wish :
    (os : List Operation) (p : Publication)
    → ((operate_all os p).subscribed ≡ p.subscribed) × ((operate_all os p).allowed ≡ p.allowed)
unfolding operate_all
operate_all-wish [] p = (refl, refl)
operate_all-wish (o ∷ os) p =
    let (wish, may) = operate-wish o p in
    let (wishes, mays) = operate_all-wish os (operate o p) in (wishes ∙ wish, mays ∙ may)

arrival_unseen :
    (p : Publication) (t : Track)
    → p.subscribed ≡ false
    → let (events, q) = set_track (some t) p in
      (is_subscribed q ≡ true)
      × (subscription_status q ≡ unsubscribed)
      × (is_desired q ≡ false)
      × (events ≡ gone p.track ++ on_subscribed t ∷ [])
unfolding set_track subscription_status permission_status is_subscribed is_desired
arrival_unseen p t unwanted = ground arith

-- A media track that arrives at a publication for which nobody has called `set_subscribed`, whatever
-- tracks came and went and whatever updates there were since it was announced, makes it subscribed
-- by `is_subscribed`, while its status stays `Unsubscribed`, it is not desired, and no change of
-- status is reported: the handlers hear of the old track, if there was one, and of the new one.
pub automatic_subscription_unseen :
    (info : TrackInfo) (os : List Operation) (t : Track)
    → let p = operate_all os (new info none) in
      let (events, q) = set_track (some t) p in
      (is_subscribed q ≡ true)
      × (subscription_status q ≡ unsubscribed)
      × (is_desired q ≡ false)
      × (events ≡ gone p.track ++ on_subscribed t ∷ [])
unfolding new
automatic_subscription_unseen info os t =
    arrival_unseen (operate_all os (new info none)) t (operate_all-wish os (new info none)).0

-- To subscribe again to a publication that has its track takes the track away, and reports the
-- change from `Subscribed` to `Desired` twice.
pub resubscription_drops_track :
    (p : Publication) (t : Track)
    → p.track ≡ some t
    → p.subscribed ≡ true
    → p.allowed ≡ true
    → let (events, q) = set_subscribed true p in
      (q.track ≡ none)
      × (events
          ≡ on_unsubscribed t
            ∷ on_status_changed SubscriptionStatus.subscribed desired
            ∷ on_update_needed true
            ∷ on_status_changed SubscriptionStatus.subscribed desired
            ∷ [])
unfolding set_subscribed subscription_status permission_status
resubscription_drops_track p t has wanted may = ground arith
