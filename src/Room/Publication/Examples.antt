-- ===== src/Room/Publication/Examples.antt =====
-- publication/remote.rs at a camera track.
use livekit_rust.Base.{◌≡◌, refl, true, false, [], ◌∷◌, none, some}
use livekit_rust.Proto.{video, camera, no_encryption}
use livekit_rust.Room.Publication.{
  update_info, on_unsubscribed, Publication, TrackInfo, Track, unsubscribed, on_subscribed, new,
  set_track, set_subscribed, subscription_status, is_subscribed, is_desired,
}
use livekit_rust.Room.Publication.Status.{
  learn_all, view, handlers_tell_all, automatic_subscription_unseen, operate_all, sets_track,
  updates_info, resubscription_drops_track,
}

abbrev info : TrackInfo
info = record {
  sid = "TR_1";
  name = "cam";
  kind = video;
  source = camera;
  muted = false;
  simulcast = true;
  width = 1280;
  height = 720;
  mime_type = "video/vp8";
  encryption = no_encryption;
}

abbrev track : Track
track = record {
  sid = "TR_1";
  name = "cam";
  kind = video;
  source = camera;
  enabled = true;
  media = 1;
}

abbrev watched : Publication
watched = record (new info (some track)) { subscribed = true }

handlers_tell_all_example :
    learn_all (set_track (some track) (new info none)).0 (view (new info none))
    ≡ view (set_track (some track) (new info none)).1
handlers_tell_all_example = (handlers_tell_all (new info none)).0 (some track)

automatic_subscription_unseen_example :
    let p = operate_all (sets_track (some track) ∷ updates_info info ∷ []) (new info none) in
    let (events, q) = set_track (some track) p in
    (is_subscribed q ≡ true)
    × (subscription_status q ≡ unsubscribed)
    × (is_desired q ≡ false)
    × (events ≡ on_unsubscribed track ∷ on_subscribed track ∷ [])
unfolding operate_all set_track update_info new
automatic_subscription_unseen_example =
    automatic_subscription_unseen info (sets_track (some track) ∷ updates_info info ∷ []) track

resubscription_drops_track_example : (set_subscribed true watched).1.track ≡ none
unfolding new
resubscription_drops_track_example = (resubscription_drops_track watched track refl refl refl).0
