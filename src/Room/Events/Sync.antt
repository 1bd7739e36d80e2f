-- ===== src/Room/Events/Sync.antt =====
-- room/mod.rs: the subscriptions that are sent to the server after a resumption.
use livekit_rust.Base.{
  ◌≡◌, refl, Bool, true, false, not, ◌||◌, List, [], ◌∷◌, ◌++◌, some, String, arith, ◌==◌, eq_iff,
  Option-cases,
}
use livekit_rust.Base.Dict
use livekit_rust.Base.Dict.{Dict}
use livekit_rust.Base.Outcome.{ok}
use livekit_rust.Room.Publication.{Publication, Track, is_desired}
use livekit_rust.Room.Participant.{Participant}
use livekit_rust.Room.Session.{Session, LastInfo}
use livekit_rust.Room.Events.{SyncState, differing, differing_tracks, send_sync_state}

abbrev pub lists : String → List String → Bool
lists k [] = false
lists k (j ∷ js) = j == k || lists k js

lists-append : (k : String) (xs ys : List String) → lists k (xs ++ ys) ≡ (lists k xs || lists k ys)
lists-append k [] ys = refl
lists-append k (x ∷ xs) ys = ground (arith, lists-append k xs ys)

differing-lists :
    (auto : Bool) (tsid : String) (q : Publication) (m : Dict Publication)
    → Dict.get tsid m ≡ some q
    → q.subscribed ≡ not auto
    → lists tsid (differing auto m) ≡ true
unfolding differing Dict.get is_desired
differing-lists auto tsid q [] h d = cc
differing-lists auto tsid q ((k, r) ∷ m) h d =
    ground (arith, eq_iff k tsid, differing-lists auto tsid q m)

differing_tracks-lists :
    (auto : Bool) (psid tsid : String) (p : Participant) (q : Publication) (m : Dict Participant)
    → Dict.get psid m ≡ some p
    → Dict.get tsid p.tracks ≡ some q
    → q.subscribed ≡ not auto
    → lists tsid (differing_tracks auto m) ≡ true
unfolding differing_tracks Dict.get
differing_tracks-lists auto psid tsid p q [] h g d = cc
differing_tracks-lists auto psid tsid p q ((k, r) ∷ m) h g d = ground (
  arith,
  eq_iff k psid,
  lists-append tsid (differing auto r.tracks) (differing_tracks auto m),
  differing-lists auto tsid q r.tracks,
  differing_tracks-lists auto psid tsid p q m,
)

-- What is sent to the server after a resumption asks it, with the opposite of `auto_subscribe`, for
-- every publication in the room whose desire is that opposite.
pub sync_state_lists :
    (info : LastInfo) (published : List String) (r : Session) (s : SyncState) (psid tsid : String)
    (p : Participant) (q : Publication)
    → send_sync_state info published r ≡ ok (some s)
    → Dict.get psid r.participants ≡ some p
    → Dict.get tsid p.tracks ≡ some q
    → q.subscribed ≡ not r.auto_subscribe
    → (lists tsid s.track_sids ≡ true) × (s.subscribe ≡ not r.auto_subscribe)
unfolding send_sync_state
sync_state_lists info published r s psid tsid p q sent h g d = ground (
  arith,
  differing_tracks-lists r.auto_subscribe psid tsid p q r.participants h g d,
  Option-cases info.subscriber_answer,
  Option-cases info.subscriber_offer,
)

-- In a room that subscribes automatically, a publication that was never subscribed to by hand, and
-- has its track all the same, is among those that a resumption asks the server to unsubscribe from.
-- Assumed: the subscriber's peer connection has an offer and an answer, without which no state is
-- sent.
pub resumption_unsubscribes :
    (info : LastInfo) (published : List String) (r : Session) (answer offer : String)
    (psid tsid : String) (p : Participant) (q : Publication) (t : Track)
    → info.subscriber_answer ≡ some answer
    → info.subscriber_offer ≡ some offer
    → r.auto_subscribe ≡ true
    → Dict.get psid r.participants ≡ some p
    → Dict.get tsid p.tracks ≡ some q
    → q.track ≡ some t
    → q.subscribed ≡ false
    → (s : SyncState) × (send_sync_state info published r ≡ ok (some s))
      × (lists tsid s.track_sids ≡ true)
      × (s.subscribe ≡ false)
unfolding send_sync_state
resumption_unsubscribes info published r answer offer psid tsid p q t ha ho auto h g has d = (
  record {
    answer = answer;
    offer = offer;
    track_sids = differing_tracks r.auto_subscribe r.participants;
    subscribe = not r.auto_subscribe;
    publish_tracks = published;
    data_channels = info.data_channels_info;
  },
  ground arith,
  differing_tracks-lists r.auto_subscribe psid tsid p q r.participants h g (ground arith),
  ground arith,
)
