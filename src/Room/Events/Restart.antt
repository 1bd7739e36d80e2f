-- ===== src/Room/Events/Restart.antt =====
-- room/mod.rs: the participants after a restart.
use livekit_rust.Base.{
  ◌≡◌, refl, ap, ◌∙◌, Bool, true, false, not, ◌&&◌, ◌||◌, List, [], ◌∷◌, some, String, arith,
  is_some, ◌==◌, eq_iff, Option-cases, inl, inr, if_elim,
}
use livekit_rust.Base.Dict
use livekit_rust.Base.Dict.{Dict, keys}
use livekit_rust.Room.Participant.{Participant, unpublish_track}
use livekit_rust.Room.Participant.Sids.{unpublish_track-sid}
use livekit_rust.Room.Session.{
  Session, ConnectionState, reconnecting, RoomEvent, room_reconnecting, state_eq, unpublish_all,
  handle_participant_disconnect, update_connection_state,
}
use livekit_rust.Room.Session.Keyed.{RoomKeyed}
use livekit_rust.Room.Session.Presence.{has_participant, has-disconnect}
use livekit_rust.Room.Events.{disconnect_all, handle_restarting}

unpublish_all-sid : (sids : List String) (p : Participant) → (unpublish_all sids p).1.sid ≡ p.sid
unfolding unpublish_all
unpublish_all-sid [] p = refl
unpublish_all-sid (sid ∷ sids) p =
    unpublish_all-sid sids (unpublish_track sid p).1 ∙ unpublish_track-sid sid p

named : String → Dict Participant → Bool
named k [] = false
named k ((j, p) ∷ m) = p.sid == k || named k m

has-disconnect_all :
    (k : String) (m : Dict Participant) (r : Session)
    → has_participant k (disconnect_all m r).1 ≡ (has_participant k r && not (named k m))
unfolding disconnect_all named
has-disconnect_all k [] r = ground arith
has-disconnect_all k ((j, p) ∷ m) r = ground (
  arith,
  has-disconnect_all k m (handle_participant_disconnect p r).1,
  has-disconnect k p r,
  unpublish_all-sid (keys p.tracks) p,
)

named-get :
    (k : String) (p : Participant) (m : Dict Participant)
    → Dict.get k m ≡ some p
    → p.sid ≡ k
    → named k m ≡ true
unfolding Dict.get named
named-get k p [] h own = cc
named-get k p ((j, q) ∷ m) h own = ground (arith, eq_iff j k, eq_iff q.sid k, named-get k p m)

update_state-participants :
    (s : ConnectionState) (more : List RoomEvent) (r : Session)
    → (update_connection_state s more r).1.participants ≡ r.participants
unfolding update_connection_state
update_state-participants s more r =
    if_elim (λ (x : List RoomEvent × Session). x.1.participants ≡ r.participants)
      (state_eq r.state s) (λ _. refl) (λ _. refl)

-- When the engine restarts, nobody is left in the room: every participant has been removed.
-- Assumed: every participant stands under its own identifier.
pub restart_empties :
    (k : String) (r : Session) → RoomKeyed r → has_participant k (handle_restarting r).1 ≡ false
unfolding handle_restarting
restart_empties k r w =
    ap (λ m. is_some (Dict.get k m))
      (update_state-participants reconnecting (room_reconnecting ∷ [])
        (disconnect_all r.participants r).1)
    ∙ has-disconnect_all k r.participants r
    ∙ elim (Option-cases (Dict.get k r.participants)) [
      | inl nobody ↦ ground arith
      | inr (p, found) ↦ ground (arith, named-get k p r.participants found (w k p found).0)
    ]
