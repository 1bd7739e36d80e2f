-- ===== src/Room/Session/Presence.antt =====
-- room/mod.rs: the participants and the state of a room, and the events about them.
use livekit_rust.Base.{
  ◌≡◌, refl, sym, ap, ◌∙◌, Bool, true, false, not, ◌&&◌, ◌||◌, List, [], ◌∷◌, ◌++◌, Option, none,
  some, String, arith, is_some, if◌then◌else◌, ◌==◌, eq_iff, if_elim,
}
use livekit_rust.Base.Dict
use livekit_rust.Base.Dict.{Dict, keys, get-insert, get-remove}
use livekit_rust.Room.Participant
use livekit_rust.Room.Participant.{Participant, ParticipantInfo, ParticipantEvent}
use livekit_rust.Room.Session.{
  Session, Handler, ConnectionState, state_eq, RoomEvent, participant_connected,
  participant_disconnected, of_participant, connection_state_changed, ◌then_do◌, tell,
  unpublish_all, create_participant, handle_participant_disconnect, update_present, update_remote,
  is_local, update_participant, handle_participant_update,
}

-- What somebody believes after some events, who starts from `b`.
abbrev pub believe : {B : Type 0} → (RoomEvent → B → B) → List RoomEvent → B → B
believe see [] b = b
believe see (ev ∷ evs) b = believe see evs (see ev b)

-- Whether `k` is in the room, from the events.
abbrev pub meet : String → RoomEvent → Bool → Bool
meet k (participant_connected sid) b = if sid == k then true else b
meet k (participant_disconnected sid) b = if sid == k then false else b
meet k _ b = b

abbrev pub has_participant : String → Session → Bool
has_participant k r = is_some (Dict.get k r.participants)

-- The state of the room, from the events; `none` when one of them changes nothing.
abbrev pub follow : RoomEvent → Option ConnectionState → Option ConnectionState
follow (connection_state_changed t) none = none
follow (connection_state_changed t) (some s) = if state_eq s t then none else some t
follow _ s = s

abbrev pub room_state : Session → Option ConnectionState
room_state r = some r.state

-- The events of a handler say what it does to `view`.
abbrev pub Tells : {B : Type 0} → (RoomEvent → B → B) → (Session → B) → Handler → Type 0
Tells see view h = (r : Session) → believe see (h r).0 (view r) ≡ view (h r).1

pub believe-append :
    {B : Type 0} (see : RoomEvent → B → B) (xs ys : List RoomEvent) (b : B)
    → believe see (xs ++ ys) b ≡ believe see ys (believe see xs b)
believe-append see [] ys b = refl
believe-append see (x ∷ xs) ys b = believe-append see xs ys (see x b)

pub then-Tells :
    {B : Type 0} (see : RoomEvent → B → B) (view : Session → B) (f g : Handler)
    → Tells see view f
    → Tells see view g
    → Tells see view (f then_do g)
then-Tells see view f g tf tg r =
    believe-append see (f r).0 (g (f r).1).0 (view r)
    ∙ ap (believe see (g (f r).1).0) (tf r)
    ∙ tg (f r).1

pub believe-tell :
    {B : Type 0} (see : RoomEvent → B → B)
    → ((sid : String) (ev : ParticipantEvent) (b : B) → see (of_participant sid ev) b ≡ b)
    → (sid : String) (evs : List ParticipantEvent) (b : B) → believe see (tell sid evs) b ≡ b
believe-tell see inert sid [] b = refl
believe-tell see inert sid (ev ∷ evs) b =
    ap (believe see (tell sid evs)) (inert sid ev b) ∙ believe-tell see inert sid evs b

pub has-insert :
    (k sid : String) (q : Participant) (r : Session)
    → is_some (Dict.get k (Dict.insert sid q r.participants)) ≡ (has_participant k r || sid == k)
has-insert k sid q r = ground (arith, get-insert sid k q r.participants)

pub has-disconnect :
    (k : String) (p : Participant) (r : Session)
    → has_participant k (handle_participant_disconnect p r).1
      ≡ (has_participant k r && not ((unpublish_all (keys p.tracks) p).1.sid == k))
unfolding handle_participant_disconnect
has-disconnect k p r =
    ground (arith, get-remove (unpublish_all (keys p.tracks) p).1.sid k r.participants)

pub disconnect-meet :
    (k : String) (p : Participant)
    → Tells (meet k) (has_participant k) (handle_participant_disconnect p)
unfolding handle_participant_disconnect
disconnect-meet k p r =
    let (events, q) = unpublish_all (keys p.tracks) p in
    believe-append (meet k) (tell p.sid events) (participant_disconnected q.sid ∷ [])
      (has_participant k r)
    ∙ ap (λ b. if q.sid == k then false else b)
        (believe-tell (meet k) (λ _ _ _. refl) p.sid events (has_participant k r))
    ∙ ground (arith, has-disconnect k p r)

update_present-meet :
    (k : String) (pi : ParticipantInfo) (p : Participant) (r : Session)
    → believe (meet k) (update_present pi p r).0 (has_participant k r || pi.sid == k)
      ≡ has_participant k (update_present pi p r).1
unfolding update_present
update_present-meet k pi p r =
    let (events, q) = Participant.update_info pi p in
    believe-tell (meet k) (λ _ _ _. refl) q.sid events (has_participant k r || pi.sid == k)
    ∙ sym (has-insert k pi.sid q r)

update_remote-meet :
    (k : String) (pi : ParticipantInfo) (o : Option Participant) (r : Session)
    → Dict.get pi.sid r.participants ≡ o
    → believe (meet k) (update_remote pi o r).0 (has_participant k r)
      ≡ has_participant k (update_remote pi o r).1
unfolding update_remote create_participant
update_remote-meet k pi none r h =
    ap (believe (meet k) (update_present pi _ (create_participant pi r)).0) (
      ground
        (arith, has-insert k pi.sid (Participant.new pi.sid pi.identity pi.name pi.metadata) r))
    ∙ update_present-meet k pi (Participant.new pi.sid pi.identity pi.name pi.metadata)
        (create_participant pi r)
update_remote-meet k pi (some p) r h =
    if_elim
      (λ (x : List RoomEvent × Session).
        believe (meet k) x.0 (has_participant k r) ≡ has_participant k x.1)
      pi.disconnected (λ _. disconnect-meet k p r)
      (λ _.
        ap (believe (meet k) (update_present pi p r).0) (ground (arith, eq_iff pi.sid k))
        ∙ update_present-meet k pi p r)

update_participant-meet :
    (k : String) (pi : ParticipantInfo) → Tells (meet k) (has_participant k) (update_participant pi)
unfolding update_participant
update_participant-meet k pi r =
    if_elim
      (λ (x : List RoomEvent × Session).
        believe (meet k) x.0 (has_participant k r) ≡ has_participant k x.1)
      (is_local pi r) (λ _. refl) (λ _. update_remote-meet k pi _ r refl)

pub handle_participant_update-meet :
    (k : String) (pis : List ParticipantInfo)
    → Tells (meet k) (has_participant k) (handle_participant_update pis)
unfolding handle_participant_update
handle_participant_update-meet k [] r = refl
handle_participant_update-meet k (pi ∷ pis) r =
    then-Tells (meet k) (has_participant k) (update_participant pi) (handle_participant_update pis)
      (update_participant-meet k pi) (handle_participant_update-meet k pis) r
