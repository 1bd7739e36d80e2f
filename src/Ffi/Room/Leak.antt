-- ===== src/Ffi/Room/Leak.antt =====
-- livekit-ffi/src/server/room.rs: the handle that no message carries.
use livekit_rust.Base.{
  ℕ, ◌+◌, ◌^◌, ◌≤◌, ◌<◌, ◌≡◌, refl, Bool, true, false, List, [], ◌∷◌, ◌++◌, Option, none, some,
  String, arith, nat_eq, ◌||◌, length, Bool-cases, inl, inr, IfSome, Option-cases, subst, if_elim,
}
use livekit_rust.Base.Outcome.{Outcome}
use livekit_rust.Ffi.Server.{FfiError, Server, Handle, find, store_new, send_event, ffi_publication}
use livekit_rust.Ffi.Server.Laws.{find-put, nat_eq-ne}
use livekit_rust.Ffi.Room.{
  RoomEvent, RoomMessage, owns_participant, owns_publication, owns_track, owns_data, without_handle,
  InitialState, Message, room_event, connect_callback, publish_track_callback, World, tell_event,
  send_room_event, announce, handle_of, tell_published, forward_event, publish_done, publish_failed,
  unpublish_done, unpublish_failed, RoomStep, emits, forwards, publishes, notes_publication,
  note_first, note_published, take_first, fails_to_publish, fails_to_unpublish, unpublishes,
  Running, forward_first, room_step, room_task, contains, participant_connected,
  local_track_published, local_track_unpublished, track_published, track_subscribed, data_received,
  connected,
}

unfoldable pub has : ℕ → List ℕ → Bool
has id [] = false
has id (j ∷ js) = nat_eq j id || has id js

-- The fresh handle of a message is not an older one.
has-later : (id j : ℕ) → id < j → has id (j ∷ []) ≡ false
unfolding has
has-later id j lt = rw (nat_eq-ne j id (λ e. ground arith)) refl

abbrev pub owned_publications : List (ℕ × String) → List ℕ
owned_publications [] = []
owned_publications ((id, sid) ∷ ps) = id ∷ owned_publications ps

abbrev pub owned_states : InitialState → List ℕ
owned_states [] = []
owned_states (((id, sid), ps) ∷ rest) = id ∷ owned_publications ps ++ owned_states rest

abbrev pub owned_in : RoomMessage → List ℕ
owned_in (owns_participant id sid) = id ∷ []
owned_in (owns_publication id psid sid) = id ∷ []
owned_in (owns_track id psid sid) = id ∷ []
owned_in (owns_data id payload kind psid) = id ∷ []
owned_in (without_handle e) = []

-- The handles that a message gives to the foreign language.
abbrev pub owned : Message → List ℕ
owned (room_event room m) = owned_in m
owned (connect_callback async_id room local states) = room ∷ local.0 ∷ owned_states states
owned (publish_track_callback async_id id sid) = id ∷ []
owned _ = []

unfoldable pub announces : ℕ → List Message → Bool
unfolding has
announces id [] = false
announces id (m ∷ ms) = has id (owned m) || announces id ms

announces-append :
    (id : ℕ) (ms : List Message) (m : Message)
    → announces id ms ≡ false
    → has id (owned m) ≡ false
    → announces id (ms ++ m ∷ []) ≡ false
unfolding announces
announces-append id [] m h k = rw k refl
announces-append id (n ∷ ms) m h k = elim (Bool-cases (has id (owned n))) [
  | inl there ↦ absurd (ground arith)
  | inr not_there ↦ rw not_there (announces-append id ms m (rw not_there at h) k)
]

-- A stored handle that no message carries, with the counter past it and at most `n`.
record Leaked (id n : ℕ) (h : Handle) (s : Server Message) : Type 0 where
  past : id < s.counter
  bounded : s.counter ≤ n
  stored : find id s.handles ≡ some h
  untold : announces id s.sent ≡ false

module _ (id n : ℕ) (h : Handle) where
  tell-Leaked :
      (m : Message) (s : Server Message)
      → has id (owned m) ≡ false
      → Leaked id n h s
      → Leaked id n h (tell_event m s)
  unfolding tell_event send_event
  tell-Leaked m s silent l =
      if_elim (λ (y : Outcome FfiError (Unit {0}) × Server Message). Leaked id n h y.1) s.configured
        (λ on. record {
          past = l.past;
          bounded = l.bounded;
          stored = l.stored;
          untold = announces-append id s.sent m l.untold silent;
        })
        (λ off. l)

  store-Leaked :
      (g : Handle) (s : Server Message)
      → n + 1 < 2 ^ 64
      → Leaked id n h s
      → Leaked id (n + 1) h (store_new Message g s).1
  unfolding store_new
  store-Leaked g s room l = record {
    past = ground (arith, l.past, l.bounded);
    bounded = ground (arith, l.past, l.bounded);
    stored =
        rw (find-put s.counter id g s.handles)
          (rw (nat_eq-ne s.counter id (λ e. ground (arith, l.past))) l.stored);
    untold = l.untold;
  }

  later : {s : Server Message} → Leaked id n h s → Leaked id (n + 1) h s
  later l = record {
    past = l.past;
    bounded = ground (arith, l.bounded);
    stored = l.stored;
    untold = l.untold;
  }

module _ (id : ℕ) (h : Handle) where
  announce-Leaked :
      (n : ℕ) (g : Handle) (m : ℕ → RoomMessage) (w : World)
      → ((j : ℕ) → owned_in (m j) ≡ j ∷ [])
      → n + 1 < 2 ^ 64
      → Leaked id n h w.1
      → Leaked id (n + 1) h (announce g m w).1
  unfolding announce send_room_event store_new
  announce-Leaked n g m w own room l =
      tell-Leaked id (n + 1) h (room_event w.0.handle_id (m w.1.counter)) _
        (rw (own w.1.counter) (has-later id w.1.counter l.past)) (store-Leaked id n h g w.1 room l)

  silent-Leaked :
      (n : ℕ) (m : Message) (s : Server Message)
      → owned m ≡ []
      → Leaked id n h s
      → Leaked id (n + 1) h (tell_event m s)
  silent-Leaked n m s none_owned l =
      later id n h (tell-Leaked id n h m s (rw none_owned (unfold has in refl)) l)

  tell_published-Leaked :
      (n : ℕ) (sid : String) (w : World)
      → n + 1 < 2 ^ 64
      → Leaked id n h w.1
      → Leaked id (n + 1) h (tell_published sid w).1
  unfolding tell_published send_room_event has
  tell_published-Leaked n sid w room l =
      tell-Leaked id (n + 1) h _ _ refl
        (store-Leaked id n h (handle_of ffi_publication sid) w.1 room l)

  forward_event-Leaked :
      (n : ℕ) (e : RoomEvent) (w : World)
      → n + 1 < 2 ^ 64
      → Leaked id n h w.1
      → IfSome (λ u. Leaked id (n + 1) h u.1) (forward_event e w)
  unfolding forward_event
  forward_event-Leaked n (participant_connected sid) w room l =
      announce-Leaked n _ (λ id. owns_participant id sid) w (λ j. refl) room l
  forward_event-Leaked n (track_published psid sid) w room l =
      announce-Leaked n _ (λ id. owns_publication id psid sid) w (λ j. refl) room l
  forward_event-Leaked n (track_subscribed psid sid) w room l =
      announce-Leaked n _ (λ id. owns_track id psid sid) w (λ j. refl) room l
  forward_event-Leaked n (data_received payload kind psid) w room l =
      announce-Leaked n _ (λ id. owns_data id payload kind psid) w (λ j. refl) room l
  forward_event-Leaked n (local_track_published sid) w room l =
      elim (Bool-cases (contains sid w.0.pending_published_tracks)) [
        | inl there ↦ rw there (tell_published-Leaked n sid w room l)
        | inr not_there ↦ rw not_there tt
      ]
  forward_event-Leaked n (local_track_unpublished sid) w room l = silent-Leaked n _ w.1 refl l
  forward_event-Leaked n (connected ps) w room l = later id n h l
  forward_event-Leaked n e w room l = silent-Leaked n _ w.1 refl l

  forward_first-Leaked :
      (n : ℕ) (es : List RoomEvent) (x : Running)
      → n + 1 < 2 ^ 64
      → Leaked id n h x.world.1
      → Leaked id (n + 1) h (forward_first es x).world.1
  unfolding forward_first
  forward_first-Leaked n [] x room l = later id n h l
  forward_first-Leaked n (e ∷ es) x room l = elim (Option-cases (forward_event e x.world)) [
    | inl waits ↦ rw (forward_first, waits) (later id n h l)
    | inr (w, goes) ↦
        rw (forward_first, goes) (let k = forward_event-Leaked n e x.world room l in rw goes at k)
  ]

  note_first-Leaked :
      (n : ℕ) (sid : String) (o : Option (List String)) (x : Running)
      → Leaked id n h x.world.1
      → Leaked id (n + 1) h (note_first sid o x).world.1
  unfolding note_first note_published
  note_first-Leaked n sid none x l = later id n h l
  note_first-Leaked n sid (some rest) x l = later id n h l

  room_step-Leaked :
      (n : ℕ) (s : RoomStep) (x : Running)
      → n + 1 < 2 ^ 64
      → Leaked id n h x.world.1
      → Leaked id (n + 1) h (room_step s x).world.1
  unfolding room_step publish_done publish_failed unpublish_done unpublish_failed store_new
  room_step-Leaked n (emits e) x room l = later id n h l
  room_step-Leaked n forwards x room l = forward_first-Leaked n x.events x room l
  room_step-Leaked n (publishes a sid) x room l =
      tell-Leaked id (n + 1) h (publish_track_callback a x.world.1.counter sid) _
        (has-later id x.world.1.counter l.past)
        (store-Leaked id n h (handle_of ffi_publication sid) x.world.1 room l)
  room_step-Leaked n (notes_publication sid) x room l =
      note_first-Leaked n sid (take_first sid x.notes) x l
  room_step-Leaked n (fails_to_publish a e) x room l = silent-Leaked n _ x.world.1 refl l
  room_step-Leaked n (fails_to_unpublish a e) x room l = silent-Leaked n _ x.world.1 refl l
  room_step-Leaked n (unpublishes a sid) x room l =
      elim (Bool-cases (contains sid x.world.0.pending_unpublished_tracks)) [
        | inl there ↦ rw there (silent-Leaked n _ x.world.1 refl l)
        | inr not_there ↦ rw not_there (later id n h l)
      ]

  room_task-Leaked :
      (n : ℕ) (ss : List RoomStep) (x : Running)
      → n + length ss < 2 ^ 64
      → Leaked id n h x.world.1
      → Leaked id (n + length ss) h (room_task ss x).world.1
  unfolding room_task
  room_task-Leaked n [] x room l = subst (λ k. Leaked id k h x.world.1) (omega arith) l
  room_task-Leaked n (s ∷ ss) x room l =
      subst (λ k. Leaked id k h (room_task ss (room_step s x)).world.1) (omega arith)
        (room_task-Leaked (n + 1) ss (room_step s x) (omega arith)
          (room_step-Leaked n s x (omega arith) l))

-- The state right after the event.
tell_published-first :
    (sid : String) (es : List RoomEvent) (notes : List String) (w : World)
    → contains sid w.0.pending_published_tracks ≡ true
    → announces w.1.counter w.1.sent ≡ false
    → w.1.counter + 1 < 2 ^ 64
    → let x : Running = record {
      events = local_track_published sid ∷ es;
      notes = notes;
      world = w;
    } in
      Leaked w.1.counter
        (w.1.counter + 1)
        (handle_of ffi_publication sid)
        (forward_first x.events x).world.1
unfolding forward_first forward_event tell_published send_room_event store_new has
tell_published-first sid es notes w pending untold room =
    rw (forward_first, pending)
      (tell-Leaked w.1.counter (w.1.counter + 1) (handle_of ffi_publication sid) _ _ refl (record {
        past = ground arith;
        bounded = ground arith;
        stored =
            rw (find-put w.1.counter w.1.counter (handle_of ffi_publication sid) w.1.handles)
              (ground arith);
        untold = untold;
      }))

-- When the event of a published local track is forwarded, the server stores a new handle of the
-- publication, which the message does not carry; and whatever the room does afterwards, in any
-- order, the handle stays stored and no message ever carries it. Assumed: a server with at least
-- one identifier given out, whose next identifier is in no message yet, and which will have given
-- out less than 2^64 at the end.
pub published_handle_leaks :
    (sid : String) (es : List RoomEvent) (notes : List String) (w : World) (ss : List RoomStep)
    → contains sid w.0.pending_published_tracks ≡ true
    → announces w.1.counter w.1.sent ≡ false
    → w.1.counter + 1 + length ss < 2 ^ 64
    → let x : Running = record {
      events = local_track_published sid ∷ es;
      notes = notes;
      world = w;
    } in
      let y = room_task (forwards ∷ ss) x in
      (find w.1.counter y.world.1.handles ≡ some (handle_of ffi_publication sid))
      × (announces w.1.counter y.world.1.sent ≡ false)
unfolding room_task
published_handle_leaks sid es notes w ss pending untold room =
    let l = tell_published-first sid es notes w pending untold (omega arith) in
    let k =
      room_task-Leaked w.1.counter (handle_of ffi_publication sid) (w.1.counter + 1) ss
        (forward_first (local_track_published sid ∷ es)
          (record { events = local_track_published sid ∷ es; notes = notes; world = w }))
        room l in
    (k.stored, k.untold)
