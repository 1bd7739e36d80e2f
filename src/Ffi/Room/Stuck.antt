-- ===== src/Ffi/Room/Stuck.antt =====
-- livekit-ffi/src/server/room.rs: the wait of `forward_event` for a request's callback.
use livekit_rust.Base.{
  ℕ, ◌≡◌, ◌≢◌, refl, sym, false, List, [], ◌∷◌, ◌++◌, Option, String, arith, All, eq_iff, subst,
  ◌∙◌, Bool-cases, inl, inr, some, none, if_elim,
}
use mathlib.Core.List.{append_assoc, append-nil}
use livekit_rust.Base.Outcome.{Outcome}
use livekit_rust.Ffi.Server.{Server, FfiError, send_event, store_new}
use livekit_rust.Ffi.Room.{
  RoomEvent, local_track_published, RoomStep, emits, forwards, publishes, notes_publication,
  fails_to_publish, fails_to_unpublish, unpublishes, Running, room_step, room_task, contains, add,
  take_out, Message, tell_event, publish_track_callback, publish_track_error,
  unpublish_track_callback, room_event, publish_done, publish_failed, unpublish_done,
  unpublish_failed, forward_first, forward_event, World, RoomMessage, note_published, note_first,
  take_first,
}

-- The messages that are events of a room.
unfoldable pub room_messages : List Message → List RoomMessage
room_messages [] = []
room_messages (room_event room m ∷ ms) = m ∷ room_messages ms
room_messages (m ∷ ms) = room_messages ms

-- A message that is none.
abbrev IsCallback : Message → Type 0
IsCallback (room_event room m) = ⊥
IsCallback _ = Unit

room_messages-append :
    (ms : List Message) (m : Message)
    → IsCallback m
    → room_messages (ms ++ m ∷ []) ≡ room_messages ms
unfolding room_messages
room_messages-append [] (room_event room m) c = elim c [ ]
room_messages-append [] m c = refl
room_messages-append (room_event room n ∷ ms) m c = rw (room_messages-append ms m c) refl
room_messages-append (n ∷ ms) m c = room_messages-append ms m c

contains-add : (x y : String) (ys : List String) → y ≢ x → contains x (add y ys) ≡ contains x ys
unfolding add contains
contains-add x y ys ne = ground (arith, eq_iff y x)

-- The state of a room whose oldest event waits, with the messages of events sent before.
record Waits (sid : String) (es : List RoomEvent) (ms : List RoomMessage) (x : Running)
    : Type 0 where
  first : (rest : List RoomEvent) × (x.events ≡ local_track_published sid ∷ es ++ rest)
  not_pending : contains sid x.world.0.pending_published_tracks ≡ false
  sent : room_messages x.world.1.sent ≡ ms

callback-Waits :
    (m : Message) (s : Server Message)
    → IsCallback m
    → room_messages (tell_event m s).sent ≡ room_messages s.sent
unfolding tell_event send_event
callback-Waits m s c =
    if_elim
      (λ (y : Outcome FfiError (Unit {0}) × Server Message).
        room_messages y.1.sent ≡ room_messages s.sent)
      s.configured (λ on. room_messages-append s.sent m c) (λ off. refl)

-- No request to publish this track gets to its note.
abbrev pub NotPublished : String → RoomStep → Type 0
NotPublished sid (notes_publication other) = other ≢ sid
NotPublished sid _ = Unit

module _ (sid : String) (es : List RoomEvent) (ms : List RoomMessage) where
  callback_step :
      (m : Message) (x : Running)
      → IsCallback m
      → Waits sid es ms x
      → Waits sid es ms (record x { world = (x.world.0, tell_event m x.world.1) })
  callback_step m x c w = record {
    first = w.first;
    not_pending = w.not_pending;
    sent = callback-Waits m x.world.1 c ∙ w.sent;
  }

  emits_step :
      (e : RoomEvent) (x : Running)
      → Waits sid es ms x
      → Waits sid es ms (record x { events = x.events ++ e ∷ [] })
  emits_step e x w = record {
    first = (
      w.first.0 ++ e ∷ [],
      rw w.first.1 (append_assoc (local_track_published sid ∷ es) w.first.0 (e ∷ [])),
    );
    not_pending = w.not_pending;
    sent = w.sent;
  }

  forwards_step :
      (evs rest : List RoomEvent) (x : Running)
      → evs ≡ local_track_published sid ∷ rest
      → Waits sid es ms x
      → forward_first evs x ≡ x
  unfolding forward_first forward_event
  forwards_step evs rest x e w = rw e (rw (forward_first, w.not_pending) refl)

  publishes_step :
      (a : ℕ) (other : String) (x : Running)
      → Waits sid es ms x
      → Waits sid es ms (record x { notes = other ∷ x.notes; world = publish_done a other x.world })
  unfolding publish_done store_new
  publishes_step a other x w = record {
    first = w.first;
    not_pending = w.not_pending;
    sent = callback-Waits (publish_track_callback a x.world.1.counter other) _ tt ∙ w.sent;
  }

  notes_step :
      (other : String) (o : Option (List String)) (x : Running)
      → other ≢ sid
      → Waits sid es ms x
      → Waits sid es ms (note_first other o x)
  unfolding note_first note_published
  notes_step other none x ne w = w
  notes_step other (some rest) x ne w = record {
    first = w.first;
    not_pending = contains-add sid other x.world.0.pending_published_tracks ne ∙ w.not_pending;
    sent = w.sent;
  }

  room_step-Waits :
      (s : RoomStep) (x : Running)
      → NotPublished sid s
      → Waits sid es ms x
      → Waits sid es ms (room_step s x)
  unfolding room_step publish_failed unpublish_done unpublish_failed
  room_step-Waits (emits e) x ne w = emits_step e x w
  room_step-Waits forwards x ne w =
      subst (Waits sid es ms) (sym (forwards_step x.events _ x w.first.1 w)) w
  room_step-Waits (publishes a other) x ne w = publishes_step a other x w
  room_step-Waits (notes_publication other) x ne w =
      notes_step other (take_first other x.notes) x ne w
  room_step-Waits (fails_to_publish a e) x ne w = callback_step (publish_track_error a e) x tt w
  room_step-Waits (fails_to_unpublish a e) x ne w =
      callback_step (unpublish_track_callback a (some e)) x tt w
  room_step-Waits (unpublishes a other) x ne w =
      elim (Bool-cases (contains other x.world.0.pending_unpublished_tracks)) [
        | inl there ↦ rw there (
            callback_step (unpublish_track_callback a none)
              (record x {
                world = (
                  record x.world.0 {
                    pending_unpublished_tracks =
                        take_out other x.world.0.pending_unpublished_tracks;
                  },
                  x.world.1,
                );
              })
              tt (record { first = w.first; not_pending = w.not_pending; sent = w.sent }))
        | inr not_there ↦ rw not_there w
      ]

  room_task-Waits :
      (ss : List RoomStep) (x : Running)
      → All (NotPublished sid) ss
      → Waits sid es ms x
      → Waits sid es ms (room_task ss x)
  unfolding room_task
  room_task-Waits [] x ne w = w
  room_task-Waits (s ∷ ss) x ne w =
      room_task-Waits ss (room_step s x) ne.1 (room_step-Waits s x ne.0 w)

-- While the oldest event is the publication of a local track that is not noted as just published,
-- and no request to publish that very track comes to note it, the room is silent for ever: whatever
-- happens, in any order, no event of the room is sent any more, and the oldest event and those behind
-- it are still waiting at the end.
pub unrequested_publication_blocks :
    (sid : String) (es : List RoomEvent) (notes : List String) (w : World) (ss : List RoomStep)
    → contains sid w.0.pending_published_tracks ≡ false
    → All (NotPublished sid) ss
    → let x : Running = record {
      events = local_track_published sid ∷ es;
      notes = notes;
      world = w;
    } in
      let y = room_task ss x in
      (room_messages y.world.1.sent ≡ room_messages w.1.sent)
      × ((rest : List RoomEvent) × (y.events ≡ local_track_published sid ∷ es ++ rest))
unrequested_publication_blocks sid es notes w ss none_pending quiet =
    let z =
      room_task-Waits sid es (room_messages w.1.sent) ss
        (record { events = local_track_published sid ∷ es; notes = notes; world = w }) quiet
        (record {
          first = ([], sym (append-nil (local_track_published sid ∷ es)));
          not_pending = none_pending;
          sent = refl;
        }) in
    (z.sent, z.first)
