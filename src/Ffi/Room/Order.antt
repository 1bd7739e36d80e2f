-- ===== src/Ffi/Room/Order.antt =====
-- livekit-ffi/src/server/room.rs: the order of a publication's callback and its event.
use livekit_rust.Base.{
  ℕ, ◌+◌, ◌≤◌, ◌≡◌, refl, Bool, true, false, List, [], ◌∷◌, ◌++◌, Option, String, subst, ◌==◌, ◌||◌,
  arith, eq_iff, if◌then◌else◌, Bool-cases, inl, inr, some, none, Option-cases, IfSome,
}
use livekit_rust.Ffi.Server.{send_event, store_new, Handle, ffi_publication}
use livekit_rust.Ffi.Room.{
  handle_of, RoomEvent, local_track_published, local_track_unpublished, connected,
  participant_connected, track_published, track_subscribed, data_received, RoomMessage,
  without_handle, owns_participant, owns_publication, owns_track, owns_data, Message, room_event,
  publish_track_callback, publish_track_error, unpublish_track_callback, World, contains, add,
  take_out, tell_event, send_room_event, announce, tell_published, tell_unpublished, forward_event,
  publish_done, note_published, note_first, take_first, publish_failed, unpublish_done,
  unpublish_failed, RoomStep, emits, forwards, publishes, notes_publication, fails_to_publish,
  fails_to_unpublish, unpublishes, Running, forward_first, room_step, room_task,
}

abbrev pub one : Bool → ℕ
one true = 1
one false = 0

-- Whether a message is the event, or the callback, of the publication of a track.
abbrev tells_published : String → Message → Bool
tells_published sid (room_event room (without_handle (local_track_published other))) = other == sid
tells_published sid _ = false

abbrev calls_back : String → Message → Bool
calls_back sid (publish_track_callback async_id id other) = other == sid
calls_back sid _ = false

-- How many of the messages are so.
unfoldable pub published : String → List Message → ℕ
published sid [] = 0
published sid (m ∷ ms) = one (tells_published sid m) + published sid ms

unfoldable pub called_back : String → List Message → ℕ
called_back sid [] = 0
called_back sid (m ∷ ms) = one (calls_back sid m) + called_back sid ms

one_or : (a b : Bool) → one (a || b) ≤ one a + one b
one_or true b = ground arith
one_or false b = omega arith

published-append :
    (sid : String) (ms : List Message) (m : Message)
    → published sid (ms ++ m ∷ []) ≡ published sid ms + one (tells_published sid m)
unfolding published
published-append sid [] m = omega arith
published-append sid (n ∷ ms) m = omega (arith, published-append sid ms m)

called_back-append :
    (sid : String) (ms : List Message) (m : Message)
    → called_back sid (ms ++ m ∷ []) ≡ called_back sid ms + one (calls_back sid m)
unfolding called_back
called_back-append sid [] m = omega arith
called_back-append sid (n ∷ ms) m = omega (arith, called_back-append sid ms m)

contains-take_out :
    (x y : String) (ys : List String)
    → contains x (take_out y ys) ≡ (if y == x then false else contains x ys)
unfolding take_out contains
contains-take_out x y [] = ground arith
contains-take_out x y (z ∷ zs) =
    ground (arith, contains-take_out x y zs, eq_iff y x, eq_iff z y, eq_iff z x)

contains-add : (x y : String) (ys : List String) → contains x (add y ys) ≡ (y == x || contains x ys)
unfolding add contains
contains-add x y ys = ground (arith, eq_iff y x)

-- How often an identifier is listed.
unfoldable pub count : String → List String → ℕ
count x [] = 0
count x (y ∷ ys) = one (y == x) + count x ys

count-take_first :
    (x y : String) (ys zs : List String)
    → take_first y ys ≡ some zs
    → count x ys ≡ one (y == x) + count x zs
unfolding take_first count
count-take_first x y [] zs h = cc
count-take_first x y (z ∷ ys) zs h = elim (Bool-cases (z == y)) [
  | inl same ↦ ground (arith, eq_iff z y)
  | inr other ↦ elim (Option-cases (take_first y ys)) [
    | inl absent ↦ absurd (let k = rw (other, absent) at h in cc)
    | inr (us, there) ↦
        let k : some (z ∷ us) ≡ some zs = rw (other, there) at h in
        let e : z ∷ us ≡ zs = cc in rw (← e) (omega (arith, count-take_first x y ys us there))
  ]
]

-- The callbacks sent cover the events sent, the one that is noted as due, and `n` to be noted.
pub record CoversAt (sid : String) (n : ℕ) (w : World) : Type 0 where
  pub configured : w.1.configured ≡ true
  pub covered :
      published sid w.1.sent + one (contains sid w.0.pending_published_tracks) + n
      ≤ called_back sid w.1.sent

-- So with the publications that a task has still to note.
abbrev pub InOrder : String → Running → Type 0
InOrder sid x = CoversAt sid (count sid x.notes) x.world

module _ (sid : String) (n : ℕ) where
  tell-CoversAt :
      (m : Message) (p u : List String) (w : World)
      → w.1.configured ≡ true
      → published sid w.1.sent + one (tells_published sid m) + one (contains sid p) + n
        ≤ called_back sid w.1.sent + one (calls_back sid m)
      → CoversAt sid n (
        record w.0 { pending_published_tracks = p; pending_unpublished_tracks = u },
        tell_event m w.1,
      )
  unfolding tell_event send_event
  tell-CoversAt m p u w on le = rw on (record {
    configured = refl;
    covered = omega (arith, published-append sid w.1.sent m, called_back-append sid w.1.sent m);
  })

  plain-CoversAt :
      (m : Message) (u : List String) (w : World)
      → tells_published sid m ≡ false
      → calls_back sid m ≡ false
      → CoversAt sid n w
      → CoversAt sid n (record w.0 { pending_unpublished_tracks = u }, tell_event m w.1)
  plain-CoversAt m u w e c o =
      tell-CoversAt m w.0.pending_published_tracks u w o.configured
        (rw (e, c) (omega (arith, o.covered)))

  store-CoversAt :
      (g : Handle) (w : World)
      → CoversAt sid n w
      → CoversAt sid n (w.0, (store_new Message g w.1).1)
  unfolding store_new
  store-CoversAt g w o = record { configured = o.configured; covered = o.covered }

  announce-CoversAt :
      (g : Handle) (m : ℕ → RoomMessage) (w : World)
      → ((j : ℕ) → tells_published sid (room_event w.0.handle_id (m j)) ≡ false)
      → CoversAt sid n w
      → CoversAt sid n (announce g m w)
  unfolding announce send_room_event
  announce-CoversAt g m w quiet o =
      plain-CoversAt (room_event w.0.handle_id (m (store_new Message g w.1).0))
        w.0.pending_unpublished_tracks (w.0, (store_new Message g w.1).1)
        (quiet (store_new Message g w.1).0) refl (store-CoversAt g w o)

  told :
      (other : String) (ys : List String) (e c : ℕ)
      → contains other ys ≡ true
      → e + one (contains sid ys) + n ≤ c
      → e + one (other == sid) + one (if other == sid then false else contains sid ys) + n ≤ c + 0
  told other ys e c there le = elim (Bool-cases (other == sid)) [
    | inl same ↦ rw same (
        let k : contains sid ys ≡ true = rw ((eq_iff other sid).0 same) at there in
        omega (arith, le, rw k at le))
    | inr not_same ↦ rw not_same (omega arith)
  ]

  tell_published-CoversAt :
      (other : String) (w : World)
      → contains other w.0.pending_published_tracks ≡ true
      → CoversAt sid n w
      → CoversAt sid n (tell_published other w)
  unfolding tell_published send_room_event
  tell_published-CoversAt other w pending o =
      tell-CoversAt (room_event w.0.handle_id (without_handle (local_track_published other)))
        (take_out other w.0.pending_published_tracks) w.0.pending_unpublished_tracks
        (w.0, (store_new Message _ w.1).1) (store-CoversAt _ w o).configured
        (rw (contains-take_out sid other w.0.pending_published_tracks) (
          told other w.0.pending_published_tracks _ _ pending
            (store-CoversAt (handle_of ffi_publication other) w o).covered))

  forward_event-CoversAt :
      (e : RoomEvent) (w : World) → CoversAt sid n w → IfSome (CoversAt sid n) (forward_event e w)
  unfolding forward_event tell_unpublished send_room_event
  forward_event-CoversAt (participant_connected a) w o =
      announce-CoversAt _ (λ id. owns_participant id a) w (λ j. refl) o
  forward_event-CoversAt (track_published a b) w o =
      announce-CoversAt _ (λ id. owns_publication id a b) w (λ j. refl) o
  forward_event-CoversAt (track_subscribed a b) w o =
      announce-CoversAt _ (λ id. owns_track id a b) w (λ j. refl) o
  forward_event-CoversAt (data_received a k b) w o =
      announce-CoversAt _ (λ id. owns_data id a k b) w (λ j. refl) o
  forward_event-CoversAt (local_track_published other) w o =
      elim (Bool-cases (contains other w.0.pending_published_tracks)) [
        | inl there ↦ rw there (tell_published-CoversAt other w there o)
        | inr not_there ↦ rw not_there tt
      ]
  forward_event-CoversAt (connected ps) w o = o
  forward_event-CoversAt (local_track_unpublished other) w o =
      plain-CoversAt _ (add other w.0.pending_unpublished_tracks) w refl refl o
  forward_event-CoversAt e w o = plain-CoversAt _ w.0.pending_unpublished_tracks w refl refl o

  forward_first-CoversAt :
      (es : List RoomEvent) (x : Running)
      → CoversAt sid n x.world
      → CoversAt sid n (forward_first es x).world
  unfolding forward_first
  forward_first-CoversAt [] x o = o
  forward_first-CoversAt (e ∷ es) x o = elim (Option-cases (forward_event e x.world)) [
    | inl waits ↦ rw (forward_first, waits) o
    | inr (w, goes) ↦
        rw (forward_first, goes) (let k = forward_event-CoversAt e x.world o in rw goes at k)
  ]

module _ (sid : String) where
  publish_done-CoversAt :
      (n a : ℕ) (other : String) (w : World)
      → CoversAt sid n w
      → CoversAt sid (one (other == sid) + n) (publish_done a other w)
  unfolding publish_done
  publish_done-CoversAt n a other w o =
      tell-CoversAt sid (one (other == sid) + n)
        (publish_track_callback a (store_new Message _ w.1).0 other) w.0.pending_published_tracks
        w.0.pending_unpublished_tracks (w.0, (store_new Message _ w.1).1)
        (store-CoversAt sid n _ w o).configured
        (omega (arith, (store-CoversAt sid n (handle_of ffi_publication other) w o).covered))

  note_published-CoversAt :
      (n : ℕ) (other : String) (w : World)
      → CoversAt sid (one (other == sid) + n) w
      → CoversAt sid n (note_published other w)
  unfolding note_published
  note_published-CoversAt n other w o = record {
    configured = o.configured;
    covered = rw (contains-add sid other w.0.pending_published_tracks) (
        omega
          (arith, one_or (other == sid) (contains sid w.0.pending_published_tracks), o.covered));
  }

  note_first-InOrder :
      (other : String) (o : Option (List String)) (x : Running)
      → take_first other x.notes ≡ o
      → InOrder sid x
      → InOrder sid (note_first other o x)
  unfolding note_first
  note_first-InOrder other none x h o = o
  note_first-InOrder other (some rest) x h o =
      note_published-CoversAt (count sid rest) other x.world
        (subst (λ k. CoversAt sid k x.world) (count-take_first sid other x.notes rest h) o)

  forward_first-notes : (es : List RoomEvent) (x : Running) → (forward_first es x).notes ≡ x.notes
  unfolding forward_first
  forward_first-notes [] x = refl
  forward_first-notes (e ∷ es) x = elim (Option-cases (forward_event e x.world)) [
    | inl waits ↦ rw (forward_first, waits) refl
    | inr (w, goes) ↦ rw (forward_first, goes) refl
  ]

  room_step-InOrder : (s : RoomStep) (x : Running) → InOrder sid x → InOrder sid (room_step s x)
  unfolding room_step publish_failed unpublish_done unpublish_failed count
  room_step-InOrder (emits e) x o = o
  room_step-InOrder forwards x o =
      rw (forward_first-notes x.events x)
        (forward_first-CoversAt sid (count sid x.notes) x.events x o)
  room_step-InOrder (publishes a other) x o =
      publish_done-CoversAt (count sid x.notes) a other x.world o
  room_step-InOrder (notes_publication other) x o =
      note_first-InOrder other (take_first other x.notes) x refl o
  room_step-InOrder (fails_to_publish a e) x o =
      plain-CoversAt sid (count sid x.notes) (publish_track_error a e)
        x.world.0.pending_unpublished_tracks x.world refl refl o
  room_step-InOrder (fails_to_unpublish a e) x o =
      plain-CoversAt sid (count sid x.notes) (unpublish_track_callback a (some e))
        x.world.0.pending_unpublished_tracks x.world refl refl o
  room_step-InOrder (unpublishes a other) x o =
      elim (Bool-cases (contains other x.world.0.pending_unpublished_tracks)) [
        | inl there ↦ rw there (
            plain-CoversAt sid (count sid x.notes) (unpublish_track_callback a none)
              (take_out other x.world.0.pending_unpublished_tracks) x.world refl refl o)
        | inr not_there ↦ rw not_there o
      ]

  -- A track's publication event never comes before the callback of its request: at every moment of
  -- a run, in whatever order the room emits events, forwards them, and the requests send their
  -- callbacks and note their publications, at most as many events that the track was published were
  -- sent as callbacks, counting the publication that is noted and not yet told and those that are
  -- still to be noted. Assumed: it holds at the start, as in a new room, and the server is
  -- configured.
  pub callback_first :
      (ss : List RoomStep) (x : Running) → InOrder sid x → InOrder sid (room_task ss x)
  unfolding room_task
  callback_first [] x o = o
  callback_first (s ∷ ss) x o = callback_first ss (room_step s x) (room_step-InOrder s x o)
