-- ===== src/Ffi/Requests/Connect.antt =====
-- livekit-ffi/src/server/room.rs: the handles of a room that was joined.
use livekit_rust.Base.{
  ℕ, zero, suc, ◌+◌, ◌^◌, ◌<◌, ◌≡◌, refl, ◌∙◌, ap, subst, true, Bool, List, [], ◌∷◌, ◌++◌, some,
  String, arith, ◌||◌, is_some, length,
}
use livekit_rust.Ffi.Server.{
  Server, Handle, Handles, find, put, ffi_room, ffi_participant, ffi_publication, store_new,
  next_id, store_handle, send_event,
}
use livekit_rust.Ffi.Room.{
  Message, connect_callback, handle_of, tell_event, initial_publications, initial_participants,
  build_initial_states,
}
use livekit_rust.Ffi.Server.Laws.{find-put}
use livekit_rust.Ffi.Room.Leak.{has, owned, owned_publications, owned_states}
use livekit_rust.Ffi.Requests.{joined, connect_done}

-- So many numbers, from this one on.
abbrev pub numbers_from : ℕ → ℕ → List ℕ
numbers_from c zero = []
numbers_from c (suc n) = c ∷ numbers_from (c + 1) n

-- The handles of the participants with their tracks.
abbrev pub handles_in : List (String × List String) → ℕ
handles_in [] = 0
handles_in ((sid, tracks) ∷ ps) = suc (length tracks + handles_in ps)

numbers_from-add : (c m n : ℕ) → numbers_from c m ++ numbers_from (c + m) n ≡ numbers_from c (m + n)
numbers_from-add c zero n =
    ap (λ k. numbers_from k n) (omega arith) ∙ ap (numbers_from c) (omega arith)
numbers_from-add c (suc m) n =
    ap (λ k. c ∷ (numbers_from (c + 1) m ++ numbers_from k n)) (omega arith)
    ∙ (ap (λ l. c ∷ l) (numbers_from-add (c + 1) m n)
        ∙ ap (numbers_from c) (let e : suc (m + n) ≡ suc m + n = omega arith in e))

has-append : (i : ℕ) (xs ys : List ℕ) → has i (xs ++ ys) ≡ (has i xs || has i ys)
unfolding has
has-append i [] ys = refl
has-append i (x ∷ xs) ys = ground (arith, has-append i xs ys)

-- From one server to another the identifiers `ids` were taken, handles were stored under just those
-- that are `filled`, and no message was sent.
record Took (ids filled : List ℕ) (n : ℕ) (s u : Server Message) : Type 0 where
  numbered : ids ≡ numbers_from s.counter n
  counted : u.counter ≡ s.counter + n
  sent : u.sent ≡ s.sent
  configured : u.configured ≡ s.configured
  stored : (i : ℕ) → is_some (find i u.handles) ≡ (has i filled || is_some (find i s.handles))

Took-none : (s : Server Message) → Took [] [] 0 s s
unfolding has
Took-none s = record {
  numbered = refl;
  counted = omega arith;
  sent = refl;
  configured = refl;
  stored = λ i. refl;
}

put-stored :
    (i j : ℕ) (h : Handle) (m : Handles)
    → is_some (find i (put j h m)) ≡ (has i (j ∷ []) || is_some (find i m))
unfolding has
put-stored i j h m = rw (find-put j i h m) (ground arith)

Took-one :
    (h : Handle) (s : Server Message)
    → s.counter + 1 < 2 ^ 64
    → Took (s.counter ∷ []) (s.counter ∷ []) 1 s (store_new Message h s).1
unfolding store_new
Took-one h s room = record {
  numbered = refl;
  counted = ground arith;
  sent = refl;
  configured = refl;
  stored = λ i. put-stored i s.counter h s.handles;
}

Took-append :
    (xs ys as' bs : List ℕ) (m n : ℕ) (s u v : Server Message)
    → Took xs as' m s u
    → Took ys bs n u v
    → Took (xs ++ ys) (as' ++ bs) (m + n) s v
Took-append xs ys as' bs m n s u v a b = record {
  numbered = rw (a.numbered, b.numbered, a.counted) (numbers_from-add s.counter m n);
  counted = omega (arith, a.counted, b.counted);
  sent = b.sent ∙ a.sent;
  configured = b.configured ∙ a.configured;
  stored = λ i. ground (arith, a.stored i, b.stored i, has-append i as' bs);
}

Took-as :
    {xs as' : List ℕ} {m n : ℕ} {s u : Server Message}
    → m ≡ n
    → Took xs as' m s u
    → Took xs as' n s u
Took-as {xs} {as'} {s = s} {u = u} e t = subst (λ k. Took xs as' k s u) e t

-- The room's identifier is taken before its handle is stored.
Took-id :
    (s : Server Message)
    → s.counter + 1 < 2 ^ 64
    → Took (s.counter ∷ []) [] 1 s (next_id Message s).1
unfolding next_id has
Took-id s room = record {
  numbered = refl;
  counted = ground arith;
  sent = refl;
  configured = refl;
  stored = λ i. refl;
}

publications_lem :
    (sids : List String) (s : Server Message)
    → s.counter + length sids < 2 ^ 64
    → let (ps, u) = initial_publications sids s in
      Took (owned_publications ps) (owned_publications ps) (length sids) s u
unfolding initial_publications store_new
publications_lem [] s room = Took-none s
publications_lem (sid ∷ sids) s room =
    let one = Took-one (handle_of ffi_publication sid) s (omega arith) in
    let rest =
      publications_lem sids (store_new Message (handle_of ffi_publication sid) s).1
        (omega (arith, one.counted)) in
    Took-as (omega arith) (Took-append _ _ _ _ _ _ _ _ _ one rest)

participants_lem :
    (ps : List (String × List String)) (s : Server Message)
    → s.counter + handles_in ps < 2 ^ 64
    → let (states, u) = initial_participants ps s in
      Took (owned_states states) (owned_states states) (handles_in ps) s u
unfolding initial_participants store_new
participants_lem [] s room = Took-none s
participants_lem ((sid, tracks) ∷ ps) s room =
    let one = Took-one (handle_of ffi_participant sid) s (omega arith) in
    let s1 = (store_new Message (handle_of ffi_participant sid) s).1 in
    let pubs = publications_lem tracks s1 (omega (arith, one.counted)) in
    let s2 = (initial_publications tracks s1).1 in
    let rest = participants_lem ps s2 (omega (arith, one.counted, pubs.counted)) in
    Took-as
      (let e : 1 + length tracks + handles_in ps ≡ suc (length tracks + handles_in ps) =
          omega arith in
        e)
      (Took-append _ _ _ _ _ _ _ _ _ (Took-append _ _ _ _ _ _ _ _ _ one pubs) rest)

room_first :
    (i j : ℕ) (ids : List ℕ) (b : Bool) {c : Bool}
    → c ≡ (has i ids || b)
    → (has i (j ∷ []) || c) ≡ (has i (j ∷ ids) || b)
unfolding has
room_first i j ids b h = ground arith

told :
    (m : Message) (v : Server Message)
    → v.configured ≡ true
    → ((tell_event m v).counter ≡ v.counter)
      × ((tell_event m v).sent ≡ v.sent ++ m ∷ [])
      × ((tell_event m v).handles ≡ v.handles)
unfolding tell_event send_event
told m v on = rw on (refl, refl, refl)

-- Joining a room announces every handle that it stores, and no other: the callback, which is the one
-- message that is sent, carries exactly the identifiers taken, in their order: those of the room, the
-- local participant, and each other participant with its tracks; and afterwards a handle is stored
-- under an identifier just if the callback carries it or one was stored there before, the room's
-- being the room. Assumed: a configured server, and less than 2^64 identifiers given out at the end.
pub connect_announces :
    (async_id : ℕ) (room local : String) (others : List (String × List String)) (s : Server Message)
    → s.configured ≡ true
    → s.counter + 2 + handles_in others < 2 ^ 64
    → let u = (connect_done async_id (joined room local others) s).1 in
      (u.counter ≡ s.counter + (2 + handles_in others))
      × ((m : Message) × (u.sent ≡ s.sent ++ m ∷ [])
          × (owned m ≡ numbers_from s.counter (2 + handles_in others))
          × ((i : ℕ)
              → is_some (find i u.handles) ≡ (has i (owned m) || is_some (find i s.handles))))
      × (find s.counter u.handles ≡ some (handle_of ffi_room room))
unfolding connect_done build_initial_states store_new next_id store_handle
connect_announces async_id room local others s on bound =
    let one = Took-id s (omega arith) in
    let s1 = (next_id Message s).1 in
    let two = Took-one (handle_of ffi_participant local) s1 (omega (arith, one.counted)) in
    let s2 = (store_new Message (handle_of ffi_participant local) s1).1 in
    let all = Took-append _ _ _ _ _ _ _ _ _ one (
      Took-append _ _ _ _ _ _ _ _ _ two
        (participants_lem others s2 (omega (arith, one.counted, two.counted)))) in
    let v =
      store_handle Message s.counter (handle_of ffi_room room) (initial_participants others s2).1 in
    let m =
      connect_callback async_id s.counter (s1.counter, local) (initial_participants others s2).0 in
    let (counted, sent, kept) = told m v (all.configured ∙ on) in
    (
      omega (arith, counted, all.counted),
      (
        m,
        sent ∙ ap (λ l. l ++ m ∷ []) all.sent,
        all.numbered ∙ ap (numbers_from s.counter) (omega arith),
        (λ i. rw kept (
            put-stored i s.counter (handle_of ffi_room room) _
            ∙ room_first i s.counter _ _ (all.stored i))),
      ),
      rw
          (
            kept,
            find-put s.counter s.counter (handle_of ffi_room room)
                (initial_participants others s2).1.handles,
          )
          (ground arith),
    )
