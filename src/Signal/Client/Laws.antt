-- ===== src/Signal/Client/Laws.antt =====
-- signal_client/mod.rs: the order in which signals go out, and what becomes of the queue.
use mathlib.Core.List.{append-nil, append_assoc}
use livekit_rust.Base.{
  ◌≡◌, refl, sym, ap, ◌∙◌, true, false, List, [], ◌∷◌, ◌++◌, none, some, arith, if◌then◌else◌,
  Option-cases,
}
use livekit_rust.Base.Outcome.{Outcome, err}
use livekit_rust.Signal.Message.{Request, SignalError, is_queuable}
use livekit_rust.Signal.Stream
use livekit_rust.Signal.Stream.{Socket, Stream, Frame}
use livekit_rust.Signal.Client.{
  Client, queue_message, drain, flush_queue, send, send_all, close, restart,
}

module _ {Body : Type 0} (socket : Socket Body) where
  open socket use {Conn}

  -- The signals of a list that are queued while reconnecting.
  abbrev pub queuable : List (Request Body) → List (Request Body)
  queuable [] = []
  queuable (m ∷ ms) = if is_queuable Body m then m ∷ queuable ms else queuable ms

  -- The socket takes every frame.
  abbrev pub Accepts : Type 0
  Accepts = (f : Frame Body) (c : Conn) → (socket.write f c).0 ≡ true

  send-Accepts :
      (acc : Accepts) (m : Request Body) (s : Stream socket)
      → s.ended ≡ false
      → let (taken, u) = Stream.send socket m s in
        (taken ≡ true) × (u.sent ≡ s.sent ++ m ∷ []) × (u.ended ≡ false)
  unfolding Stream.send
  send-Accepts acc m s live = ground (arith, acc (Stream.binary m) s.conn)

  drain-Accepts :
      (acc : Accepts) (ms : List (Request Body)) (s : Stream socket)
      → s.ended ≡ false
      → ((drain socket ms s).sent ≡ s.sent ++ ms) × ((drain socket ms s).ended ≡ false)
  unfolding drain
  drain-Accepts acc [] s live = (sym (append-nil s.sent), live)
  drain-Accepts acc (m ∷ ms) s live =
      let one = send-Accepts acc m s live in
      let rest = drain-Accepts acc ms (Stream.send socket m s).1 one.2 in
      (rest.0 ∙ ap (λ l. l ++ ms) one.1 ∙ append_assoc s.sent (m ∷ []) ms, rest.1)

  -- While reconnecting, signals only go to the queue, and only those worth keeping.
  send_all-reconnecting :
      (ms : List (Request Body)) (c : Client socket)
      → c.reconnecting ≡ true
      → send_all socket ms c ≡ record c { queue = c.queue ++ queuable ms }
  unfolding send_all send queue_message
  send_all-reconnecting [] c busy = ground (arith, append-nil c.queue)
  send_all-reconnecting (m ∷ ms) c busy = ground (
    arith,
    send_all-reconnecting ms c busy,
    send_all-reconnecting ms (record c { queue = c.queue ++ m ∷ [] }) busy,
    append_assoc c.queue (m ∷ []) (queuable ms),
  )

  -- On a live stream a signal goes out behind all that was queued, in order, and the queue is empty
  -- afterwards. Assumed: the socket takes every frame, and the client is not reconnecting.
  pub send_in_order :
      (acc : Accepts) (m : Request Body) (c : Client socket) (s : Stream socket)
      → c.reconnecting ≡ false
      → c.stream ≡ some s
      → s.ended ≡ false
      → let u = send socket m c in
        (u.queue ≡ [])
        × ((t : Stream socket) × (u.stream ≡ some t) × (t.sent ≡ s.sent ++ c.queue ++ m ∷ []))
  unfolding send flush_queue
  send_in_order acc m c s idle up live =
      let d = drain socket c.queue s in
      let drained = drain-Accepts acc c.queue s live in
      let last = send-Accepts acc m d drained.1 in
      (
        ground (arith, last),
        (
          (Stream.send socket m d).1,
          ground (arith, last),
          ground (arith, last, drained, append_assoc s.sent c.queue (m ∷ [])),
        ),
      )

  send-ended :
      (m : Request Body) (s : Stream socket) → s.ended ≡ true → Stream.send socket m s ≡ (false, s)
  unfolding Stream.send
  send-ended m s over = ground arith

  drain-ended :
      (ms : List (Request Body)) (s : Stream socket) → s.ended ≡ true → drain socket ms s ≡ s
  unfolding drain
  drain-ended [] s over = refl
  drain-ended (m ∷ ms) s over = rw (send-ended m s over) (drain-ended ms s over)

  -- A signal that is sent on a stream whose write task is over leaves nothing in the queue but itself,
  -- if it is worth keeping: what was queued before is gone. Assumed: the client is not reconnecting.
  pub send_on_ended_stream :
      (m : Request Body) (c : Client socket) (s : Stream socket)
      → c.reconnecting ≡ false
      → c.stream ≡ some s
      → s.ended ≡ true
      → (send socket m c).queue ≡ queuable (m ∷ [])
  unfolding send flush_queue queue_message
  send_on_ended_stream m c s idle up over =
      ground (arith, drain-ended c.queue s over, send-ended m s over)

  -- The client between the close of the old stream and the new one.
  reconnecting-lem :
      (ms : List (Request Body)) (c : Client socket)
      → let u = send_all socket ms (close socket (record c { reconnecting = true })) in
        (u.stream ≡ none) × (u.queue ≡ c.queue ++ queuable ms)
  unfolding close
  reconnecting-lem ms c = ground (
    arith,
    send_all-reconnecting ms (close socket (record c { reconnecting = true })),
    Option-cases c.stream,
  )

  -- A resumption that fails leaves no stream, keeps the queue and what was worth keeping of the
  -- signals sent meanwhile, in order, and the client is no longer reconnecting.
  pub restart_failure :
      (ms : List (Request Body)) (fresh : Outcome SignalError Conn)
      (response : Outcome SignalError Body) (x : SignalError) (c : Client socket)
      → (restart socket ms fresh response c).0 ≡ err x
      → let u = (restart socket ms fresh response c).1 in
        (u.stream ≡ none) × (u.queue ≡ c.queue ++ queuable ms) × (u.reconnecting ≡ false)
  unfolding restart
  restart_failure ms fresh response x c failed = ground (arith, reconnecting-lem ms c)
