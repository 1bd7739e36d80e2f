-- ===== src/Signal/Stream.antt =====
-- livekit-api/src/signal_client/signal_stream.rs: one WebSocket connection with its two tasks.
-- `Socket` stands for the WebSocket library: a write of a frame may fail.
mod Laws
mod Examples
use livekit_rust.Base.{
  ℕ, ◌≡◌, refl, Bool, true, false, List, [], ◌∷◌, ◌++◌, Option, none, some, String, if◌then◌else◌,
}
use livekit_rust.Signal.Message.{Request, Response}

pub data Frame (Body : Type 0) : Type 0 where
  binary : Request Body → Frame Body
  pong_frame : List ℕ → Frame Body

pub record Socket (Body : Type 0) : Type 1 where
  pub Conn : Type 0
  pub write : Frame Body → Conn → Bool × Conn

module _ {Body : Type 0} (socket : Socket Body) where
  open socket use {Conn}

  -- `sent` are the signals that the socket took, `ended` says that the write task is over.
  pub record Stream : Type 0 where
    pub conn : Conn
    pub sent : List (Request Body)
    pub ended : Bool

  unfoldable pub open_stream : Conn → Stream
  open_stream c = record { conn = c; sent = []; ended = false }

  pub data InternalMessage : Type 0 where
    signal : Request Body → InternalMessage
    pong : List ℕ → InternalMessage
    close : InternalMessage

  -- A round of the write task, with what it answers to the sender of a signal.
  unfoldable pub write_round : InternalMessage → Stream → Option Bool × Stream
  write_round (signal m) s =
      let (taken, c) = socket.write (binary m) s.conn in
      if taken
      then (some true, record s { conn = c; sent = s.sent ++ m ∷ [] })
      else (some false, record s { conn = c; ended = true })
  write_round (pong payload) s =
      (none, record s { conn = (socket.write (pong_frame payload) s.conn).1 })
  write_round close s = (none, record s { ended = true })

  -- The write task over the messages of its channel, until it ends; the answers in order.
  unfoldable pub write_task : List InternalMessage → Stream → List Bool × Stream
  write_task [] s = ([], s)
  write_task (m ∷ ms) s = elim s.ended [
    | true ↦ ([], s)
    | false ↦
        let (answer, s') = write_round m s in
        let (answers, s'') = write_task ms s' in
        (elim answer [ none ↦ answers | some b ↦ b ∷ answers ], s'')
  ]

  -- `send`: a stream whose write task is over answers with `SendError`.
  unfoldable pub send : Request Body → Stream → Bool × Stream
  unfolding write_round
  send m s =
      if s.ended
      then (false, s)
      else (let (answer, s') = write_round (signal m) s in
          (elim answer [ none ↦ false | some b ↦ b ], s'))

  pub data Incoming : Type 0 where
    incoming : List ℕ → Incoming
    ping : List ℕ → Incoming
    closing : Incoming
    unhandled : Incoming

  -- What the read task did with the frames that came in: the responses that it passed on, the pongs
  -- that it asked for, and whether it panicked (`expect`, `unwrap`); otherwise it asked for `close`.
  pub record Read : Type 0 where
    pub responses : List (Response Body)
    pub internal : List InternalMessage
    pub panicked : Bool

  abbrev pass_on : Response Body → Read → Read
  pass_on r rest = record rest { responses = r ∷ rest.responses }

  abbrev ask : InternalMessage → Read → Read
  ask m rest = record rest { internal = m ∷ rest.internal }

  abbrev finished : Read
  finished = record { responses = []; internal = close ∷ []; panicked = false }

  unfoldable pub read_task : (List ℕ → Option (Response Body)) → List Incoming → Read
  read_task decode [] = finished
  read_task decode (incoming payload ∷ fs) =
      let rest = read_task decode fs in
      elim (decode payload) [
        | none ↦ record { responses = []; internal = []; panicked = true }
        | some r ↦ pass_on r rest
      ]
  read_task decode (ping payload ∷ fs) = ask (pong payload) (read_task decode fs)
  read_task decode (closing ∷ fs) = finished
  read_task decode (unhandled ∷ fs) = finished
