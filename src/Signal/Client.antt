-- ===== src/Signal/Client.antt =====
-- livekit-api/src/signal_client/mod.rs: the signalling client with its queue of messages for the
-- time of a reconnection. Connecting and the server's first response are arguments of `restart`.
mod Laws
mod Events
mod Examples
use livekit_rust.Base.{
  ℕ, ◌≡◌, refl, Bool, true, false, List, [], ◌∷◌, ◌++◌, Option, none, some, String, if◌then◌else◌,
}
use livekit_rust.Base.Outcome.{Outcome, ok, err, panic, hang}
use livekit_rust.Signal.Message
use livekit_rust.Signal.Message.{
  Request, Response, SignalEvent, SignalError, ws_error, timeout, is_queuable, refresh_token,
  message,
}
use livekit_rust.Signal.Stream
use livekit_rust.Signal.Stream.{Socket, Stream, open_stream}

pub record SignalOptions : Type 0 where
  pub auto_subscribe : Bool
  pub adaptive_stream : Bool

abbrev pub default_signal_options : SignalOptions
default_signal_options = record { auto_subscribe = true; adaptive_stream = false }

-- A URL as the program takes it apart: the rest is left as it is.
pub record Url : Type 0 where
  pub origin : String
  pub path : String
  pub query : List (String × String)

abbrev flag : Bool → String
flag b = if b then "1" else "0"

-- `parse` is the URL library's.
unfoldable pub get_livekit_url :
    (String → Option Url) → String → String → SignalOptions → Option Url
get_livekit_url parse url token options = elim (parse url) [
  | none ↦ none
  | some u ↦ some (record u {
    path = "/rtc";
    query =
        u.query
        ++ ("sdk", "rust")
          ∷ ("access_token", token)
          ∷ ("protocol", "8")
          ∷ ("auto_subscribe", flag options.auto_subscribe)
          ∷ ("adaptive_stream", flag options.adaptive_stream)
          ∷ [];
  })
]

-- The URL of a resumption.
unfoldable pub get_reconnect_url :
    (String → Option Url) → String → String → SignalOptions → String → Option Url
unfolding get_livekit_url
get_reconnect_url parse url token options sid = elim (get_livekit_url parse url token options) [
  | none ↦ none
  | some u ↦ some (record u { query = u.query ++ ("reconnect", "1") ∷ ("sid", sid) ∷ [] })
]

module _ {Body : Type 0} (socket : Socket Body) where
  open socket use {Conn}

  -- `closed` are the streams that were closed, latest last.
  pub record Client : Type 0 where
    pub stream : Option (Stream socket)
    pub token : String
    pub reconnecting : Bool
    pub queue : List (Request Body)
    pub closed : List (Stream socket)

  unfoldable pub queue_message : Request Body → Client → Client
  unfolding is_queuable
  queue_message m c = if is_queuable Body m then record c { queue = c.queue ++ m ∷ [] } else c

  -- `queue.drain(..)`: a message that the stream does not take is lost.
  unfoldable pub drain : List (Request Body) → Stream socket → Stream socket
  drain [] s = s
  drain (m ∷ ms) s = drain ms (Stream.send socket m s).1

  unfoldable pub flush_queue : Client → Client
  flush_queue c = elim c.stream [
    | none ↦ c
    | some s ↦ record c { stream = some (drain c.queue s); queue = [] }
  ]

  -- The stream's answer to a signal that is sent now.
  abbrev pub answered : Request Body → Client → Bool × Stream socket → Client
  answered m c (true, s) = record c { stream = some s }
  answered m c (false, s) = queue_message m (record c { stream = some s })

  abbrev send_now : Request Body → Client → Client
  send_now m c = elim c.stream [ none ↦ c | some s ↦ answered m c (Stream.send socket m s) ]

  unfoldable pub send : Request Body → Client → Client
  send m c = if c.reconnecting then queue_message m c else send_now m (flush_queue c)

  unfoldable pub send_all : List (Request Body) → Client → Client
  send_all [] c = c
  send_all (m ∷ ms) c = send_all ms (send m c)

  unfoldable pub close : Client → Client
  close c = elim c.stream [
    | none ↦ c
    | some s ↦ record c { stream = none; closed = c.closed ++ s ∷ [] }
  ]

  -- `meanwhile` are the signals that other tasks send between the close and the new stream, `fresh`
  -- what connecting came to, `response` what waiting for the reconnect response came to.
  unfoldable pub restart :
      List (Request Body)
      → Outcome SignalError Conn
      → Outcome SignalError Body
      → Client
      → Outcome SignalError Body × Client
  restart meanwhile fresh response c =
      let c1 = send_all meanwhile (close (record c { reconnecting = true })) in
      elim fresh [
        | ok conn ↦ elim response [
          | ok body ↦ (
            ok body,
            record (flush_queue (record c1 { stream = some (open_stream socket conn) })) {
              reconnecting = false;
            },
          )
          | err x ↦ (err x, record c1 { reconnecting = false })
          | panic ↦ (panic, record c1 { reconnecting = false })
          | hang ↦ (hang, c1)
        ]
        | err x ↦ (err x, record c1 { reconnecting = false })
        | panic ↦ (panic, record c1 { reconnecting = false })
        | hang ↦ (hang, c1)
      ]

module _ {Body : Type 0} where
  -- The token after a response, and the event that is passed on.
  abbrev pub refreshed : Response Body → String → String
  refreshed (refresh_token t) token = t
  refreshed _ token = token

  -- The task between the stream and the client's user, until the stream ends.
  unfoldable pub signal_task : List (Response Body) → String → String × List (SignalEvent Body)
  signal_task [] token = (token, Message.close ∷ [])
  signal_task (r ∷ rs) token =
      let (token', events) = signal_task rs (refreshed r token) in (token', message r ∷ events)

  -- `get_async_message!`: the first response of the wanted kind; the earlier ones are dropped. `open`
  -- says that the channel stays open behind the responses, so that only the timeout ends the wait.
  unfoldable pub get_async_message :
      {A : Type 0}
      → (Response Body → Option A)
      → String
      → List (Response Body)
      → (open_channel : Bool) → Outcome SignalError A × List (Response Body)
  get_async_message pick name [] open_channel =
      (err (if open_channel then timeout name else ws_error), [])
  get_async_message pick name (r ∷ rs) open_channel =
      let rest = get_async_message pick name rs open_channel in
      elim (pick r) [ some a ↦ (ok a, rs) | none ↦ rest ]
