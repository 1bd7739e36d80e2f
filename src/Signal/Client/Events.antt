-- ===== src/Signal/Client/Events.antt =====
-- signal_client/mod.rs: the task between a stream and the client's user, and the waits for the
-- server's first response.
use livekit_rust.Base.{
  ◌≡◌, refl, Bool, List, [], ◌∷◌, ◌++◌, map, Option, none, some, arith, String, All, if◌then◌else◌,
}
use livekit_rust.Base.Outcome.{ok, err}
use livekit_rust.Signal.Message
use livekit_rust.Signal.Message.{Response, SignalEvent, message, refresh_token, ws_error, timeout}
use livekit_rust.Signal.Client.{signal_task, get_async_message}

module _ {Body : Type 0} where
  -- The last token that the server refreshed.
  abbrev pub new_token : Response Body → Option String
  new_token (refresh_token t) = some t
  new_token _ = none

  abbrev pub last_token : List (Response Body) → Option String
  last_token [] = none
  last_token (r ∷ rs) = elim (last_token rs) [ some t ↦ some t | none ↦ new_token r ]

  -- Every response is passed on, in order, behind the last of them the news that the stream is
  -- closed, and the token is the last one that the server sent, or the one before.
  pub signal_task_lem :
      (rs : List (Response Body)) (token : String)
      → ((signal_task rs token).1 ≡ map message rs ++ Message.close ∷ [])
        × ((signal_task rs token).0 ≡ (elim (last_token rs) [ some t ↦ t | none ↦ token ]))
  unfolding signal_task
  signal_task_lem [] token = (refl, refl)
  signal_task_lem (refresh_token t ∷ rs) token = ground (arith, signal_task_lem rs t)
  signal_task_lem (r ∷ rs) token = ground (arith, signal_task_lem rs token)

  module _ {A : Type 0} (pick : Response Body → Option A) (name : String) where
    -- The wait for a response ends with the first of the wanted kind, however many others come
    -- before it, and leaves those behind it unread.
    pub get_async_message-first :
        (before after : List (Response Body)) (r : Response Body) (a : A) (open_channel : Bool)
        → All (λ b. pick b ≡ none) before
        → pick r ≡ some a
        → get_async_message pick name (before ++ r ∷ after) open_channel ≡ (ok a, after)
    unfolding get_async_message
    get_async_message-first [] after r a oc others wanted = ground arith
    get_async_message-first (b ∷ before) after r a oc others wanted =
        ground (arith, get_async_message-first before after r a oc others.1 wanted)

    -- Without such a response the wait ends with an error: a timeout while the channel stays open.
    pub get_async_message-none :
        (rs : List (Response Body)) (open_channel : Bool)
        → All (λ b. pick b ≡ none) rs
        → get_async_message pick name rs open_channel
          ≡ (err (if open_channel then timeout name else ws_error), [])
    unfolding get_async_message
    get_async_message-none [] oc others = refl
    get_async_message-none (r ∷ rs) oc others =
        ground (arith, get_async_message-none rs oc others.1)
