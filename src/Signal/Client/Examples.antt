-- ===== src/Signal/Client/Examples.antt =====
-- signal_client/mod.rs with a socket that takes everything, and the URL of a connection.
use livekit_rust.Base.{ℕ, ◌≡◌, refl, true, false, List, [], ◌∷◌, Option, none, some}
use livekit_rust.Signal.Message.{Request, Response, refresh_token, join, pong, is_queuable}
use livekit_rust.Signal.Stream.{Socket, Stream}
use livekit_rust.Signal.Client.{Client, default_signal_options, get_reconnect_url, send}
use livekit_rust.Signal.Client.Laws.{send_in_order, send_on_ended_stream}

abbrev taking : Socket ℕ
taking = record { Conn = ℕ; write = λ f n. (true, n) }

abbrev live : Stream taking
live = record { conn = 0; sent = Request.mute 1 ∷ []; ended = false }

abbrev client : Client taking
client = record {
  stream = some live;
  token = "t0";
  reconnecting = false;
  queue = Request.offer 2 ∷ [];
  closed = [];
}

url_test :
    get_reconnect_url
      (λ u. some (record { origin = u; path = "/"; query = [] }))
      "wss://a"
      "t0"
      default_signal_options
      "PA_1"
    ≡ some (record {
      origin = "wss://a";
      path = "/rtc";
      query =
          ("sdk", "rust")
          ∷ ("access_token", "t0")
          ∷ ("protocol", "8")
          ∷ ("auto_subscribe", "1")
          ∷ ("adaptive_stream", "0")
          ∷ ("reconnect", "1")
          ∷ ("sid", "PA_1")
          ∷ [];
    })
unfolding get_reconnect_url
url_test = refl

send_in_order_example :
    let u = send taking (Request.leave 3) client in
    (u.queue ≡ [])
    × ((t : Stream taking) × (u.stream ≡ some t)
        × (t.sent ≡ Request.mute 1 ∷ Request.offer 2 ∷ Request.leave 3 ∷ []))
send_in_order_example =
    send_in_order taking (λ f c. refl) (Request.leave 3) client live refl refl refl

send_on_ended_stream_example :
    (send taking
      (Request.leave 3)
      (record client { stream = some (record live { ended = true }) })).queue
    ≡ Request.leave 3 ∷ []
unfolding is_queuable
send_on_ended_stream_example =
    send_on_ended_stream taking (Request.leave 3)
      (record client { stream = some (record live { ended = true }) })
      (record live { ended = true }) refl refl refl

abbrev responses : List (Response ℕ)
responses = refresh_token "t1" ∷ pong 7 ∷ refresh_token "t2" ∷ join 3 ∷ pong 8 ∷ []

abbrev pick_join : Response ℕ → Option ℕ
pick_join (join b) = some b
pick_join _ = none
