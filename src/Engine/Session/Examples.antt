-- ===== src/Engine/Session/Examples.antt =====
-- livekit/src/rtc_engine/rtc_session.rs with a small peer connection and messages that are numbers.
use livekit_rust.Base.{ℕ, ◌≡◌, ◌≢◌, ◌≤◌, ◌+◌, refl, true, false, List, [], ◌∷◌, some, none, arith}
use livekit_rust.Base.Outcome.{ok}
use livekit_rust.Proto.{lossy_proto}
use livekit_rust.Signal.Message
use livekit_rust.Signal.Message.{message}
use livekit_rust.Signal.Client
use livekit_rust.Signal.Stream
use livekit_rust.Signal.Stream.{Socket}
use livekit_rust.Engine.State.{Payloads, client_initiated, session_connected}
use livekit_rust.Engine.Transport.{default_offer_options, add_candidates}
use livekit_rust.Engine.Transport.Examples.{toy, offering}
use livekit_rust.Engine.PendingTracks.{no_tracks}
use livekit_rust.Engine.Session.{
  Library, Session, peer_new, publisher, subscriber, user, connection_change, pc_connected,
  data_channel, on_rtc_event, signal_task, restart_session, peer_reconnecting,
}
use livekit_rust.Engine.Session.Connected.{
  connections, connected_once, session_run, sees, ends_restart,
}
use livekit_rust.Engine.Session.Race.{after, early_connection_forgotten, is_connected}
use livekit_rust.Engine.Session.Silence.{deferred_offer_silences, negotiate}
use livekit_rust.Engine.Session.Waiting.{wait_pc_connection}

abbrev numbers : Payloads
numbers = record {
  Updates = ℕ;
  MediaTrack = ℕ;
  Packet = List ℕ;
  Speakers = ℕ;
  Qualities = ℕ;
  Info = ℕ;
}

abbrev plain : Library numbers toy ℕ
plain = record {
  Stream = ℕ;
  Track = ℕ;
  Channel = ℕ;
  TrackInfo = ℕ;
  Configuration = ℕ;
  media_track = λ s t. s + t;
  packet = λ sid bytes kind. bytes;
  channel_is_open = λ c. true;
  channel_label = λ c. "_lossy";
  channel_id = λ c. c;
  send_on_channel = λ bytes c. (ok tt, c);
  set_configuration = λ k c. (ok tt, c);
  parse_description = λ b. ok b;
  offer_body = λ d. d;
  answer_body = λ d. d;
  parse_candidate = λ b. ok b;
  trickle_target = λ b. publisher;
  trickle_body = λ c t. ok c;
  leave_reason = λ b. client_initiated;
  leave_can_reconnect = λ b. true;
  leave_body = 0;
  updates = λ b. b;
  speakers = λ b. b;
  qualities = λ b. b;
  published_cid = λ b. "c";
  published_track = λ b. some b;
  add_track_cid = λ b. "c";
  decode = λ bytes. ok (record { kind = lossy_proto; value = some (user "PA_1" bytes) });
  reconnect_configuration = λ b. b;
}

abbrev taking : Socket ℕ
taking = record { Conn = ℕ; write = λ f n. (true, n) }

-- A new session, whose publisher waits for the answer to an offer.
abbrev session : Session taking plain
session = record {
  signal_client = record {
    stream = none;
    token = "";
    reconnecting = false;
    queue = [];
    closed = [];
  };
  pc_state = peer_new;
  has_published = false;
  publisher_pc = offering;
  subscriber_pc = offering;
  pending_tracks = no_tracks ℕ;
  lossy_dc = 0;
  reliable_dc = 1;
  subscriber_dc = [];
  closed = false;
  emitted = [];
}

connected_once_example :
    connections taking plain
      (session_run taking plain
        (sees (connection_change pc_connected subscriber)
          ∷ ends_restart
          ∷ sees (connection_change pc_connected subscriber)
          ∷ [])
        session).emitted
    ≤ 1
unfolding connections
connected_once_example =
    connected_once taking plain
      (sees (connection_change pc_connected subscriber)
        ∷ ends_restart
        ∷ sees (connection_change pc_connected subscriber)
        ∷ [])
      session (omega arith)

deferred_offer_silences_example :
    (signal_task taking plain
      (message (Message.answered 5) ∷ message (Message.left 1) ∷ Message.close ∷ [])
      (negotiate taking plain default_offer_options session)).1.emitted
    ≡ []
unfolding add_candidates
deferred_offer_silences_example =
    (deferred_offer_silences taking plain session default_offer_options 5 5 _ _
      (message (Message.left 1) ∷ Message.close ∷ []) refl refl refl refl refl refl).1

-- The restart of a session, during which its subscriber connects.
abbrev restarted : Session taking plain
restarted = record session {
  signal_client = record {
    stream = some (record { conn = 0; sent = []; ended = false });
    token = "";
    reconnecting = false;
    queue = [];
    closed = [];
  };
  pc_state = peer_reconnecting;
  emitted = session_connected ∷ [];
}

early_connection_forgotten_example :
    wait_pc_connection
      (λ i. is_connected (after taking plain (λ j. data_channel j subscriber) restarted i).pc_state)
      (λ i. false)
    ≢ ok tt
unfolding restart_session on_rtc_event Client.restart Client.flush_queue Client.drain
    Client.send_all Client.close Stream.open_stream
early_connection_forgotten_example =
    early_connection_forgotten taking plain session restarted [] (ok 0) (ok 1)
      (λ j. data_channel j subscriber) (λ i. false) refl (λ j. tt)
