-- ===== src/Signal/Message.antt =====
-- The messages of the signalling protocol, by the variants of signal_request::Message and
-- signal_response::Message (livekit-protocol/src/livekit.rs), with payloads of one type where the
-- signalling client does not look at them.
use livekit_rust.Base.{ℕ, Bool, true, false, String}

module _ (Body : Type 0) where
  pub data Request : Type 0 where
    offer answer trickle add_track mute subscription track_setting leave : Body → Request
    update_layers subscription_permission sync_state simulate : Body → Request
    update_metadata ping_req : Body → Request
    ping : ℕ → Request

  pub data Response : Type 0 where
    join answered offered trickled update track_published left muted : Body → Response
    speakers_changed room_update connection_quality stream_state_update : Body → Response
    subscribed_quality_update subscription_permission_update : Body → Response
    track_unpublished reconnect pong_resp subscription_response : Body → Response
    refresh_token : String → Response
    pong : ℕ → Response

  pub data SignalEvent : Type 0 where
    message : Response → SignalEvent
    close : SignalEvent

  -- Whether a signal is still worth sending after the signalling connection came back.
  unfoldable pub is_queuable : Request → Bool
  is_queuable (sync_state b) = true
  is_queuable (trickle b) = true
  is_queuable (offer b) = true
  is_queuable (answer b) = true
  is_queuable (simulate b) = true
  is_queuable (leave b) = true
  is_queuable _ = false

pub data SignalError : Type 0 where
  ws_error url_parse proto_parse send_error : SignalError
  client_error server_error : (status : ℕ) (body : String) → SignalError
  timeout : String → SignalError
