-- ===== src/Engine/Session.antt =====
-- livekit/src/rtc_engine/rtc_session.rs: `SessionInner`, the signalling client and the two peer
-- connections of one connection to a room, with the handlers of what these tell it.
-- `Library` stands for libwebrtc's data channels and tracks and for the parsers; a message's body
-- is read through it. The end of the session's tasks is not part of its state,
-- and the debouncer of its negotiations is in Engine.Negotiation.
pub mod Waiting
mod Connected
mod Silence
mod Race
mod Examples
use livekit_rust.Base.{
  ℕ, zero, suc, ◌+◌, ◌%◌, ◌^◌, ◌≡◌, Bool, true, false, not, ◌&&◌, ◌||◌, List, [], ◌∷◌, ◌++◌, map,
  Option, none, some, String, if◌then◌else◌, ◌⊎◌, inl, inr,
}
use livekit_rust.Base.Outcome.{
  Outcome, ok, err, panic, hang, Call, ◌>>=◌, ◌>>◌, pure, throw, modify, continue,
}
use livekit_rust.Proto.{
  DataPacketKind, reliable, lossy, ProtoKind, packet_kind_from, sid_try_from, participant_prefix,
}
use livekit_rust.Signal.Message
use livekit_rust.Signal.Message.{Request, Response, SignalError, SignalEvent}
use livekit_rust.Signal.Stream.{Socket}
use livekit_rust.Signal.Client
use livekit_rust.Signal.Client.{Client}
use livekit_rust.Engine.State.{
  Payloads, SessionEvent, session_participant_update, session_data, session_media_track,
  session_speakers_changed, session_connection_quality, session_close, session_connected,
  DisconnectReason, unknown_reason, EngineError, rtc, connection, internal,
}
use livekit_rust.Engine.State
use livekit_rust.Engine.Transport
use livekit_rust.Engine.Transport.{PeerConnection, Transport, OfferOptions, default_offer_options}
use livekit_rust.Engine.PendingTracks.{Tracks, track_published, discard, register}

pub data PeerState : Type 0 where
  peer_new peer_connected peer_disconnected peer_reconnecting peer_closed : PeerState

-- `TryFrom<u8>`, and `as u8`.
unfoldable pub peer_state_try_from : ℕ → Option PeerState
peer_state_try_from zero = some peer_new
peer_state_try_from (suc zero) = some peer_connected
peer_state_try_from (suc (suc zero)) = some peer_disconnected
peer_state_try_from (suc (suc (suc zero))) = some peer_reconnecting
peer_state_try_from (suc (suc (suc (suc zero)))) = some peer_closed
peer_state_try_from _ = none

abbrev pub peer_state_number : PeerState → ℕ
peer_state_number peer_new = 0
peer_state_number peer_connected = 1
peer_state_number peer_disconnected = 2
peer_state_number peer_reconnecting = 3
peer_state_number peer_closed = 4

pub data PeerConnectionState : Type 0 where
  pc_new pc_connecting pc_connected pc_disconnected pc_failed pc_closed : PeerConnectionState

pub data Target : Type 0 where
  publisher subscriber : Target

-- `data_packet::Value`: the sender's sid and the payload, or a speaker update, which is ignored.
pub data PacketValue : Type 0 where
  user : String → List ℕ → PacketValue
  speaker : PacketValue

pub record DataPacket : Type 0 where
  pub kind : ProtoKind
  pub value : Option PacketValue

-- What the session takes from libwebrtc, serde and prost, beside the peer connection.
pub record Library (p : Payloads) (api : PeerConnection) (Body : Type 0) : Type 1 where
  pub Stream : Type 0
  pub Track : Type 0
  pub Channel : Type 0
  pub TrackInfo : Type 0
  pub Configuration : Type 0
  pub media_track : Stream → Track → p.MediaTrack
  pub packet : String → List ℕ → DataPacketKind → p.Packet
  pub channel_is_open : Channel → Bool
  pub channel_label : Channel → String
  pub channel_id : Channel → ℕ
  pub send_on_channel : List ℕ → Call Channel EngineError (Unit {0})
  pub set_configuration : Configuration → Call api.Conn api.Error (Unit {0})
  pub parse_description : Body → Outcome EngineError api.Description
  pub offer_body : api.Description → Body
  pub answer_body : api.Description → Body
  pub parse_candidate : Body → Outcome EngineError api.Candidate
  pub trickle_target : Body → Target
  pub trickle_body : api.Candidate → Target → Outcome EngineError Body
  pub leave_reason : Body → DisconnectReason
  pub leave_can_reconnect : Body → Bool
  pub leave_body : Body
  pub updates : Body → p.Updates
  pub speakers : Body → p.Speakers
  pub qualities : Body → p.Qualities
  pub published_cid : Body → String
  pub published_track : Body → Option TrackInfo
  pub add_track_cid : Body → String
  pub decode : List ℕ → Outcome EngineError DataPacket
  pub reconnect_configuration : Body → Configuration

module _ {p : Payloads} {api : PeerConnection} {Body : Type 0} (socket : Socket Body)
    (lib : Library p api Body) where
  open api use {Description, Candidate, Conn, Error}
  open lib use {Stream, Track, Channel, TrackInfo}

  pub record Session : Type 0 where
    pub signal_client : Client socket
    pub pc_state : PeerState
    pub has_published : Bool
    pub publisher_pc : Transport api
    pub subscriber_pc : Transport api
    pub pending_tracks : Tracks TrackInfo
    pub lossy_dc : Channel
    pub reliable_dc : Channel
    pub subscriber_dc : List Channel
    pub closed : Bool
    pub emitted : List (SessionEvent p)

  -- `RtcEvent`, the callbacks of the peer connections and the data channels.
  pub data RtcEvent : Type 0 where
    ice_candidate : Candidate → Target → RtcEvent
    connection_change : PeerConnectionState → Target → RtcEvent
    data_channel : Channel → Target → RtcEvent
    offer : Description → Target → RtcEvent
    track : List Stream → Track → Target → RtcEvent
    data_message : List ℕ → Bool → RtcEvent

  abbrev Handler : Type 0
  Handler = Call Session EngineError (Unit {0})

  -- `self.emitter.send(…)`
  unfoldable pub emit : SessionEvent p → Session → Session
  emit e s = record s { emitted = s.emitted ++ e ∷ [] }

  -- `self.signal_client.send(…)`
  unfoldable pub send_signal : Request Body → Session → Session
  send_signal m s = record s { signal_client = Client.send socket m s.signal_client }

  -- The result of a peer connection, whose error is `EngineError::Rtc`.
  abbrev pub from_rtc : {A : Type 0} → Outcome Error A → Outcome EngineError A
  from_rtc (ok a) = ok a
  from_rtc (err e) = err rtc
  from_rtc panic = panic
  from_rtc hang = hang

  unfoldable pub on_publisher :
      {A : Type 0} → Call (Transport api) Error A → Call Session EngineError A
  on_publisher m s = let (r, t) = m s.publisher_pc in (from_rtc r, record s { publisher_pc = t })

  unfoldable pub on_subscriber :
      {A : Type 0} → Call (Transport api) Error A → Call Session EngineError A
  on_subscriber m s = let (r, t) = m s.subscriber_pc in (from_rtc r, record s { subscriber_pc = t })

  unfoldable pub on_tracks :
      {A : Type 0} → Call (Tracks TrackInfo) EngineError A → Call Session EngineError A
  on_tracks m s = let (r, t) = m s.pending_tracks in (r, record s { pending_tracks = t })

  -- A value that was parsed.
  abbrev pub parsed : {A : Type 0} → Outcome EngineError A → Call Session EngineError A
  parsed r s = (r, s)

  unfoldable pub on_session_disconnected :
      (source : String) (reason : DisconnectReason) (can_reconnect retry_now full_reconnect : Bool)
      → Session
      → Session
  unfolding emit
  on_session_disconnected source reason can_reconnect retry_now full_reconnect =
      emit (session_close source reason can_reconnect full_reconnect retry_now)

  add_remote_candidate : Target → Candidate → Handler
  add_remote_candidate publisher ic = on_publisher (Transport.add_ice_candidate api ic)
  add_remote_candidate subscriber ic = on_subscriber (Transport.add_ice_candidate api ic)

  unfoldable pub on_signal_event : Response Body → Handler
  unfolding emit on_session_disconnected on_publisher on_subscriber add_remote_candidate on_tracks
      send_signal
  on_signal_event (Message.answered b) = parsed (lib.parse_description b) >>= λ d.
      on_publisher (Transport.set_remote_description api d)
  on_signal_event (Message.offered b) = parsed (lib.parse_description b) >>= λ d.
      on_subscriber (Transport.create_anwser api d) >>= λ a.
      modify (send_signal (Request.answer (lib.answer_body a)))
  on_signal_event (Message.trickled b) =
      parsed (lib.parse_candidate b) >>= add_remote_candidate (lib.trickle_target b)
  on_signal_event (Message.left b) = modify (
      on_session_disconnected "server request to leave" (lib.leave_reason b)
        (lib.leave_can_reconnect b) true true)
  on_signal_event (Message.update b) = modify (emit (session_participant_update (lib.updates b)))
  on_signal_event (Message.speakers_changed b) =
      modify (emit (session_speakers_changed (lib.speakers b)))
  on_signal_event (Message.connection_quality b) =
      modify (emit (session_connection_quality (lib.qualities b)))
  on_signal_event (Message.track_published b) =
      on_tracks (track_published TrackInfo (lib.published_cid b) (lib.published_track b))
  on_signal_event _ = pure tt

  -- `pc_state.swap(Connected)`: only the first connection is announced.
  connected_from : PeerState → Session → Session
  unfolding emit
  connected_from peer_new s = emit session_connected (record s { pc_state = peer_connected })
  connected_from _ s = record s { pc_state = peer_connected }

  on_failure : Session → Session
  unfolding on_session_disconnected
  on_failure s =
      on_session_disconnected "pc_state failed" unknown_reason true false false
        (record s { pc_state = peer_disconnected })

  on_connection_change : PeerConnectionState → Target → Session → Session
  unfolding connected_from on_failure
  on_connection_change pc_connected subscriber s = connected_from s.pc_state s
  on_connection_change pc_failed target s = on_failure s
  on_connection_change _ target s = s

  -- A packet without a value, or with a malformed identifier, is an `unwrap` that panics.
  from_user : DataPacketKind → String ⊎ String → List ℕ → Handler
  unfolding emit
  from_user kind (inl sid) payload s = (panic, s)
  from_user kind (inr sid) payload s = (ok tt, emit (session_data (lib.packet sid payload kind)) s)

  on_packet : DataPacket → Option PacketValue → Handler
  unfolding from_user sid_try_from packet_kind_from
  on_packet d none s = (panic, s)
  on_packet d (some speaker) s = (ok tt, s)
  on_packet d (some (user sid payload)) s =
      from_user (packet_kind_from d.kind) (sid_try_from participant_prefix sid) payload s

  unfoldable pub on_rtc_event : RtcEvent → Handler
  unfolding send_signal on_connection_change emit on_packet
  on_rtc_event (ice_candidate ic target) =
      parsed (lib.trickle_body ic target) >>= λ b. modify (send_signal (Request.trickle b))
  on_rtc_event (connection_change state target) = modify (on_connection_change state target)
  on_rtc_event (data_channel dc target) =
      modify (λ s. record s { subscriber_dc = s.subscriber_dc ++ dc ∷ [] })
  on_rtc_event (offer d target) = modify (send_signal (Request.offer (lib.offer_body d)))
  on_rtc_event (track [] t target) = pure tt
  on_rtc_event (track (stream ∷ streams) t target) =
      modify (emit (session_media_track (lib.media_track stream t)))
  on_rtc_event (data_message bytes false) = throw (internal "text messages aren't supported")
  on_rtc_event (data_message bytes true) = parsed (lib.decode bytes) >>= λ d. on_packet d d.value

  -- The loops of the two tasks: an error is logged; a handler that waits for ever, or panics, is the
  -- last one. `false` says that the task is over.
  abbrev pub next :
      (Session → Bool × Session) → Outcome EngineError (Unit {0}) × Session → Bool × Session
  next rest (ok u, s) = rest s
  next rest (err e, s) = rest s
  next rest (panic, s) = (false, s)
  next rest (hang, s) = (false, s)

  unfoldable pub rtc_session_task : List RtcEvent → Session → Bool × Session
  unfolding on_rtc_event
  rtc_session_task [] s = (true, s)
  rtc_session_task (e ∷ es) s = next (rtc_session_task es) (on_rtc_event e s)

  unfoldable pub on_signal : SignalEvent Body → Handler
  unfolding on_signal_event on_session_disconnected
  on_signal (Message.message m) = on_signal_event m
  on_signal Message.close =
      modify (on_session_disconnected "SignalClient closed" unknown_reason true false false)

  unfoldable pub signal_task : List (SignalEvent Body) → Session → Bool × Session
  unfolding on_signal
  signal_task [] s = (true, s)
  signal_task (e ∷ es) s = next (signal_task es) (on_signal e s)

  unfoldable pub close : Session → Session
  unfolding send_signal
  close s =
      let s1 = send_signal (Request.leave lib.leave_body) s in
      record s1 {
        closed = true;
        signal_client = Client.close socket s1.signal_client;
        publisher_pc = Transport.close api s1.publisher_pc;
        subscriber_pc = Transport.close api s1.subscriber_pc;
      }

  -- The part of `add_track` before its wait.
  unfoldable pub add_track : Body → Call Session EngineError ℕ
  unfolding on_tracks send_signal
  add_track req = on_tracks (register TrackInfo (lib.add_track_cid req)) >>= λ n s.
      (ok n, send_signal (Request.add_track req) s)

  -- `sender_track` is the identifier of the sender's track; `removed` the peer connection's answer.
  unfoldable pub remove_track : Option String → Call (Transport api) Error (Unit {0}) → Handler
  unfolding on_publisher
  remove_track none removed s = on_publisher removed s
  remove_track (some id) removed s =
      on_publisher removed (record s { pending_tracks = discard TrackInfo id s.pending_tracks })

  abbrev pub of_signal : {A : Type 0} → Outcome SignalError A → Outcome EngineError A
  of_signal (ok a) = ok a
  of_signal (err e) = err State.signal
  of_signal panic = panic
  of_signal hang = hang

  -- The restart of the signalling client, with what the connection and the server came to, and what
  -- other tasks send meanwhile (Signal.Client.restart).
  restart_signal :
      List (Request Body)
      → Outcome SignalError socket.Conn
      → Outcome SignalError Body
      → Call Session EngineError Body
  restart_signal meanwhile fresh response s =
      let (r, c) = Client.restart socket meanwhile fresh response s.signal_client in
      (of_signal r, record s { signal_client = c })

  configure : Body → Call (Transport api) Error (Unit {0})
  configure response t =
      let (r, c) = lib.set_configuration (lib.reconnect_configuration response) t.peer_connection in
      (r, record t { peer_connection = c })

  restart_offer : Handler
  unfolding on_publisher
  restart_offer s =
      if s.has_published
      then on_publisher
          (Transport.create_and_send_offer api
            (record default_offer_options { ice_restart = true }))
          s
      else (ok tt, s)

  -- All of `restart_session` but its last store, before which other tasks run.
  unfoldable pub begin_restart :
      List (Request Body) → Outcome SignalError socket.Conn → Outcome SignalError Body → Handler
  unfolding restart_signal configure restart_offer on_publisher on_subscriber
  begin_restart meanwhile fresh response = restart_signal meanwhile fresh response >>= λ b.
      (on_publisher (configure b) >> on_subscriber (configure b) >> restart_offer)

  unfoldable pub mark_restarted : Session → Session
  mark_restarted s = record s { pc_state = peer_reconnecting }

  -- `others` is what other tasks do to the session before the last store.
  unfoldable pub restart_session :
      List (Request Body)
      → Outcome SignalError socket.Conn
      → Outcome SignalError Body
      → (Session → Session)
      → Handler
  unfolding begin_restart mark_restarted
  restart_session meanwhile fresh response others =
      begin_restart meanwhile fresh response >> modify (λ s. mark_restarted (others s))

  unfoldable pub channel_of : DataPacketKind → Session → Channel
  channel_of reliable s = s.reliable_dc
  channel_of lossy s = s.lossy_dc

  -- The label, the identifier as a `u32`, and the target.
  abbrev channel_info : Target → Channel → String × ℕ × Target
  channel_info target dc = (lib.channel_label dc, lib.channel_id dc % 2 ^ 32, target)

  unfoldable pub data_channels_info : Session → List (String × ℕ × Target)
  data_channels_info s =
      (if s.has_published
        then channel_info publisher s.lossy_dc ∷ channel_info publisher s.reliable_dc ∷ []
        else [])
      ++ map (channel_info subscriber) s.subscriber_dc

  send_on : DataPacketKind → List ℕ → Handler
  send_on reliable bytes s =
      let (r, dc) = lib.send_on_channel bytes s.reliable_dc in (r, record s { reliable_dc = dc })
  send_on lossy bytes s =
      let (r, dc) = lib.send_on_channel bytes s.lossy_dc in (r, record s { lossy_dc = dc })

  -- `connected` is what `ensure_publisher_connected` came to (Engine.Session.Waiting), after what
  -- happened to the session meanwhile.
  unfoldable pub publish_data : Handler → DataPacketKind → List ℕ → Handler
  unfolding send_on
  publish_data connected kind bytes = connected >> send_on kind bytes
