-- ===== src/Lib.antt =====
-- A model of the LiveKit client library: the connection to the server and the room on top of it.
--
-- The program. An application connects to a `Room`. The room runs on an `RtcEngine`, which owns an
-- `RtcSession`: the signalling channel (`SignalClient`, over a `SignalStream`) and two peer
-- connections (`PeerTransport`). The session reports to the engine by `SessionEvent`s, the engine to
-- the room by `EngineEvent`s, and the room to the application by `RoomEvent`s. When a channel closes,
-- the engine resumes the session or restarts with a new one. The room keeps the remote participants,
-- each participant its track publications, and each publication its track once media arrives.
-- Other languages use a room through the FFI server, which keeps a handle for every object that it
-- gives them and forwards the room's events to a callback. A server is entered with an access token.
--
-- The files, and the code they are about:
--   Base, Base/*         lists, maps, tests, and the outcomes of calls (value, error, panic, hang)
--   Proto                livekit/src/proto.rs, livekit/src/room/id.rs: enums and identifiers
--   Signal/Message       the messages of livekit-protocol/src/livekit.rs, is_queuable, SignalError
--   Signal/Stream        livekit-api/src/signal_client/signal_stream.rs: read_task, write_task, send
--   Signal/Client        livekit-api/src/signal_client/mod.rs: send, flush_queue, restart, signal_task
--   Engine/Transport     livekit/src/rtc_engine/peer_transport.rs: candidates, offers, descriptions
--   Engine/State         livekit/src/rtc_engine/mod.rs: the engine's state, close, connect, events
--   Engine/Reconnect     livekit/src/rtc_engine/mod.rs: try_reconnect's task and its attempts
--   Engine/Session       livekit/src/rtc_engine/rtc_session.rs: SessionInner and its handlers, restarts
--   Engine/PendingTracks livekit/src/rtc_engine/rtc_session.rs: add_track, remove_track, their answers
--   Engine/Negotiation   livekit/src/rtc_engine/rtc_session.rs: publisher_negotiation_needed
--   Engine/Codecs        livekit/src/rtc_engine/rtc_session.rs: the codecs in create_sender
--   Debouncer            livekit-protocol/src/debouncer.rs
--   Room/Publication     livekit/src/room/publication/mod.rs and remote.rs
--   Room/Participant     livekit/src/room/participant/mod.rs and remote_participant.rs
--   Room/Session         livekit/src/room/mod.rs: the handlers that change participants
--   Room/Events          livekit/src/room/mod.rs: room_task, connect, restarts, send_sync_state
--   Room/E2ee            livekit/src/room/e2ee/manager.rs: the frame cryptors and their switch
--   Room/Options         livekit/src/room/options.rs: presets and the encodings of a video track
--   Room/Local           livekit/src/room/participant/local_participant.rs: publishing, republishing
--   Ffi/Server           livekit-ffi/src/server/mod.rs: handles, identifiers, events sent
--   Ffi/Room             livekit-ffi/src/server/room.rs: forward_event, publish_track, unpublish_track
--   Ffi/Requests         livekit-ffi/src/server/requests.rs and room.rs: connect, disconnect
--   Token                livekit-api/src/access_token.rs and webhooks.rs
--   Observer             livekit-protocol/src/observer.rs: the dispatcher of events
-- The modules below one of these hold its theorems, named for what they are about; each Examples
-- applies them at concrete inputs.
--
-- How the code is read. A function keeps its name. A method that changes an object is a function to
-- the new object; one that calls handlers or sends events returns them in order. An async method is
-- a `Call`: a state, and an outcome that may be an error, a panic or a hang, which is what waiting for
-- a mutex that is never released comes to. A panic in a handler of the engine's events ends the room
-- task. What tasks do in between is explicit: a `Round` of the reconnection holds what the network
-- answers and the steps that other tasks take at each await.
-- The debouncer, the negotiation, the pending tracks, the session and the FFI's room are run by lists
-- of steps, in any order, and a step that is not possible is `none` or changes nothing.
-- libwebrtc is the record `PeerConnection`, with the record `Library` for its data channels and the
-- parsers; the WebSocket is the record `Socket`, the token library `Jwt`, the hashes `Hashing`,
-- and the engine that a local participant asks `LocalEngine`; the parser of URLs and the decoder of
-- messages are arguments.
--
-- Bounds. The reconnection makes `reconnect_attempts` (10) attempts, by recursion on the attempts that
-- are left, as the loop of the code does. The waits for a connection make at most 300 rounds, one in 50
-- ms until the timeout of 15 s, by recursion on the rounds that are left. The debouncer's task takes any
-- list of steps, and a bound on its length is proved. No model has other fuel: the remaining loops are
-- over lists. Identifiers of handles are 64-bit numbers that wrap around.
-- An audio level is its place in the order of floats, or NaN.
--
-- What is not modelled: timers other than their expiry, logging, and the order in which a HashMap is
-- iterated (it is the order of insertion here). Identifiers of participants and tracks in messages are
-- taken to have their prefix, where the code unwraps the conversion. The wait for a publication in
-- add_subscribed_media_track is over in the model. The making of an RtcSession's parts and its
-- simulate_scenario, the copying of configurations and of messages, the setters of the local
-- participant, the server API, the FFI's requests for tracks, streams and buffers, and the wrapper
-- of libwebrtc are left out: they are bindings, input and output, or fields that are only copied.
pub mod Base
pub mod Debouncer
pub mod Engine
pub mod Ffi
pub mod Observer
pub mod Proto
pub mod Room
pub mod Signal
pub mod Token
