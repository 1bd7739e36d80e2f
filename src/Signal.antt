-- ===== src/Signal.antt =====
-- The signalling connection: livekit-api/src/signal_client/.
pub mod Message
pub mod Stream
pub mod Client
