-- ===== src/Engine.antt =====
-- The connection engine: livekit/src/rtc_engine/.
pub mod Transport
pub mod State
pub mod Reconnect
pub mod Negotiation
pub mod PendingTracks
pub mod Session
pub mod Codecs
