-- ===== src/Room.antt =====
-- A room and its participants: livekit/src/room/.
pub mod Publication
pub mod Participant
pub mod Session
pub mod E2ee
pub mod Events
pub mod Options
pub mod Local
