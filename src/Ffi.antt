-- ===== src/Ffi.antt =====
-- livekit-ffi/src/server/: the foreign function interface, through which other languages use a room.
pub mod Server
pub mod Room
pub mod Requests
