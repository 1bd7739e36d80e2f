-- ===== src/Ffi/Server/Examples.antt =====
-- livekit-ffi/src/server/mod.rs: tests, at messages that are texts.
use livekit_rust.Base.{◌≡◌, refl, true, [], ◌∷◌, String, arith}
use livekit_rust.Base.Outcome.{err, panic}
use livekit_rust.Ffi.Server.{
  Handle, ffi_room, ffi_track, already_initialized, default_server, on_initialize, store_new,
  send_event, on_dispose, drop_handle, not_configured, find, put,
}
use livekit_rust.Ffi.Server.Laws.{IsFresh, store_new_lem}

abbrev a_track : Handle
a_track = record { kind = ffi_track; holds = "TR_1" }

default_server-IsFresh : IsFresh {Message = String} (default_server String)
unfolding find
default_server-IsFresh = record { started = omega arith; below = λ id le. refl }

store_new_lem_example :
    (drop_handle String 1 (store_new String a_track (default_server String)).1).0 ≡ true
unfolding store_new
store_new_lem_example =
    (store_new_lem (default_server String) a_track ffi_room default_server-IsFresh (omega arith)).5

initialized_twice :
    (on_initialize String (on_initialize String (default_server String)).1).0
    ≡ err already_initialized
unfolding on_initialize
initialized_twice = refl

unconfigured : (send_event String "hello" (default_server String)).0 ≡ err not_configured
unfolding send_event
unconfigured = refl

-- The asynchronous disposal panics, and leaves the handles.
async_disposal :
    on_dispose String (λ s. s) true (store_new String a_track (default_server String)).1
    ≡ (panic, record (default_server String) { handles = (1, a_track) ∷ []; counter = 2 })
unfolding on_dispose store_new put
async_disposal = refl
