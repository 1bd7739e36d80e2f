-- ===== src/Ffi/Server.antt =====
-- livekit-ffi/src/server/mod.rs and the requests that change only the server (requests.rs): the map
-- of handles, the counter of identifiers, and the events sent to the foreign language.
-- A handle is known by its type and by the identifier of what it holds. The foreign callback is the
-- list of the messages that it was given.
pub mod Laws
mod Examples
use livekit_rust.Base.{
  ℕ, zero, suc, ◌+◌, ◌%◌, ◌^◌, Bool, true, false, List, [], ◌∷◌, ◌++◌, Option, none, some, String,
  if◌then◌else◌, nat_eq, is_some,
}
use livekit_rust.Base.Outcome.{Outcome, ok, err, panic, hang, Call}

-- The types that implement `FfiHandle`.
pub data HandleKind : Type 0 where
  ffi_room ffi_participant ffi_publication ffi_track ffi_data_buffer : HandleKind
  ffi_video_source ffi_audio_source ffi_video_stream ffi_audio_stream : HandleKind
  audio_resampler audio_frame video_frame_buffer : HandleKind

abbrev number : HandleKind → ℕ
number ffi_room = 0
number ffi_participant = 1
number ffi_publication = 2
number ffi_track = 3
number ffi_data_buffer = 4
number ffi_video_source = 5
number ffi_audio_source = 6
number ffi_video_stream = 7
number ffi_audio_stream = 8
number audio_resampler = 9
number audio_frame = 10
number video_frame_buffer = 11

-- `handle.is::<T>()`
abbrev pub same_kind : HandleKind → HandleKind → Bool
same_kind a b = nat_eq (number a) (number b)

pub record Handle : Type 0 where
  pub kind : HandleKind
  pub holds : String

pub data FfiError : Type 0 where
  not_configured already_initialized handle_is_invalid handle_not_found : FfiError
  handle_is_not_a : HandleKind → FfiError
  request_refused : String → FfiError

-- A map from 64-bit identifiers.
abbrev pub Handles : Type 0
Handles = List (ℕ × Handle)

unfoldable pub find : ℕ → Handles → Option Handle
find id [] = none
find id ((j, h) ∷ m) = if nat_eq j id then some h else find id m

unfoldable pub put : ℕ → Handle → Handles → Handles
put id h [] = (id, h) ∷ []
put id h ((j, k) ∷ m) = if nat_eq j id then (id, h) ∷ m else (j, k) ∷ put id h m

unfoldable pub delete : ℕ → Handles → Handles
delete id [] = []
delete id ((j, k) ∷ m) = let rest = delete id m in if nat_eq j id then rest else (j, k) ∷ rest

module _ (Message : Type 0) where
  -- `sent` are the messages given to the callback so far, latest last.
  pub record Server : Type 0 where
    pub handles : Handles
    pub counter : ℕ
    pub configured : Bool
    pub sent : List Message

  abbrev pub default_server : Server
  default_server = record { handles = []; counter = 1; configured = false; sent = [] }

  -- `fetch_add` on an `AtomicU64`
  unfoldable pub next_id : Server → ℕ × Server
  next_id s = (s.counter, record s { counter = (s.counter + 1) % 2 ^ 64 })

  unfoldable pub store_handle : ℕ → Handle → Server → Server
  store_handle id h s = record s { handles = put id h s.handles }

  found : HandleKind → Option Handle → Outcome FfiError Handle
  found kind none = err handle_not_found
  found kind (some h) = if same_kind h.kind kind then ok h else err (handle_is_not_a kind)

  unfoldable pub retrieve_handle : HandleKind → ℕ → Server → Outcome FfiError Handle
  unfolding found
  retrieve_handle kind id s =
      if nat_eq id 0 then err handle_is_invalid else found kind (find id s.handles)

  unfoldable pub drop_handle : ℕ → Server → Bool × Server
  drop_handle id s = (is_some (find id s.handles), record s { handles = delete id s.handles })

  -- The callback is given the message also when it takes more than two seconds: that is only logged.
  unfoldable pub send_event : Message → Call Server FfiError (Unit {0})
  send_event m s =
      if s.configured
      then (ok tt, record s { sent = s.sent ++ m ∷ [] })
      else (err not_configured, s)

  -- The identifier taken, and the handle stored under it.
  unfoldable pub store_new : Handle → Server → ℕ × Server
  unfolding next_id store_handle
  store_new h s = let (id, s1) = next_id s in (id, store_handle id h s1)

  unfoldable pub on_initialize : Call Server FfiError (Unit {0})
  on_initialize s =
      if s.configured then (err already_initialized, s) else (ok tt, record s { configured = true })

  -- `close_rooms` is `dispose`'s closing of all the rooms whose handles are stored.
  unfoldable pub dispose : (Server → Server) → Server → Server
  dispose close_rooms s = record (close_rooms s) { handles = []; configured = false }

  -- The asynchronous branch is `todo!()`.
  unfoldable pub on_dispose : (Server → Server) → Bool → Call Server FfiError (Unit {0})
  unfolding dispose
  on_dispose close_rooms true s = (panic, record s { configured = false })
  on_dispose close_rooms false s = (ok tt, dispose close_rooms (record s { configured = false }))
