-- ===== src/Ffi/Requests.antt =====
-- livekit-ffi/src/server/requests.rs and room.rs: the requests that connect to a room, leave it, and
-- reach a room or a publication through its handle.
mod Connect
mod Examples
use livekit_rust.Base.{
  ℕ, ◌+◌, Bool, true, false, List, [], ◌∷◌, ◌++◌, Option, none, some, String, if◌then◌else◌,
}
use livekit_rust.Base.Outcome.{Outcome, ok, err, panic, hang, Call}
use livekit_rust.Ffi.Server.{
  Server, Handle, HandleKind, ffi_room, ffi_participant, ffi_publication, FfiError, request_refused,
  next_id, store_handle, retrieve_handle,
}
use livekit_rust.Ffi.Room.{
  Message, connect_callback, connect_error, disconnect_callback, RoomInner, InitialState, handle_of,
  tell_event, build_initial_states,
}

abbrev S : Type 0
S = Server Message

-- What `Room::connect` came to: an error, or the sids of the room, of the local participant and of
-- the others with their tracks.
pub data Joined : Type 0 where
  failed : String → Joined
  joined : String → String → List (String × List String) → Joined

-- The task that `FfiRoom::connect` spawns, up to the start of the room's tasks.
unfoldable pub connect_done : ℕ → Joined → S → Option RoomInner × S
unfolding next_id build_initial_states store_handle tell_event
connect_done async_id (failed e) s = (none, tell_event (connect_error async_id e) s)
connect_done async_id (joined room local others) s =
    let (id, s1) = next_id Message s in
    let ((local_id, name, states), s2) = build_initial_states local others s1 in
    let s3 = store_handle Message id (handle_of ffi_room room) s2 in
    (
      some (record {
        handle_id = id;
        pending_published_tracks = [];
        pending_unpublished_tracks = [];
      }),
      tell_event (connect_callback async_id id (local_id, name) states) s3,
    )

-- The request itself answers with a new identifier, and spawns the task.
unfoldable pub on_connect : S → ℕ × S
unfolding next_id
on_connect = next_id Message

-- `close` is what closing the room, and its tasks, comes to.
unfoldable pub on_disconnect : Call S FfiError (Unit {0}) → ℕ → ℕ → Call S FfiError (Unit {0})
unfolding retrieve_handle tell_event
on_disconnect close async_id room_handle s = elim (retrieve_handle Message ffi_room room_handle s) [
  | ok h ↦
      let (r, s1) = close s in
      elim r [
        | ok u ↦ (ok tt, tell_event (disconnect_callback async_id) s1)
        | err e ↦ (ok tt, tell_event (disconnect_callback async_id) s1)
        | panic ↦ (panic, s1)
        | hang ↦ (hang, s1)
      ]
  | _ ↦ (panic, s)
]

-- `on_publish_track`, `on_unpublish_track` and `on_publish_data`: the room of a participant's handle.
unfoldable pub with_participant :
    {A : Type 0} → (Handle → Call S FfiError A) → ℕ → Call S FfiError A
unfolding retrieve_handle
with_participant f handle s = elim (retrieve_handle Message ffi_participant handle s) [
  | ok h ↦ f h s
  | err e ↦ (err e, s)
  | panic ↦ (panic, s)
  | hang ↦ (hang, s)
]

-- `is_remote` says whether the publication of a handle is a remote one.
unfoldable pub on_set_subscribed :
    (Handle → Bool) → (Handle → S → S) → ℕ → Call S FfiError (Unit {0})
unfolding retrieve_handle
on_set_subscribed is_remote set_subscribed handle s =
    elim (retrieve_handle Message ffi_publication handle s) [
      | ok h ↦
          if is_remote h
          then (ok tt, set_subscribed h s)
          else (err (request_refused "publication is not a RemotePublication"), s)
      | err e ↦ (err e, s)
      | panic ↦ (panic, s)
      | hang ↦ (hang, s)
    ]
