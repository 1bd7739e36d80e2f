-- ===== src/Ffi/Room/Examples.antt =====
-- livekit-ffi/src/server/room.rs: a room whose request published the track TR_1.
use livekit_rust.Base.{◌≡◌, refl, true, [], ◌∷◌, some, arith}
use livekit_rust.Ffi.Server.{
  Server, default_server, find, put, ffi_publication, store_new, send_event,
}
use livekit_rust.Ffi.Room.{
  Message, World, local_track_published, reconnected, forwards, publishes, notes_publication,
  note_published, emits, publish_done, room_task, handle_of, publish_track_callback, contains,
  tell_event,
}
use livekit_rust.Ffi.Room.Leak.{announces, published_handle_leaks}
use livekit_rust.Ffi.Room.Order.{InOrder, callback_first, published, called_back, count}
use livekit_rust.Ffi.Room.Stuck.{unrequested_publication_blocks, room_messages}

abbrev server : Server Message
server = record (default_server Message) { counter = 4; configured = true }

abbrev quiet : World
quiet = (
  record { handle_id = 3; pending_published_tracks = []; pending_unpublished_tracks = [] },
  server,
)

-- After the callback of request 2.
abbrev requested : World
requested = (
  record quiet.0 { pending_published_tracks = "TR_1" ∷ [] },
  record server {
    handles = (4, handle_of ffi_publication "TR_1") ∷ [];
    counter = 5;
    sent = publish_track_callback 2 4 "TR_1" ∷ [];
  },
)

requested_by_publishing : note_published "TR_1" (publish_done 2 "TR_1" quiet) ≡ requested
unfolding publish_done note_published store_new tell_event send_event put
requested_by_publishing = refl

published_handle_leaks_example :
    find 5
      (room_task (forwards ∷ emits reconnected ∷ forwards ∷ []) (record {
        events = local_track_published "TR_1" ∷ [];
        notes = [];
        world = requested;
      })).world.1.handles
    ≡ some (handle_of ffi_publication "TR_1")
unfolding contains announces
published_handle_leaks_example =
    (published_handle_leaks "TR_1" [] [] requested (emits reconnected ∷ forwards ∷ []) refl refl
      (omega arith)).0

unrequested_publication_blocks_example :
    room_messages
      (room_task (forwards ∷ emits reconnected ∷ forwards ∷ []) (record {
        events = local_track_published "TR_2" ∷ [];
        notes = [];
        world = requested;
      })).world.1.sent
    ≡ []
unfolding contains room_messages
unrequested_publication_blocks_example =
    (unrequested_publication_blocks "TR_2" [] [] requested
      (forwards ∷ emits reconnected ∷ forwards ∷ []) refl (ground arith)).0

quiet-InOrder : InOrder "TR_1" (record { events = []; notes = []; world = quiet })
unfolding contains published called_back count
quiet-InOrder = record { configured = refl; covered = omega arith }

callback_first_example : InOrder "TR_1" (
    room_task
      (emits (local_track_published "TR_1")
        ∷ forwards
        ∷ publishes 2 "TR_1"
        ∷ notes_publication "TR_1"
        ∷ forwards
        ∷ [])
      (record { events = []; notes = []; world = quiet }))
callback_first_example =
    callback_first "TR_1"
      (emits (local_track_published "TR_1")
        ∷ forwards
        ∷ publishes 2 "TR_1"
        ∷ notes_publication "TR_1"
        ∷ forwards
        ∷ [])
      (record { events = []; notes = []; world = quiet }) quiet-InOrder
