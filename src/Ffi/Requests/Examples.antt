-- ===== src/Ffi/Requests/Examples.antt =====
-- livekit-ffi/src/server/requests.rs and room.rs: a room with one other participant and its track.
use livekit_rust.Base.{◌≡◌, refl, true, [], ◌∷◌, arith}
use livekit_rust.Base.Outcome.{ok, err, panic}
use livekit_rust.Ffi.Server.{default_server, handle_not_found, find}
use livekit_rust.Ffi.Room.{Message}
use livekit_rust.Ffi.Requests.{joined, connect_done, on_disconnect, with_participant, S}
use livekit_rust.Ffi.Requests.Connect.{connect_announces}

abbrev server : S
server = record (default_server Message) { counter = 2; configured = true }

connect_announces_example :
    (connect_done 1 (joined "RM_1" "PA_1" (("PA_2", "TR_1" ∷ []) ∷ [])) server).1.counter ≡ 6
connect_announces_example =
    (connect_announces 1 "RM_1" "PA_1" (("PA_2", "TR_1" ∷ []) ∷ []) server refl (omega arith)).0

-- A request with an unknown handle: to leave a room it panics, and there is no callback; to publish
-- it is refused.
leave_unknown : on_disconnect (λ s. (ok tt, s)) 1 9 server ≡ (panic, server)
unfolding on_disconnect find
leave_unknown = refl

publish_unknown : with_participant (λ h s. (ok h, s)) 9 server ≡ (err handle_not_found, server)
unfolding with_participant find
publish_unknown = refl
