-- ===== src/Room/E2ee/Examples.antt =====
-- e2ee/manager.rs with one encrypted track.
use livekit_rust.Base.{◌≡◌, ◌≢◌, true, false, [], ◌∷◌, some}
use livekit_rust.Proto.{gcm, no_encryption}
use livekit_rust.Room.E2ee.{E2eeOptions, E2eeManager, new, set_enabled, is_enabled}
use livekit_rust.Room.E2ee.Switch.{comes, tracks, switched_off_for_good}

abbrev options : E2eeOptions
options = record { encryption_type = gcm; key_handle = "key" }

gcm-encrypts : gcm ≢ no_encryption
gcm-encrypts h = cc

abbrev manager : E2eeManager
manager = record { options = some options; enabled = true; frame_cryptors = [] }

switched_off_for_good_example :
    is_enabled (set_enabled false (tracks (comes gcm "alice" "TR_1" ∷ []) (new (some options))))
    ≡ true
switched_off_for_good_example = (switched_off_for_good options (comes gcm "alice" "TR_1" ∷ [])).1
