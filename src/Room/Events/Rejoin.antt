-- ===== src/Room/Events/Rejoin.antt =====
-- room/mod.rs: the participants after a restart of the engine and the new session's join response.
use livekit_rust.Base.{◌≡◌, Bool, false, ◌||◌, List, [], ◌∷◌, String, ◌==◌}
use livekit_rust.Base.Dict
use livekit_rust.Room.Participant
use livekit_rust.Room.Participant.{Participant, ParticipantInfo}
use livekit_rust.Room.Session.{Session}

-- Another participant than the one with the identifier and the identity, who is connected.
abbrev pub Joins : String → String → ParticipantInfo → Type 0
Joins sid identity pi =
    (pi.disconnected ≡ false) × (pi.sid == sid ≡ false) × (pi.identity == identity ≡ false)

abbrev pub announced : String → List ParticipantInfo → Bool
announced k [] = false
announced k (pi ∷ pis) = pi.sid == k || announced k pis
