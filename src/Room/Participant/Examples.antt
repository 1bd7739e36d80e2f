-- ===== src/Room/Participant/Examples.antt =====
-- remote_participant.rs at a participant with two tracks.
use livekit_rust.Base.{◌≡◌, true, false, List, [], ◌∷◌}
use livekit_rust.Proto.{video, audio, camera, microphone, no_encryption}
use livekit_rust.Room.Publication.{TrackInfo}
use livekit_rust.Room.Participant
use livekit_rust.Room.Participant.{Participant, ParticipantInfo, update_info}
use livekit_rust.Room.Participant.Known.{has_track, update_info-tracks}
use livekit_rust.Room.Participant.Accounts.{known, update_info-known}
use livekit_rust.Room.Participant.Keyed.{WellKeyed, WellKeyed-kept}

abbrev camera_info : TrackInfo
camera_info = record {
  sid = "TR_1";
  name = "cam";
  kind = video;
  source = camera;
  muted = false;
  simulcast = true;
  width = 1280;
  height = 720;
  mime_type = "video/vp8";
  encryption = no_encryption;
}

abbrev microphone_info : TrackInfo
microphone_info = record camera_info {
  sid = "TR_2";
  name = "mic";
  kind = audio;
  source = microphone;
}

abbrev with_tracks : List TrackInfo → ParticipantInfo
with_tracks tracks = record {
  sid = "PA_1";
  identity = "alice";
  name = "Alice";
  metadata = "";
  disconnected = false;
  tracks = tracks;
}

abbrev alice : Participant
alice = (update_info (with_tracks (camera_info ∷ [])) (Participant.new "PA_1" "alice" "Alice" "")).1

alice-WellKeyed : WellKeyed alice
alice-WellKeyed =
    (WellKeyed-kept.1 (Participant.new "PA_1" "alice" "Alice" "")
        (WellKeyed-kept.0 "PA_1" "alice" "Alice" "")).0
      (with_tracks (camera_info ∷ []))

-- The camera is replaced by the microphone.
update_info-tracks_example :
    has_track "TR_1" (update_info (with_tracks (microphone_info ∷ [])) alice).1 ≡ false
update_info-tracks_example = update_info-tracks "TR_1" (with_tracks (microphone_info ∷ [])) alice

update_info-known_example :
    known "TR_1" (update_info (with_tracks (microphone_info ∷ [])) alice).0 (has_track "TR_1" alice)
    ≡ has_track "TR_1" (update_info (with_tracks (microphone_info ∷ [])) alice).1
update_info-known_example =
    update_info-known "TR_1" (with_tracks (microphone_info ∷ [])) alice alice-WellKeyed
