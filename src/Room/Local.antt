-- ===== src/Room/Local.antt =====
-- livekit/src/room/participant/local_participant.rs and publication/local.rs: the tracks that the
-- application publishes, and their republication after a restart (livekit/src/room/mod.rs).
-- `LocalEngine` stands for what the engine does for a track (Engine.Session, Engine.PendingTracks):
-- its calls may fail, with a RoomError, `track_not_found` being one of them. The request and the
-- encodings are made of the track and the options (Room.Options). A track is one object in the code;
-- here its publication holds its value, and a track that is not published has none to update.
mod Errors
mod Examples
use livekit_rust.Base.{ℕ, Bool, true, false, List, [], ◌∷◌, ◌++◌, Option, none, some, String}
use livekit_rust.Base.Dict.{Dict, get, insert, remove}
use livekit_rust.Base.Outcome.{Outcome, ok, err, panic, hang, Call, continue}

pub record LocalTrack : Type 0 where
  pub cid : String
  pub sid : String
  pub transceiver : Option ℕ
  pub enabled : Bool

pub data LocalEvent : Type 0 where
  local_track_published local_track_unpublished : String → LocalEvent

pub record LocalEngine : Type 1 where
  pub State : Type 0
  pub Error : Type 0
  pub Options : Type 0
  pub track_not_found : Error
  -- The answer is the new track's sid.
  pub add_track : LocalTrack → Options → Call State Error String
  pub create_sender : LocalTrack → Options → Call State Error ℕ
  pub remove_track : ℕ → Call State Error (Unit {0})
  pub publisher_negotiation_needed : State → State

module _ (engine : LocalEngine) where
  open engine use {State, Error, Options}

  pub record LocalPublication : Type 0 where
    pub sid : String
    pub track : Option LocalTrack
    pub publish_options : Options

  -- `events` are those that the participant's handlers dispatched, latest last.
  pub record LocalParticipant : Type 0 where
    pub rtc_engine : State
    pub tracks : Dict LocalPublication
    pub events : List LocalEvent

  abbrev pub on_engine : {A : Type 0} → Call State Error A → Call LocalParticipant Error A
  on_engine m p = let (r, s) = m p.rtc_engine in (r, record p { rtc_engine = s })

  -- The steps after the engine's answers: the publication is added, told, and its track enabled.
  abbrev pub add_publication :
      LocalTrack → Options → String → ℕ → Call LocalParticipant Error LocalPublication
  add_publication track options sid transceiver p =
      let publication : LocalPublication = record {
        sid = sid;
        track = some (record track { sid = sid; transceiver = some transceiver; enabled = true });
        publish_options = options;
      } in
      (
        ok publication,
        record {
          rtc_engine = engine.publisher_negotiation_needed p.rtc_engine;
          tracks = insert sid publication p.tracks;
          events = p.events ++ local_track_published sid ∷ [];
        },
      )

  unfoldable pub publish_track : LocalTrack → Options → Call LocalParticipant Error LocalPublication
  publish_track track options p = continue (on_engine (engine.add_track track options) p) λ sid p1.
      continue (on_engine (engine.create_sender (record track { sid = sid }) options) p1)
        (add_publication track options sid)

  -- After the engine's answer: the track has no transceiver, and the publication no track.
  abbrev forget : LocalPublication → Unit {0} → Call LocalParticipant Error LocalPublication
  forget publication done p = (
    ok (record publication { track = none }),
    record p {
      rtc_engine = engine.publisher_negotiation_needed p.rtc_engine;
      events = p.events ++ local_track_unpublished publication.sid ∷ [];
    },
  )

  -- A publication without a track, or a track without a transceiver, is an `unwrap` that panics.
  unfoldable pub remove_sender :
      LocalPublication → Option LocalTrack → Call LocalParticipant Error LocalPublication
  remove_sender publication none p = (panic, p)
  remove_sender publication (some track) p = elim track.transceiver [
    | none ↦ (panic, p)
    | some sender ↦ continue (on_engine (engine.remove_track sender) p) (forget publication)
  ]

  unfoldable pub unpublish_track : String → Call LocalParticipant Error LocalPublication
  unfolding remove_sender
  unpublish_track sid p = elim (get sid p.tracks) [
    | none ↦ (err engine.track_not_found, p)
    | some publication ↦
        remove_sender publication publication.track (record p { tracks = remove sid p.tracks })
  ]

  -- `let _ = …await`: an error is ignored; a panic or a wait for ever ends the task.
  abbrev ignoring :
      {A : Type 0}
      → Outcome Error A × LocalParticipant
      → (LocalParticipant → Bool × LocalParticipant)
      → Bool × LocalParticipant
  ignoring (ok a, p) rest = rest p
  ignoring (err e, p) rest = rest p
  ignoring (panic, p) rest = (false, p)
  ignoring (hang, p) rest = (false, p)

  republish_track :
      LocalPublication
      → Option LocalTrack
      → (LocalParticipant → Bool × LocalParticipant)
      → LocalParticipant
      → Bool × LocalParticipant
  republish_track publication none rest p = (false, p)
  republish_track publication (some track) rest p =
      ignoring (publish_track track publication.publish_options p) rest

  -- The task that a restart spawns, over the tracks of that moment.
  unfoldable pub republish : Dict LocalPublication → LocalParticipant → Bool × LocalParticipant
  unfolding unpublish_track republish_track publish_track
  republish [] p = (true, p)
  republish ((sid, publication) ∷ rest) p =
      ignoring (unpublish_track sid p)
        (republish_track publication publication.track (republish rest))

  -- The sids with the tracks' cids, for the state that is sent after a resumption.
  unfoldable pub published_tracks_info : Dict LocalPublication → List (String × String)
  published_tracks_info [] = []
  published_tracks_info ((sid, publication) ∷ rest) =
      let infos = published_tracks_info rest in
      elim publication.track [ none ↦ infos | some t ↦ (t.cid, publication.sid) ∷ infos ]
