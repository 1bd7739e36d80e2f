-- ===== src/Engine/State.antt =====
-- livekit/src/rtc_engine/mod.rs: the state of `EngineInner`, its events, and the operations that do
-- not try to reconnect. A session of RtcSession is known here by its number and by what it knows
-- about itself (`info`, the four values that `LastInfo` copies). The event channel is unbounded
-- here: a full channel only delays the sender. `notified` counts the calls of `notify_waiters`,
-- `ended` the sessions that were closed.
use livekit_rust.Base.{
  ℕ, Bool, true, false, List, [], ◌∷◌, ◌++◌, Option, none, some, String, if◌then◌else◌,
}
use livekit_rust.Base.Outcome.{Outcome, ok, err, panic, hang, Call}

pub data DisconnectReason : Type 0 where
  unknown_reason client_initiated duplicate_identity server_shutdown : DisconnectReason
  participant_removed room_deleted state_mismatch join_failure : DisconnectReason

pub data EngineError : Type 0 where
  signal rtc parse serde data_channel decode : EngineError
  connection internal : String → EngineError

abbrev pub reconnect_attempts : ℕ
reconnect_attempts = 10

-- What the events carry without the engine looking at it.
pub record Payloads : Type 1 where
  pub Updates : Type 0
  pub MediaTrack : Type 0
  pub Packet : Type 0
  pub Speakers : Type 0
  pub Qualities : Type 0
  pub Info : Type 0

module _ (p : Payloads) where
  open p use {Updates, MediaTrack, Packet, Speakers, Qualities, Info}

  pub data EngineEvent : Type 0 where
    participant_update : Updates → EngineEvent
    media_track : MediaTrack → EngineEvent
    received : Packet → EngineEvent
    speakers_changed : Speakers → EngineEvent
    connection_quality : Qualities → EngineEvent
    resuming resumed signal_resumed restarting restarted signal_restarted : EngineEvent
    disconnected : DisconnectReason → EngineEvent

  pub data SessionEvent : Type 0 where
    session_participant_update : Updates → SessionEvent
    session_data : Packet → SessionEvent
    session_media_track : MediaTrack → SessionEvent
    session_speakers_changed : Speakers → SessionEvent
    session_connection_quality : Qualities → SessionEvent
    session_close :
        (source : String) (reason : DisconnectReason)
        (can_reconnect full_reconnect retry_now : Bool)
        → SessionEvent
    session_connected : SessionEvent

  pub record Session : Type 0 where
    pub number : ℕ
    pub info : Info

  pub record Engine : Type 0 where
    pub last_info : Option Info
    pub running : Option Session
    pub closed : Bool
    pub reconnecting : Bool
    pub full_reconnect : Bool
    pub emitted : List EngineEvent
    pub ended : List Session
    pub notified : ℕ

  unfoldable pub emit : EngineEvent → Engine → Engine
  emit ev e = record e { emitted = e.emitted ++ ev ∷ [] }

  unfoldable pub update_last_info : Engine → Engine
  update_last_info e = elim e.running [ none ↦ e | some s ↦ record e { last_info = some s.info } ]

  -- `take()` leaves `None` behind.
  unfoldable pub terminate_session : Engine → Engine
  terminate_session e = elim e.running [
    | none ↦ e
    | some s ↦ record e { running = none; ended = e.ended ++ s ∷ [] }
  ]

  -- The two steps of `close`, between which other tasks run.
  unfoldable pub mark_closed : Engine → Engine
  mark_closed e = record e { closed = true }

  unfoldable pub finish_close : DisconnectReason → Engine → Engine
  unfolding terminate_session emit
  finish_close reason e = emit (disconnected reason) (terminate_session e)

  unfoldable pub close : DisconnectReason → Engine → Engine
  unfolding mark_closed finish_close
  close reason e = finish_close reason (mark_closed e)

  -- `session` is what `RtcSession::connect` came to.
  unfoldable pub connect : Outcome EngineError Session → Call Engine EngineError (Unit {0})
  unfolding update_last_info
  connect session e = elim e.running [
    | some s ↦ (panic, e)
    | none ↦ elim session [
      | ok s ↦ (ok tt, update_last_info (record e { running = some s }))
      | err x ↦ (err x, e)
      | panic ↦ (panic, e)
      | hang ↦ (hang, e)
    ]
  ]

  -- Whether the reconnection task is to be spawned.
  unfoldable pub try_reconnect : Bool → Engine → Bool × Engine
  try_reconnect full e =
      if e.closed
      then (false, e)
      else if e.reconnecting
      then (false, record e { full_reconnect = full })
      else (true, record e { full_reconnect = full; reconnecting = true })

  -- What a handled session event asks to be spawned.
  pub data Spawn : Type 0 where
    nothing : Spawn
    reconnection : (full : Bool) → Spawn
    closing : DisconnectReason → Spawn

  unfoldable pub on_session_event : SessionEvent → Engine → Spawn × Engine
  unfolding emit try_reconnect
  on_session_event (session_close source reason can_reconnect full retry_now) e =
      if can_reconnect
      then (
        if (try_reconnect full e).0 then reconnection full else nothing,
        (try_reconnect full e).1,
      )
      else (closing reason, e)
  on_session_event (session_data d) e = (nothing, emit (received d) e)
  on_session_event (session_media_track t) e = (nothing, emit (media_track t) e)
  on_session_event (session_participant_update u) e = (nothing, emit (participant_update u) e)
  on_session_event (session_speakers_changed s) e = (nothing, emit (speakers_changed s) e)
  on_session_event (session_connection_quality q) e = (nothing, emit (connection_quality q) e)
  on_session_event session_connected e = (nothing, e)
