-- ===== src/Engine/Reconnect/Examples.antt =====
-- rtc_engine/mod.rs on small networks: one that answers, and one that refuses the first connection
-- while the old session's close event is still under way.
use livekit_rust.Base.{
  ℕ, suc, ◌≡◌, refl, ◌≢◌, Bool, true, false, List, [], ◌∷◌, ◌++◌, none, some, is_some, ◌⊎◌,
}
use livekit_rust.Base.Outcome.{ok, err}
use livekit_rust.Engine.State.{
  Payloads, Engine, Session, SessionEvent, Spawn, session_close, on_session_event, unknown_reason,
  signal, connection, resuming, signal_resumed, resumed, emit, update_last_info,
}
use livekit_rust.Engine.Reconnect.{
  Step, handles, Round, steps, attempts, attempt, try_resume_connection, reconnect_task,
  reconnection,
}
use livekit_rust.Engine.Reconnect.Sessions.{all_sessions, all_opened, attempts-sessions}
use livekit_rust.Engine.Reconnect.Outcomes.{Calm, reconnection_outcome}
use livekit_rust.Engine.Reconnect.Starvation.{late_close_event_strands}

abbrev plain : Payloads
plain = record { Updates = ℕ; MediaTrack = ℕ; Packet = ℕ; Speakers = ℕ; Qualities = ℕ; Info = ℕ }

abbrev session : ℕ → Session plain
session n = record { number = n; info = n }

abbrev connected : Engine plain
connected = record {
  last_info = none;
  running = some (session 0);
  closed = false;
  reconnecting = true;
  full_reconnect = false;
  emitted = [];
  ended = [];
  notified = 0;
}

abbrev good : ℕ → Round plain
good n = record {
  while_terminating = [];
  session = ok (session (suc n));
  before_waiting = [];
  restart = ok tt;
  while_resuming = [];
  wait_connection = ok tt;
  while_ticking = [];
}

abbrev late : SessionEvent plain
late = session_close "SignalClient closed" unknown_reason true false false

abbrev refusing : ℕ → Round plain
refusing n = record {
  while_terminating = handles late ∷ [];
  session = err (connection "refused");
  before_waiting = [];
  restart = err signal;
  while_resuming = [];
  wait_connection = ok tt;
  while_ticking = [];
}

-- A resumption: the room sees that it is under way, that the signalling is back, and its end.
resumption :
    (reconnection plain false good connected).emitted ≡ resuming ∷ signal_resumed ∷ resumed ∷ []
unfolding reconnection reconnect_task attempts attempt try_resume_connection steps emit
    update_last_info
resumption = refl

good-Calm : (k : ℕ) → Calm plain (good k)
good-Calm k = record {
  while_terminating = tt;
  before_waiting = tt;
  while_resuming = tt;
  while_ticking = tt;
  session_panic = λ h. cc;
  session_hang = λ h. cc;
  restart_panic = λ h. cc;
  restart_hang = λ h. cc;
  wait_panic = λ h. cc;
  wait_hang = λ h. cc;
}

reconnection_outcome_example :
    let u = reconnection plain true good connected in
    (u.reconnecting ≡ false) × (u.notified ≡ 1) × ((is_some u.running ≡ true) ⊎ (u.closed ≡ true))
reconnection_outcome_example = reconnection_outcome plain true good connected refl good-Calm

late_close_event_strands_example :
    let u = reconnection plain true refusing connected in
    (u.running ≡ none)
    × (u.reconnecting ≡ true)
    × ((as' : List (Step plain)) → (steps plain as' u).notified ≡ 0)
    × ((as' : List (Step plain)) (ev : SessionEvent plain) (full : Bool)
        → (on_session_event plain ev (steps plain as' u)).0 ≢ Spawn.reconnection full)
late_close_event_strands_example =
    late_close_event_strands plain refusing connected (session 0) "SignalClient closed"
      unknown_reason false (connection "refused") refl refl refl refl refl refl

attempts-sessions_example :
    all_sessions plain (attempts plain 10 0 good connected).1
    ≡ all_sessions plain connected ++ all_opened plain 10 0 good connected
attempts-sessions_example = attempts-sessions plain 10 0 good connected

abbrev failing : ℕ → Round plain
failing n = record (refusing n) { while_terminating = []; restart = err (connection "lost") }
