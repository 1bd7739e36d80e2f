-- ===== src/Engine/Reconnect.antt =====
-- livekit/src/rtc_engine/mod.rs: the reconnection task and who waits for it. What the network and
-- the other tasks do is a `Round` for each attempt: the results of connecting, resuming and waiting,
-- and the steps of other tasks where the task awaits. Those that come while it waits for the peer
-- connections only matter to what follows, and stand with the steps after the attempt.
mod Steps
mod Sessions
mod Outcomes
mod Attempts
mod Starvation
mod Examples
use livekit_rust.Base.{
  ℕ, zero, suc, ◌+◌, ◌≡◌, Bool, true, false, List, [], ◌∷◌, ◌++◌, Option, none, some, if◌then◌else◌,
  nat_eq, is_some,
}
use livekit_rust.Base.Outcome.{Outcome, ok, err, panic, hang, Call, continue}
use livekit_rust.Engine.State.{
  Payloads, EngineError, DisconnectReason, Engine, Session, SessionEvent, emit, update_last_info,
  terminate_session, mark_closed, finish_close, close, connect, try_reconnect, on_session_event,
  EngineEvent, resuming, resumed, signal_resumed, restarting, restarted, signal_restarted,
  reconnect_attempts, unknown_reason, signal, connection,
}

module _ (p : Payloads) where
  -- A step of another task: `close` by its two parts, and the engine task's handling of an event.
  pub data Step : Type 0 where
    marks_closed : Step
    finishes_close : DisconnectReason → Step
    handles : SessionEvent p → Step

  unfoldable pub step : Step → Engine p → Engine p
  unfolding mark_closed finish_close on_session_event
  step marks_closed e = mark_closed p e
  step (finishes_close reason) e = finish_close p reason e
  step (handles ev) e = (on_session_event p ev e).1

  unfoldable pub steps : List Step → Engine p → Engine p
  steps [] e = e
  steps (a ∷ as') e = steps as' (step a e)

  pub record Round : Type 0 where
    pub while_terminating : List Step
    pub session : Outcome EngineError (Session p)
    pub before_waiting : List Step
    pub restart : Outcome EngineError (Unit {0})
    pub while_resuming : List Step
    pub wait_connection : Outcome EngineError (Unit {0})
    pub while_ticking : List Step

  -- `handle.as_ref().unwrap()`
  abbrev unwrap_session : Engine p → Outcome EngineError (Session p) × Engine p
  unwrap_session e = elim e.running [ none ↦ (panic, e) | some s ↦ (ok s, e) ]

  unfoldable pub try_restart_connection : Round → Call (Engine p) EngineError (Unit {0})
  unfolding terminate_session steps connect emit
  try_restart_connection r e =
      continue (connect p r.session (steps r.while_terminating (terminate_session p e))) λ _ e1.
        continue (unwrap_session (steps r.before_waiting (emit p signal_restarted e1)))
          λ _ e2. (r.wait_connection, e2)

  -- The read lock on the session is held throughout, so no `finishes_close` comes in between.
  unfoldable pub try_resume_connection : Round → Call (Engine p) EngineError (Unit {0})
  unfolding emit steps
  try_resume_connection r e = continue (unwrap_session e) λ _ e1.
      continue {S = Engine p} {E = EngineError} {A = Unit {0}}
        (r.restart, steps r.while_resuming e1) λ _ e2. (r.wait_connection, emit p signal_resumed e2)

  -- One attempt: `ok true` returns from the task, `ok false` goes on to the next attempt.
  abbrev after_restart :
      Outcome EngineError (Unit {0}) × Engine p → Outcome EngineError Bool × Engine p
  after_restart (ok _, e) = (ok true, emit p restarted e)
  after_restart (err _, e) = (ok false, e)
  after_restart (panic, e) = (panic, e)
  after_restart (hang, e) = (hang, e)

  abbrev after_resume :
      Outcome EngineError (Unit {0}) × Engine p → Outcome EngineError Bool × Engine p
  after_resume (ok _, e) = (ok true, emit p resumed e)
  after_resume (err signal, e) = (ok false, record e { full_reconnect = true })
  after_resume (err _, e) = (ok false, e)
  after_resume (panic, e) = (panic, e)
  after_resume (hang, e) = (hang, e)

  unfoldable pub attempt : ℕ → Round → Call (Engine p) EngineError Bool
  unfolding emit
  attempt i r e =
      if e.closed
      then (ok true, e)
      else if e.full_reconnect
      then after_restart (try_restart_connection r (if nat_eq i 0 then emit p restarting e else e))
      else after_resume (try_resume_connection r (if nat_eq i 0 then emit p resuming e else e))

  -- `for i in 0..RECONNECT_ATTEMPTS`, with the attempts left.
  unfoldable pub attempts : ℕ → ℕ → (ℕ → Round) → Call (Engine p) EngineError (Unit {0})
  unfolding attempt steps
  attempts zero i env e = (err (connection "failed to reconnect"), e)
  attempts (suc left) i env e = continue (attempt i (env i) e) λ done e1. elim done [
    | true ↦ (ok tt, e1)
    | false ↦ attempts left (suc i) env (steps (env i).while_ticking e1)
  ]

  unfoldable pub reconnect_task : (ℕ → Round) → Call (Engine p) EngineError (Unit {0})
  reconnect_task env e =
      continue (unwrap_session e) λ _ e1. attempts reconnect_attempts 0 env (update_last_info p e1)

  -- The end of the spawned task; a panic ends the task where it stands.
  abbrev task_end : Outcome EngineError (Unit {0}) × Engine p → Engine p
  task_end (ok _, e) = record e { reconnecting = false; notified = suc e.notified }
  task_end (err _, e) =
      let e' = close p unknown_reason (record e { reconnecting = false }) in
      record e' { notified = suc e'.notified }
  task_end (panic, e) = e
  task_end (hang, e) = e

  unfoldable pub reconnection : Bool → (ℕ → Round) → Engine p → Engine p
  unfolding close
  reconnection full env e = task_end (reconnect_task env (record e { full_reconnect = full }))

  -- `waited` are the steps of others while the caller waits for the notification.
  unfoldable pub wait_reconnection : List Step → Call (Engine p) EngineError (Unit {0})
  unfolding steps
  wait_reconnection waited e =
      if e.closed
      then (err (connection "engine is closed"), e)
      else let e' = if e.reconnecting then steps waited e else e in
        elim e'.running [
          | none ↦ (err (connection "reconnection failed"), e')
          | some s ↦ (ok tt, e')
        ]
