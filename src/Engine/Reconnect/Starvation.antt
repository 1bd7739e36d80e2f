-- ===== src/Engine/Reconnect/Starvation.antt =====
-- rtc_engine/mod.rs: a session's late close event clears the wish for a full reconnect.
use livekit_rust.Base.{
  ℕ, suc, ◌≡◌, refl, ◌≢◌, ◌∙◌, Bool, true, false, List, [], ◌∷◌, String, none, some, arith, inl,
}
use livekit_rust.Base.Outcome.{ok, err, panic}
use livekit_rust.Engine.State.{
  Payloads, Engine, EngineError, Session, SessionEvent, Spawn, session_close, DisconnectReason,
  emit, on_session_event, connect, terminate_session, update_last_info,
}
use livekit_rust.Engine.Reconnect.Steps.{single_reconnection}
use livekit_rust.Engine.Reconnect.{
  Step, handles, Round, step, steps, attempts, attempt, try_restart_connection,
  try_resume_connection, reconnect_task, reconnection,
}

module _ (p : Payloads) where
  step-notified : (a : Step p) (e : Engine p) → (step p a e).notified ≡ e.notified
  unfolding step
  step-notified (handles (session_close src reason can full retry)) e = ground arith
  step-notified a e = ground arith

  -- No step of another task notifies the waiters.
  steps-notified : (as' : List (Step p)) (e : Engine p) → (steps p as' e).notified ≡ e.notified
  unfolding steps
  steps-notified [] e = refl
  steps-notified (a ∷ as') e = steps-notified as' (step p a e) ∙ step-notified a e

  -- The state after a restart that failed and was told of the old session's end meanwhile.
  record Bereft (n : ℕ) (e : Engine p) : Type 0 where
    no_session : e.running ≡ none
    resume_next : e.full_reconnect ≡ false
    not_closed : e.closed ≡ false
    busy : e.reconnecting ≡ true
    unnotified : e.notified ≡ n

  module _ (r : Round p) (src : String) (reason : DisconnectReason) (retry : Bool) (x : EngineError)
      (late_event : r.while_terminating ≡ handles (session_close src reason true false retry) ∷ [])
      (refused : r.session ≡ err x) where
    failed_restart :
        (i : ℕ) (e : Engine p)
        → e.closed ≡ false
        → e.full_reconnect ≡ true
        → e.reconnecting ≡ true
        → let y = attempt p i r e in (y.0 ≡ ok false) × Bereft e.notified y.1
    unfolding attempt try_restart_connection connect steps step on_session_event terminate_session
    failed_restart i e h full busy = ground arith

  resume_panics :
      (n i : ℕ) (r : Round p) (e : Engine p)
      → Bereft n e
      → let y = attempt p i r e in
        (y.0 ≡ panic) × (y.1.running ≡ none) × (y.1.reconnecting ≡ true) × (y.1.notified ≡ n)
  unfolding attempt try_resume_connection emit
  resume_panics n i r e b = ground arith

  -- The first attempt of the task, and the second, from a state with its session.
  two_attempts :
      (left : ℕ) (env : ℕ → Round p) (e : Engine p)
      → (attempt p 0 (env 0) e).0 ≡ ok false
      → Bereft e.notified (attempt p 0 (env 0) e).1
      → (env 0).while_ticking ≡ []
      → let y = attempts p (suc (suc left)) 0 env e in
        (y.0 ≡ panic)
        × (y.1.running ≡ none)
        × (y.1.reconnecting ≡ true)
        × (y.1.notified ≡ e.notified)
  unfolding attempts steps
  two_attempts left env e again bereft idle =
      ground (arith, resume_panics e.notified 1 (env 1) (attempt p 0 (env 0) e).1 bereft)

  after_update :
      (e : Engine p) (s : Session p)
      → e.running ≡ some s
      → update_last_info p (record e { full_reconnect = true })
        ≡ record e { last_info = some s.info; full_reconnect = true }
  unfolding update_last_info
  after_update e s h = ground arith

  stranded :
      (env : ℕ → Round p) (e : Engine p) (s : Session p) (src : String) (reason : DisconnectReason)
      (retry : Bool) (x : EngineError)
      → e.running ≡ some s
      → e.closed ≡ false
      → e.reconnecting ≡ true
      → (env 0).while_terminating ≡ handles (session_close src reason true false retry) ∷ []
      → (env 0).session ≡ err x
      → (env 0).while_ticking ≡ []
      → let u = reconnection p true env e in
        (u.running ≡ none) × (u.reconnecting ≡ true) × (u.notified ≡ e.notified)
  unfolding reconnection reconnect_task
  stranded env e s src reason retry x running unshut busy late refused idle =
      let e1 = record e { last_info = some s.info; full_reconnect = true } in
      let first = failed_restart (env 0) src reason retry x late refused 0 e1 unshut refl busy in
      let both = two_attempts 8 env e1 first.0 first.1 idle in
      ground (arith, after_update e s running, both)

  -- A reconnection by a full reconnect whose first attempt is refused by the network, while the
  -- engine task still handles the old session's close event (which wants no full reconnect), ends
  -- with an engine that has no session and is marked as reconnecting. Whatever other tasks do then,
  -- nobody who waits for the reconnection is notified, and no session event starts another one.
  -- Assumed: a session at the start, an engine that is not closed and is marked as reconnecting, and
  -- no other steps before the second attempt.
  pub late_close_event_strands :
      (env : ℕ → Round p) (e : Engine p) (s : Session p) (src : String) (reason : DisconnectReason)
      (retry : Bool) (x : EngineError)
      → e.running ≡ some s
      → e.closed ≡ false
      → e.reconnecting ≡ true
      → (env 0).while_terminating ≡ handles (session_close src reason true false retry) ∷ []
      → (env 0).session ≡ err x
      → (env 0).while_ticking ≡ []
      → let u = reconnection p true env e in
        (u.running ≡ none)
        × (u.reconnecting ≡ true)
        × ((as' : List (Step p)) → (steps p as' u).notified ≡ e.notified)
        × ((as' : List (Step p)) (ev : SessionEvent p) (full : Bool)
            → (on_session_event p ev (steps p as' u)).0 ≢ Spawn.reconnection full)
  late_close_event_strands env e s src reason retry x running unshut busy late refused idle =
      let (gone, marked, silent) =
        stranded env e s src reason retry x running unshut busy late refused idle in
      (
        gone,
        marked,
        (λ as'. steps-notified as' (reconnection p true env e) ∙ silent),
        (λ as' ev full. single_reconnection p as' ev full (reconnection p true env e) (inl marked)),
      )
