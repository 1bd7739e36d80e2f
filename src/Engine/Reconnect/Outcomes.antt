-- ===== src/Engine/Reconnect/Outcomes.antt =====
-- rtc_engine/mod.rs: what the reconnection task comes to.
use livekit_rust.Base.{
  ℕ, zero, suc, ◌≡◌, refl, ap, subst, ◌≢◌, ◌∙◌, Bool, true, false, List, [], ◌∷◌, none, arith,
  is_some, ◌⊎◌, inl, inr, if◌then◌else◌, nat_eq, All, if_elim,
}
use livekit_rust.Base.Outcome.{Outcome, ok, err, panic, hang, continue}
use livekit_rust.Engine.State.{
  Payloads, Engine, EngineError, session_close, emit, connect, close, terminate_session,
  update_last_info, reconnect_attempts, EngineEvent, signal_restarted, resuming, restarting,
  mark_closed,
}
use livekit_rust.Engine.Reconnect.{
  Step, marks_closed, finishes_close, handles, Round, step, steps, attempts, attempt,
  try_restart_connection, try_resume_connection, unwrap_session, after_restart, after_resume,
  reconnect_task, reconnection, task_end,
}

module _ (p : Payloads) where
  -- Steps of other tasks that neither take the session away nor clear a wish for a full reconnect.
  abbrev pub Benign : Step p → Type 0
  Benign marks_closed = Unit
  Benign (finishes_close reason) = ⊥
  Benign (handles (session_close src reason can full retry)) = can ≡ true → full ≡ true
  Benign (handles ev) = Unit

  -- The network answers, and other tasks take only benign steps.
  pub record Calm (r : Round p) : Type 0 where
    pub while_terminating : All Benign r.while_terminating
    pub before_waiting : All Benign r.before_waiting
    pub while_resuming : All Benign r.while_resuming
    pub while_ticking : All Benign r.while_ticking
    pub session_panic : r.session ≢ panic
    pub session_hang : r.session ≢ hang
    pub restart_panic : r.restart ≢ panic
    pub restart_hang : r.restart ≢ hang
    pub wait_panic : r.wait_connection ≢ panic
    pub wait_hang : r.wait_connection ≢ hang

  -- The next attempt finds what it unwraps.
  abbrev pub Safe : Engine p → Type 0
  Safe e = (e.full_reconnect ≡ true) ⊎ (is_some e.running ≡ true)

  abbrev Kept : Engine p → Engine p → Type 0
  Kept e u =
      (e.full_reconnect ≡ true → u.full_reconnect ≡ true)
      × (u.running ≡ e.running)
      × (u.notified ≡ e.notified)

  step-Kept : (a : Step p) (e : Engine p) → Benign a → Kept e (step p a e)
  unfolding step
  step-Kept marks_closed e b = ground arith
  step-Kept (finishes_close reason) e b = absurd b
  step-Kept (handles (session_close src reason can full retry)) e b = ground arith
  step-Kept (handles ev) e b = ground arith

  steps-Kept : (as' : List (Step p)) (e : Engine p) → All Benign as' → Kept e (steps p as' e)
  unfolding steps
  steps-Kept [] e b = ((λ h. h), refl, refl)
  steps-Kept (a ∷ as') e b =
      let first = step-Kept a e b.0 in
      let rest = steps-Kept as' (step p a e) b.1 in
      ((λ h. rest.0 (first.0 h)), rest.1 ∙ first.1, rest.2 ∙ first.2)

  -- A finished attempt leaves a session or a closed engine; another leaves a safe one.
  abbrev Settled : Outcome EngineError Bool × Engine p → Type 0
  Settled (ok true, e) = (is_some e.running ≡ true) ⊎ (e.closed ≡ true)
  Settled (ok false, e) = Safe e
  Settled (err x, e) = ⊥
  Settled (panic, e) = ⊥
  Settled (hang, e) = ⊥

  abbrev Connected : ℕ → Outcome EngineError (Unit {0}) × Engine p → Type 0
  Connected n (ok a, e) = (is_some e.running ≡ true) × (e.full_reconnect ≡ true) × (e.notified ≡ n)
  Connected n (err x, e) = (e.full_reconnect ≡ true) × (e.notified ≡ n)
  Connected n (panic, e) = ⊥
  Connected n (hang, e) = ⊥

  connect-Connected :
      (r : Round p) (e : Engine p)
      → Calm r
      → e.running ≡ none
      → e.full_reconnect ≡ true
      → Connected e.notified (connect p r.session e)
  unfolding connect update_last_info
  connect-Connected r e c gone full = ground arith

  wait-Settled :
      (n : ℕ) (r : Round p) (c : Calm r) (x : Outcome EngineError (Unit {0}) × Engine p)
      → Connected n x
      → let y = after_restart p (
          continue x (λ _ e1.
            continue
              (unwrap_session p (steps p r.before_waiting (emit p signal_restarted e1)))
              (λ _ e2. (r.wait_connection, e2)))) in
        Settled y × (y.1.notified ≡ n)
  unfolding emit
  wait-Settled n r c (ok a, e) h =
      ground (arith, steps-Kept r.before_waiting (emit p signal_restarted e) c.before_waiting)
  wait-Settled n r c (err x, e) h = (inl h.0, h.1)
  wait-Settled n r c (panic, e) h = absurd h
  wait-Settled n r c (hang, e) h = absurd h

  terminate-none :
      (e : Engine p)
      → ((terminate_session p e).running ≡ none)
        × ((terminate_session p e).full_reconnect ≡ e.full_reconnect)
        × ((terminate_session p e).notified ≡ e.notified)
  unfolding terminate_session
  terminate-none e = ground arith

  restart-Settled :
      (r : Round p) (e : Engine p)
      → Calm r
      → e.full_reconnect ≡ true
      → Settled (after_restart p (try_restart_connection p r e))
        × ((after_restart p (try_restart_connection p r e)).1.notified ≡ e.notified)
  unfolding try_restart_connection
  restart-Settled r e c full =
      let ended = terminate-none e in
      let kept = steps-Kept r.while_terminating (terminate_session p e) c.while_terminating in
      wait-Settled e.notified r c _ (
        subst
          (λ n.
            Connected n (connect p r.session (steps p r.while_terminating (terminate_session p e))))
          (kept.2 ∙ ended.2) (connect-Connected r _ c (kept.1 ∙ ended.0) (kept.0 (ended.1 ∙ full))))

  resume-Settled :
      (r : Round p) (e : Engine p)
      → Calm r
      → is_some e.running ≡ true
      → Settled (after_resume p (try_resume_connection p r e))
        × ((after_resume p (try_resume_connection p r e)).1.notified ≡ e.notified)
  unfolding try_resume_connection emit
  resume-Settled r e c running = ground (arith, steps-Kept r.while_resuming e c.while_resuming)

  first-Safe :
      (b : Bool) (ev : EngineEvent p) (e : Engine p)
      → let u = if b then emit p ev e else e in
        (u.running ≡ e.running) × (u.full_reconnect ≡ e.full_reconnect) × (u.notified ≡ e.notified)
  unfolding emit
  first-Safe true ev e = (refl, refl, refl)
  first-Safe false ev e = (refl, refl, refl)

  abbrev Done : ℕ → Outcome EngineError Bool × Engine p → Type 0
  Done n y = Settled y × (y.1.notified ≡ n)

  attempt-Settled :
      (i : ℕ) (r : Round p) (e : Engine p)
      → Calm r
      → Safe e
      → Settled (attempt p i r e) × ((attempt p i r e).1.notified ≡ e.notified)
  unfolding attempt
  attempt-Settled i r e c safe =
      if_elim (Done e.notified) e.closed (λ shut. (inr shut, refl))
        (λ unshut.
          if_elim (Done e.notified) e.full_reconnect
            (λ full.
              let u = if nat_eq i 0 then emit p restarting e else e in
              let same = first-Safe (nat_eq i 0) restarting e in
              let done = restart-Settled r u c (same.1 ∙ full) in (done.0, done.1 ∙ same.2))
            (λ resume.
              let u = if nat_eq i 0 then emit p resuming e else e in
              let same = first-Safe (nat_eq i 0) resuming e in
              let done = resume-Settled r u c (ap is_some same.0 ∙ still safe resume) in
              (done.0, done.1 ∙ same.2)))
    where
      still : Safe e → e.full_reconnect ≡ false → is_some e.running ≡ true
      still s h = ground arith

  -- The task returned, with a session or a closed engine, or gave up; it did not panic.
  abbrev Ended : ℕ → Outcome EngineError (Unit {0}) × Engine p → Type 0
  Ended n (ok a, e) = ((is_some e.running ≡ true) ⊎ (e.closed ≡ true)) × (e.notified ≡ n)
  Ended n (err x, e) = e.notified ≡ n
  Ended n (panic, e) = ⊥
  Ended n (hang, e) = ⊥

  steps-Safe : (as' : List (Step p)) (e : Engine p) → All Benign as' → Safe e → Safe (steps p as' e)
  steps-Safe as' e b safe = ground (arith, steps-Kept as' e b)

  next-Ended :
      (n left i : ℕ) (env : ℕ → Round p) (x : Outcome EngineError Bool × Engine p)
      → Calm (env i)
      → ((e : Engine p) → Safe e → e.notified ≡ n → Ended n (attempts p left (suc i) env e))
      → Done n x
      → Ended n (
          continue {B = Unit {0}} x (λ done e1. elim done [
            | true ↦ (ok tt, e1)
            | false ↦ attempts p left (suc i) env (steps p (env i).while_ticking e1)
          ]))
  next-Ended n left i env (ok true, e) c ih d = d
  next-Ended n left i env (ok false, e) c ih d =
      let kept = steps-Kept (env i).while_ticking e c.while_ticking in
      ih _ (steps-Safe (env i).while_ticking e c.while_ticking d.0) (kept.2 ∙ d.1)
  next-Ended n left i env (err x, e) c ih d = absurd d.0
  next-Ended n left i env (panic, e) c ih d = absurd d.0
  next-Ended n left i env (hang, e) c ih d = absurd d.0

  attempts-Ended :
      (n left i : ℕ) (env : ℕ → Round p) (e : Engine p)
      → ((k : ℕ) → Calm (env k))
      → Safe e
      → e.notified ≡ n
      → Ended n (attempts p left i env e)
  unfolding attempts
  attempts-Ended n zero i env e c safe same = same
  attempts-Ended n (suc left) i env e c safe same =
      let done = attempt-Settled i (env i) e (c i) safe in
      next-Ended n left i env (attempt p i (env i) e) (c i)
        (λ u s k. attempts-Ended n left (suc i) env u c s k) (done.0, done.1 ∙ same)

  task_end-lem :
      (n : ℕ) (x : Outcome EngineError (Unit {0}) × Engine p)
      → Ended n x
      → let u = task_end p x in
        (u.reconnecting ≡ false)
        × (u.notified ≡ suc n)
        × ((is_some u.running ≡ true) ⊎ (u.closed ≡ true))
  unfolding close mark_closed terminate_session
  task_end-lem n (ok a, e) h = (refl, ap suc h.1, h.0)
  task_end-lem n (err x, e) h = ground arith
  task_end-lem n (panic, e) h = absurd h
  task_end-lem n (hang, e) h = absurd h

  update-Safe :
      (e : Engine p)
      → is_some e.running ≡ true
      → let u = update_last_info p e in (is_some u.running ≡ true) × (u.notified ≡ e.notified)
  unfolding update_last_info
  update-Safe e h = ground arith

  reconnect_task-Ended :
      (env : ℕ → Round p) (e : Engine p)
      → is_some e.running ≡ true
      → ((k : ℕ) → Calm (env k))
      → Ended e.notified (reconnect_task p env e)
  unfolding reconnect_task
  reconnect_task-Ended env e running calm =
      let up = update-Safe e running in
      let done =
        attempts-Ended e.notified reconnect_attempts 0 env (update_last_info p e) calm (inr up.0)
          up.1 in
      ground (arith, done)

  -- A reconnection ends, without a panic: the flag `reconnecting` is cleared, the waiting tasks are
  -- notified once, and there is a session, or the engine is closed. Assumed: a session at the start,
  -- a network that answers, and that the other tasks take only benign steps meanwhile.
  pub reconnection_outcome :
      (full : Bool) (env : ℕ → Round p) (e : Engine p)
      → is_some e.running ≡ true
      → ((k : ℕ) → Calm (env k))
      → let u = reconnection p full env e in
        (u.reconnecting ≡ false)
        × (u.notified ≡ suc e.notified)
        × ((is_some u.running ≡ true) ⊎ (u.closed ≡ true))
  unfolding reconnection
  reconnection_outcome full env e running calm =
      task_end-lem e.notified _
        (reconnect_task-Ended env (record e { full_reconnect = full }) running calm)
