-- ===== src/Engine/Reconnect/Attempts.antt =====
-- rtc_engine/mod.rs: when the loop of the reconnection task gives up.
use livekit_rust.Base.{
  ℕ, zero, suc, ◌+◌, ◌<◌, ◌≡◌, refl, subst, ◌≢◌, Bool, true, false, arith, ◌⊎◌, if_elim,
}
use livekit_rust.Base.Outcome.{Outcome, ok, err, panic, hang, continue}
use livekit_rust.Engine.State.{
  Payloads, Engine, EngineError, Session, signal, connect, terminate_session,
}
use livekit_rust.Engine.Reconnect.{
  Round, steps, attempts, attempt, try_restart_connection, try_resume_connection, after_restart,
  after_resume,
}

module _ (p : Payloads) where
  -- The network does all that an attempt asks of it.
  pub record Succeeds (r : Round p) : Type 0 where
    pub session : Session p
    pub connects : r.session ≡ ok session
    pub restarts : r.restart ≡ ok tt
    pub settles : r.wait_connection ≡ ok tt

  returned-again : ◌≢◌ {A = Outcome EngineError Bool} (ok true) (ok false)
  returned-again h = cc

  returned-err : (z : EngineError) → ◌≢◌ {A = Outcome EngineError Bool} (ok true) (err z)
  returned-err z h = cc

  connect-Succeeds :
      (s : Session p) (e : Engine p)
      → ((connect p (ok s) e).0 ≡ ok tt) ⊎ ((connect p (ok s) e).0 ≡ panic)
  unfolding connect
  connect-Succeeds s e = ground arith

  restart-Succeeds :
      (r : Round p) (e : Engine p)
      → Succeeds r
      → (after_restart p (try_restart_connection p r e)).0 ≢ ok false
  unfolding try_restart_connection
  restart-Succeeds r e s h =
      ground
        (arith, connect-Succeeds s.session (steps p r.while_terminating (terminate_session p e)))

  resume-Succeeds :
      (r : Round p) (e : Engine p)
      → Succeeds r
      → (after_resume p (try_resume_connection p r e)).0 ≢ ok false
  unfolding try_resume_connection
  resume-Succeeds r e s h = ground arith

  abbrev Another : Outcome EngineError Bool × Engine p → Type 0
  Another y = y.0 ≢ ok false

  attempt-Succeeds :
      (i : ℕ) (r : Round p) (e : Engine p) → Succeeds r → (attempt p i r e).0 ≢ ok false
  unfolding attempt
  attempt-Succeeds i r e s =
      if_elim Another e.closed (λ _. returned-again)
        (λ _.
          if_elim Another e.full_reconnect (λ _. restart-Succeeds r _ s)
            (λ _. resume-Succeeds r _ s))

  after_restart-no_err :
      (x : Outcome EngineError (Unit {0}) × Engine p) (z : EngineError)
      → (after_restart p x).0 ≢ err z
  after_restart-no_err (ok a, e) z h = cc
  after_restart-no_err (err y, e) z h = cc
  after_restart-no_err (panic, e) z h = cc
  after_restart-no_err (hang, e) z h = cc

  after_resume-no_err :
      (x : Outcome EngineError (Unit {0}) × Engine p) (z : EngineError)
      → (after_resume p x).0 ≢ err z
  after_resume-no_err (ok a, e) z h = cc
  after_resume-no_err (err signal, e) z h = cc
  after_resume-no_err (err y, e) z h = ground arith
  after_resume-no_err (panic, e) z h = cc
  after_resume-no_err (hang, e) z h = cc

  attempt-no_err :
      (i : ℕ) (r : Round p) (e : Engine p) (z : EngineError) → (attempt p i r e).0 ≢ err z
  unfolding attempt
  attempt-no_err i r e z =
      if_elim (λ (y : Outcome EngineError Bool × Engine p). y.0 ≢ err z) e.closed
        (λ _. returned-err z)
        (λ _.
          if_elim (λ (y : Outcome EngineError Bool × Engine p). y.0 ≢ err z) e.full_reconnect
            (λ _. after_restart-no_err _ z) (λ _. after_resume-no_err _ z))

  last-again :
      (left i : ℕ) (env : ℕ → Round p) (x : Outcome EngineError Bool × Engine p) (y : EngineError)
      → (continue {B = Unit {0}} x (λ done e1. elim done [
        | true ↦ (ok tt, e1)
        | false ↦ attempts p left (suc i) env (steps p (env i).while_ticking e1)
      ])).0
        ≡ err y
      → ((z : EngineError) → x.0 ≢ err z)
      → (x.0 ≡ ok false)
        × ((attempts p left (suc i) env (steps p (env i).while_ticking x.1)).0 ≡ err y)
  last-again left i env (ok true, e) y h n = absurd (ground arith)
  last-again left i env (ok false, e) y h n = (refl, h)
  last-again left i env (err z, e) y h n = absurd (n z refl)
  last-again left i env (panic, e) y h n = absurd (ground arith)
  last-again left i env (hang, e) y h n = absurd (ground arith)

  -- The loop gives up only when every one of its attempts was refused something by the network:
  -- with a round that connects, restarts and settles among them, it does not return an error.
  pub gives_up_after_all :
      (left i : ℕ) (env : ℕ → Round p) (e : Engine p) (y : EngineError) (k : ℕ)
      → (attempts p left i env e).0 ≡ err y
      → k < left
      → ¬ Succeeds (env (i + k))
  unfolding attempts
  gives_up_after_all zero i env e y k h lt s = elim lt [ ]
  gives_up_after_all (suc left) i env e y zero h lt s =
      let again = last-again left i env (attempt p i (env i) e) y h (attempt-no_err i (env i) e) in
      attempt-Succeeds i (env i) e (subst (λ n. Succeeds (env n)) (omega arith) s) again.0
  gives_up_after_all (suc left) i env e y (suc k) h lt s =
      let again = last-again left i env (attempt p i (env i) e) y h (attempt-no_err i (env i) e) in
      gives_up_after_all left (suc i) env _ y k again.1 (omega arith)
        (subst (λ n. Succeeds (env n)) (omega arith) s)
