-- ===== src/Engine/Reconnect/Sessions.antt =====
-- rtc_engine/mod.rs: what becomes of the sessions. `all_sessions` are those closed so far and the running one.
use mathlib.Core.List.{append-nil, append_assoc}
use livekit_rust.Base.{
  ℕ, zero, suc, ◌≡◌, refl, sym, ap, ◌∙◌, Bool, true, false, List, [], ◌∷◌, ◌++◌, Option, none, some,
  arith, inl, inr, Option-cases, if◌then◌else◌, nat_eq,
}
use livekit_rust.Base.Outcome.{Outcome, ok, err, panic, hang, continue}
use livekit_rust.Engine.State.{
  Payloads, Engine, EngineError, Session, session_close, terminate_session, emit, connect,
  signal_restarted, resuming, restarting, signal, EngineEvent,
}
use livekit_rust.Engine.Reconnect.{
  Step, marks_closed, finishes_close, handles, Round, step, steps, attempts, attempt,
  try_restart_connection, try_resume_connection, unwrap_session, after_restart, after_resume,
}

module _ (p : Payloads) where
  abbrev current : Option (Session p) → List (Session p)
  current none = []
  current (some s) = s ∷ []

  abbrev pub all_sessions : Engine p → List (Session p)
  all_sessions e = e.ended ++ current e.running

  terminate-running : (e : Engine p) → (terminate_session p e).running ≡ none
  unfolding terminate_session
  terminate-running e = ground arith

  all_sessions-terminate : (e : Engine p) → all_sessions (terminate_session p e) ≡ all_sessions e
  unfolding terminate_session
  all_sessions-terminate e = elim (Option-cases e.running) [
    | inl h ↦ ground arith
    | inr (s, h) ↦ ground (arith, append-nil (e.ended ++ s ∷ []))
  ]

  step-sessions :
      (a : Step p) (e : Engine p)
      → (all_sessions (step p a e) ≡ all_sessions e)
        × (e.running ≡ none → (step p a e).running ≡ none)
  unfolding step
  step-sessions marks_closed e = (refl, λ h. h)
  step-sessions (finishes_close reason) e = (all_sessions-terminate e, λ h. terminate-running e)
  step-sessions (handles (session_close src reason can full retry)) e = ground arith
  step-sessions (handles ev) e = ground arith

  steps-sessions :
      (as' : List (Step p)) (e : Engine p)
      → (all_sessions (steps p as' e) ≡ all_sessions e)
        × (e.running ≡ none → (steps p as' e).running ≡ none)
  unfolding steps
  steps-sessions [] e = (refl, λ h. h)
  steps-sessions (a ∷ as') e =
      let (same, gone) = step-sessions a e in
      let (same', gone') = steps-sessions as' (step p a e) in (same' ∙ same, λ h. gone' (gone h))

  -- The session that a full reconnect brings.
  abbrev pub brought : Outcome EngineError (Session p) → List (Session p)
  brought (ok s) = s ∷ []
  brought _ = []

  connect-sessions :
      (session : Outcome EngineError (Session p)) (e : Engine p)
      → e.running ≡ none
      → all_sessions (connect p session e).1 ≡ all_sessions e ++ brought session
  unfolding connect
  connect-sessions (ok s) e h = ground (arith, append-nil e.ended)
  connect-sessions (err x) e h = ground (arith, append-nil e.ended)
  connect-sessions panic e h = ground (arith, append-nil e.ended)
  connect-sessions hang e h = ground (arith, append-nil e.ended)

  wait-sessions :
      (r : Round p) (c : Outcome EngineError (Unit {0}) × Engine p)
      → all_sessions
          (continue c (λ _ e1.
            continue
              (unwrap_session p (steps p r.before_waiting (emit p signal_restarted e1)))
              (λ _ e2. (r.wait_connection, e2)))).1
        ≡ all_sessions c.1
  unfolding emit
  wait-sessions r (ok a, e) =
      ground (arith, (steps-sessions r.before_waiting (emit p signal_restarted e)).0)
  wait-sessions r (err x, e) = refl
  wait-sessions r (panic, e) = refl
  wait-sessions r (hang, e) = refl

  restart-sessions :
      (r : Round p) (e : Engine p)
      → all_sessions (try_restart_connection p r e).1 ≡ all_sessions e ++ brought r.session
  unfolding try_restart_connection
  restart-sessions r e =
      let (same, gone) = steps-sessions r.while_terminating (terminate_session p e) in
      wait-sessions r (connect p r.session (steps p r.while_terminating (terminate_session p e)))
      ∙ connect-sessions r.session _ (gone (terminate-running e))
      ∙ ap (λ l. l ++ brought r.session) (same ∙ all_sessions-terminate e)

  resume-sessions :
      (r : Round p) (e : Engine p) → all_sessions (try_resume_connection p r e).1 ≡ all_sessions e
  unfolding try_resume_connection emit
  resume-sessions r e = ground (arith, (steps-sessions r.while_resuming e).0)

  -- The sessions that an attempt brings: one, if it is a full reconnect that connects.
  abbrev pub opened : Round p → Engine p → List (Session p)
  opened r e = if e.closed then [] else if e.full_reconnect then brought r.session else []

  first-sessions :
      (b : Bool) (ev : EngineEvent p) (e : Engine p)
      → all_sessions (if b then emit p ev e else e) ≡ all_sessions e
  unfolding emit
  first-sessions true ev e = refl
  first-sessions false ev e = refl

  after_restart-sessions :
      (x : Outcome EngineError (Unit {0}) × Engine p)
      → all_sessions (after_restart p x).1 ≡ all_sessions x.1
  unfolding emit
  after_restart-sessions (ok a, e) = refl
  after_restart-sessions (err x, e) = refl
  after_restart-sessions (panic, e) = refl
  after_restart-sessions (hang, e) = refl

  after_resume-sessions :
      (x : Outcome EngineError (Unit {0}) × Engine p)
      → all_sessions (after_resume p x).1 ≡ all_sessions x.1
  unfolding emit
  after_resume-sessions (ok a, e) = refl
  after_resume-sessions (err signal, e) = refl
  after_resume-sessions (err x, e) = refl
  after_resume-sessions (panic, e) = refl
  after_resume-sessions (hang, e) = refl

  branches :
      {A : Type 0} (closed full : Bool) (x y z : A × Engine p) (ls ns : List (Session p))
      → all_sessions x.1 ≡ ls
      → all_sessions y.1 ≡ ls ++ ns
      → all_sessions z.1 ≡ ls
      → all_sessions (if closed then x else if full then y else z).1
        ≡ ls ++ (if closed then [] else if full then ns else [])
  branches true full x y z ls ns a b c = a ∙ sym (append-nil ls)
  branches false true x y z ls ns a b c = b
  branches false false x y z ls ns a b c = c ∙ sym (append-nil ls)

  attempt-sessions :
      (i : ℕ) (r : Round p) (e : Engine p)
      → all_sessions (attempt p i r e).1 ≡ all_sessions e ++ opened r e
  unfolding attempt
  attempt-sessions i r e =
      branches e.closed e.full_reconnect _ _ _ (all_sessions e) (brought r.session) refl
        (after_restart-sessions _
          ∙ restart-sessions r _
          ∙ ap (λ l. l ++ brought r.session) (first-sessions (nat_eq i 0) restarting e))
        (after_resume-sessions _ ∙ resume-sessions r _ ∙ first-sessions (nat_eq i 0) resuming e)

  -- Every session that the attempts bring.
  pub all_opened : ℕ → ℕ → (ℕ → Round p) → Engine p → List (Session p)
  all_opened zero i env e = []
  all_opened (suc left) i env e =
      opened (env i) e
      ++ (let (done, e1) = attempt p i (env i) e in
          elim done [
            | ok false ↦ all_opened left (suc i) env (steps p (env i).while_ticking e1)
            | _ ↦ []
          ])

  next-sessions :
      (left i : ℕ) (env : ℕ → Round p) (ls : List (Session p))
      (x : Outcome EngineError Bool × Engine p)
      → ((e : Engine p)
          → all_sessions (attempts p left (suc i) env e).1
            ≡ all_sessions e ++ all_opened left (suc i) env e)
      → all_sessions x.1 ≡ ls
      → all_sessions
          (continue {B = Unit {0}} x (λ done e1. elim done [
            | true ↦ (ok tt, e1)
            | false ↦ attempts p left (suc i) env (steps p (env i).while_ticking e1)
          ])).1
        ≡ ls ++ (elim x.0 [
          | ok false ↦ all_opened left (suc i) env (steps p (env i).while_ticking x.1)
          | _ ↦ []
        ])
  next-sessions left i env ls (ok true, e) ih h = h ∙ sym (append-nil ls)
  next-sessions left i env ls (ok false, e) ih h =
      ih (steps p (env i).while_ticking e)
      ∙ ap (λ l. l ++ all_opened left (suc i) env (steps p (env i).while_ticking e))
          ((steps-sessions (env i).while_ticking e).0 ∙ h)
  next-sessions left i env ls (err x, e) ih h = h ∙ sym (append-nil ls)
  next-sessions left i env ls (panic, e) ih h = h ∙ sym (append-nil ls)
  next-sessions left i env ls (hang, e) ih h = h ∙ sym (append-nil ls)

  -- No session is lost: after any number of attempts, whatever the network answered and whatever
  -- other tasks did in between, the sessions that were closed and the one running are the earlier
  -- ones and those that the attempts brought, each once and in order.
  pub attempts-sessions :
      (left i : ℕ) (env : ℕ → Round p) (e : Engine p)
      → all_sessions (attempts p left i env e).1 ≡ all_sessions e ++ all_opened left i env e
  unfolding attempts all_opened
  attempts-sessions zero i env e = sym (append-nil (all_sessions e))
  attempts-sessions (suc left) i env e =
      next-sessions left i env _ (attempt p i (env i) e) (attempts-sessions left (suc i) env)
        (attempt-sessions i (env i) e)
      ∙ append_assoc (all_sessions e) (opened (env i) e) _
