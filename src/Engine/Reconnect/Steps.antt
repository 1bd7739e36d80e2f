-- ===== src/Engine/Reconnect/Steps.antt =====
-- rtc_engine/mod.rs: what the steps of other tasks leave alone, and when a reconnection
-- task is started.
use livekit_rust.Base.{ℕ, suc, ◌≡◌, refl, ◌≢◌, Bool, true, false, List, [], ◌∷◌, arith, ◌⊎◌}
use livekit_rust.Base.Outcome.{ok}
use livekit_rust.Engine.State.{
  Payloads, Engine, SessionEvent, reconnection, session_close, on_session_event,
}
use livekit_rust.Engine.Reconnect.{
  Step, marks_closed, handles, Round, step, steps, attempts, attempt,
}

module _ (p : Payloads) where
  step-keeps :
      (a : Step p) (e : Engine p) → ((step p a e).reconnecting ≡ true) ⊎ (e.reconnecting ≡ false)
  unfolding step
  step-keeps (handles (session_close src reason can full retry)) e = ground arith
  step-keeps a e = ground arith

  -- While a reconnection task runs, no steps of other tasks end that state.
  pub steps-reconnecting :
      (as' : List (Step p)) (e : Engine p)
      → e.reconnecting ≡ true
      → (steps p as' e).reconnecting ≡ true
  unfolding steps
  steps-reconnecting [] e h = h
  steps-reconnecting (a ∷ as') e h =
      steps-reconnecting as' (step p a e) (ground (arith, step-keeps a e))

  pub steps-closed :
      (as' : List (Step p)) (e : Engine p) → e.closed ≡ true → (steps p as' e).closed ≡ true
  unfolding steps step
  steps-closed [] e h = h
  steps-closed (marks_closed ∷ as') e h = steps-closed as' _ refl
  steps-closed (a ∷ as') e h = steps-closed as' _ (ground arith)

  pub single_reconnection :
      (as' : List (Step p)) (ev : SessionEvent p) (full : Bool) (e : Engine p)
      → (e.reconnecting ≡ true) ⊎ (e.closed ≡ true)
      → (on_session_event p ev (steps p as' e)).0 ≢ reconnection full
  unfolding on_session_event
  single_reconnection as' ev full e h = ground (arith, steps-reconnecting as' e, steps-closed as' e)

  -- A closed engine stays closed, and a reconnection task that finds it closed returns at once,
  -- with success, and with nothing done.
  pub closed_is_final :
      (as' : List (Step p)) (e : Engine p) (left i : ℕ) (env : ℕ → Round p)
      → e.closed ≡ true
      → ((steps p as' e).closed ≡ true)
        × (attempts p (suc left) i env (steps p as' e) ≡ (ok tt, steps p as' e))
  unfolding attempts attempt
  closed_is_final as' e left i env h = (steps-closed as' e h, ground (arith, steps-closed as' e h))
