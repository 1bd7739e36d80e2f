-- ===== src/Engine/Negotiation.antt =====
-- livekit/src/rtc_engine/rtc_session.rs: the publisher's negotiation, a debounced offer.
-- A run is a sequence of requests and of steps of the debouncer's task, in any order that they are
-- possible. `requested` counts the requests so far and `covered` those made before the latest offer
-- that was sent was created: an offer describes the senders of that moment, and of no later one.
mod Laws
mod Examples
use livekit_rust.Base.{ℕ, ◌+◌, Bool, true, false, Option, none, some, List, [], ◌∷◌}
use livekit_rust.Debouncer.{
  Debouncer, TaskStep, Phase, elapses, takes_call, fires, completes, executing, debounce, call,
  debounce_task,
}

-- `made`: the requests that the running future's offer covers, once that is created. `renegotiate` is
-- the flag of the publisher's transport: an offer is to follow the answer (Engine.Transport).
pub record Negotiation : Type 0 where
  pub debouncer : Option Debouncer
  pub has_published : Bool
  pub requested : ℕ
  pub covered : ℕ
  pub made : Option ℕ
  pub renegotiate : Bool

-- `debouncer.is_none() || debouncer.as_ref().unwrap().call().is_err()`, with the call's effect.
pub debounced : ℕ → Option Debouncer → Debouncer
unfolding call debounce
debounced frequency none = debounce frequency
debounced frequency (some x) = elim (call x) [ none ↦ debounce frequency | some y ↦ y ]

pub publisher_negotiation_needed : ℕ → Negotiation → Negotiation
unfolding debounced
publisher_negotiation_needed frequency n = record n {
  has_published = true;
  debouncer = some (debounced frequency n.debouncer);
  requested = n.requested + 1;
}

-- The future is `create_and_send_offer`: `creates` is its `create_offer`, `ends` the rest of it with
-- the task's end, and `fails` an error, before or after, which the future only logs. Without an offer
-- it also ends well: `defers` finds a local offer that is not answered, and `finds_closed` a closed
-- connection.
pub data NegotiationStep : Type 0 where
  requests sleeps receives starts creates ends fails defers finds_closed : NegotiationStep

-- A step of the debouncer's task, with what else it changes.
pub on_task :
    ℕ → TaskStep → (Negotiation → Negotiation) → Option Debouncer → Negotiation → Option Negotiation
on_task frequency s f none n = none
on_task frequency s f (some x) n = elim (debounce_task frequency s x) [
  | none ↦ none
  | some y ↦ some (record (f n) { debouncer = some y })
]

create_in : Phase → Option ℕ → Negotiation → Option Negotiation
create_in executing none n = some (record n { made = some n.requested })
create_in _ made n = none

creates_offer : Option Debouncer → Negotiation → Option Negotiation
unfolding create_in
creates_offer none n = none
creates_offer (some x) n = create_in x.phase n.made n

sends_offer : Option ℕ → ℕ → Negotiation → Option Negotiation
unfolding on_task
sends_offer none frequency n = none
sends_offer (some k) frequency n =
    on_task frequency completes (λ m. record m { covered = k; made = none }) n.debouncer n

-- The ends of the future before its `create_offer`.
ends_early : Option ℕ → ℕ → (Negotiation → Negotiation) → Negotiation → Option Negotiation
unfolding on_task
ends_early (some k) frequency f n = none
ends_early none frequency f n = on_task frequency completes f n.debouncer n

pub negotiation_step : ℕ → NegotiationStep → Negotiation → Option Negotiation
unfolding publisher_negotiation_needed creates_offer sends_offer ends_early on_task
negotiation_step frequency requests n = some (publisher_negotiation_needed frequency n)
negotiation_step frequency sleeps n = on_task frequency elapses (λ m. m) n.debouncer n
negotiation_step frequency receives n = on_task frequency takes_call (λ m. m) n.debouncer n
negotiation_step frequency starts n =
    on_task frequency fires (λ m. record m { made = none }) n.debouncer n
negotiation_step frequency creates n = creates_offer n.debouncer n
negotiation_step frequency ends n = sends_offer n.made frequency n
negotiation_step frequency fails n =
    on_task frequency completes (λ m. record m { made = none }) n.debouncer n
negotiation_step frequency defers n =
    ends_early n.made frequency (λ m. record m { renegotiate = true }) n
negotiation_step frequency finds_closed n = ends_early n.made frequency (λ m. m) n

pub negotiate : ℕ → List NegotiationStep → Negotiation → Option Negotiation
unfolding negotiation_step
negotiate frequency [] n = some n
negotiate frequency (s ∷ ss) n = elim (negotiation_step frequency s n) [
  | none ↦ none
  | some m ↦ negotiate frequency ss m
]
