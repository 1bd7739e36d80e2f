-- ===== src/Engine/Negotiation/Examples.antt =====
-- rtc_session.rs: negotiations at a delay of one tick.
use livekit_rust.Base.{ℕ, ◌≡◌, ◌<◌, refl, [], ◌∷◌, none, some, true, false, arith}
use livekit_rust.Debouncer.{Debouncer, executing, finished, debounce, call, debounce_task}
use livekit_rust.Engine.Negotiation.{
  Negotiation, requests, sleeps, starts, creates, ends, defers, publisher_negotiation_needed,
  negotiate,
}
use livekit_rust.Engine.Negotiation.Laws.{request_served, late_request_lost}

abbrev idle : Negotiation
idle = record {
  debouncer = none;
  has_published = false;
  requested = 0;
  covered = 0;
  made = none;
  renegotiate = false;
}

-- One request, then its offer, whose future has created it.
abbrev under_way : Negotiation
under_way = record {
  debouncer = some (record { phase = executing; calls = 0; cancelled = false });
  has_published = true;
  requested = 1;
  covered = 0;
  made = some 1;
  renegotiate = false;
}

under_way_is_reached : negotiate 1 (requests ∷ sleeps ∷ starts ∷ creates ∷ []) idle ≡ some under_way
unfolding negotiate debounce debounce_task
under_way_is_reached = refl

abbrev ended : ℕ → ℕ → Debouncer → Negotiation
ended r c x = record {
  debouncer = some x;
  has_published = true;
  requested = r;
  covered = c;
  made = none;
  renegotiate = false;
}

-- With an offer that is not answered, the task ends without another, and notes the renegotiation.
deferred_run :
    negotiate 1 (requests ∷ sleeps ∷ starts ∷ defers ∷ []) idle
    ≡ some (record (ended 1 0 (record { phase = finished; calls = 0; cancelled = false })) {
      renegotiate = true;
    })
unfolding negotiate debounce debounce_task
deferred_run = refl

request_served_example :
    let u = ended 1 1 (record { phase = finished; calls = 0; cancelled = false }) in
    u.covered ≡ u.requested
unfolding negotiate publisher_negotiation_needed debounce debounce_task
request_served_example =
    request_served 1 (sleeps ∷ starts ∷ creates ∷ ends ∷ []) idle _ _ refl (ground arith) refl refl
      refl

late_request_lost_example : 1 < 2
unfolding negotiate publisher_negotiation_needed call debounce_task
late_request_lost_example =
    (late_request_lost 1 1 (ends ∷ []) under_way
      (ended 2 1 (record { phase = finished; calls = 1; cancelled = false })) _ refl refl refl
      (omega arith) (omega arith) (ground arith) refl).1
