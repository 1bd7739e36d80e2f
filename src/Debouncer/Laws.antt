-- ===== src/Debouncer/Laws.antt =====
-- debouncer.rs: the task ends.
use livekit_rust.Base.{
  ℕ, zero, suc, ◌+◌, ◌*◌, ◌≤◌, ◌<◌, ◌≡◌, ◌≢◌, ◌⊎◌, inl, inr, refl, List, [], ◌∷◌, none, some,
  length, arith, Option-cases,
}
use livekit_rust.Debouncer.{
  Phase, waiting, executing, finished, Debouncer, TaskStep, elapses, takes_call, receives_none,
  fires, notices_cancel, completes, run_task, debounce_task, task_step, receive, call, call_in,
  drop, DebouncerStep, is_called, is_dropped, acts, debouncer_step,
}

abbrev pub left : Phase → ℕ
left (waiting n) = n + 2
left executing = 1
left finished = 0

-- A bound on the steps to come, if nothing renews the wait.
abbrev pub steps_left : ℕ → Debouncer → ℕ
steps_left duration x = x.calls * (duration + 3) + left x.phase

-- The steps that renew the wait, or prepare to: a call, the drop, and a closed channel that the
-- `select!` chooses over the cancellation.
abbrev pub renews : DebouncerStep → ℕ
renews is_called = 1
renews is_dropped = 1
renews (acts receives_none) = 1
renews (acts s) = 0

abbrev pub renewals : List DebouncerStep → ℕ
renewals [] = 0
renewals (s ∷ ss) = renews s + renewals ss

some_inj : {x y : Debouncer} → some x ≡ some y → x ≡ y
some_inj h = cc

receive-lt :
    (duration calls : ℕ) (x y : Debouncer) (n : ℕ)
    → x.calls ≡ calls
    → x.phase ≡ waiting n
    → receive duration calls x ≡ some y
    → steps_left duration y < steps_left duration x
unfolding receive
receive-lt d zero x y n c e h = cc
receive-lt d (suc calls) x y n c e h = rw (← some_inj h) (rw (c, e) (grind arith))

task_step-lt :
    (duration : ℕ) (s : TaskStep) (p : Phase) (x y : Debouncer)
    → s ≢ receives_none
    → x.phase ≡ p
    → task_step duration s p x ≡ some y
    → steps_left duration y < steps_left duration x
unfolding task_step
task_step-lt d receives_none p x y ne e h = absurd (ne refl)
task_step-lt d elapses (waiting (suc n)) x y ne e h = ground arith
task_step-lt d elapses (waiting zero) x y ne e h = cc
task_step-lt d elapses executing x y ne e h = cc
task_step-lt d elapses finished x y ne e h = cc
task_step-lt d takes_call (waiting n) x y ne e h = receive-lt d x.calls x y n refl e h
task_step-lt d takes_call executing x y ne e h = cc
task_step-lt d takes_call finished x y ne e h = cc
task_step-lt d fires (waiting zero) x y ne e h = ground arith
task_step-lt d fires (waiting (suc n)) x y ne e h = cc
task_step-lt d fires executing x y ne e h = cc
task_step-lt d fires finished x y ne e h = cc
task_step-lt d notices_cancel (waiting n) x y ne e h = ground arith
task_step-lt d notices_cancel executing x y ne e h = cc
task_step-lt d notices_cancel finished x y ne e h = cc
task_step-lt d completes executing x y ne e h = ground arith
task_step-lt d completes (waiting n) x y ne e h = cc
task_step-lt d completes finished x y ne e h = cc

receives_none-le :
    (duration : ℕ) (p : Phase) (x y : Debouncer)
    → x.phase ≡ p
    → task_step duration receives_none p x ≡ some y
    → steps_left duration y < steps_left duration x + (duration + 4)
unfolding task_step
receives_none-le d (waiting n) x y e h = ground arith
receives_none-le d executing x y e h = cc
receives_none-le d finished x y e h = cc

call-le :
    (duration : ℕ) (p : Phase) (x y : Debouncer)
    → call_in p x ≡ some y
    → steps_left duration y < steps_left duration x + (duration + 4)
unfolding call_in
call-le d (waiting n) x y h = rw (← some_inj h) (grind arith)
call-le d executing x y h = rw (← some_inj h) (grind arith)
call-le d finished x y h = cc

debouncer_step-le :
    (duration : ℕ) (s : DebouncerStep) (x y : Debouncer)
    → debouncer_step duration s x ≡ some y
    → steps_left duration y < steps_left duration x + renews s * (duration + 4)
unfolding debouncer_step debounce_task call drop
debouncer_step-le d is_called x y h = ground (arith, call-le d x.phase x y)
debouncer_step-le d is_dropped x y h = ground arith
debouncer_step-le d (acts receives_none) x y h =
    omega (arith, receives_none-le d x.phase x y refl h)
debouncer_step-le d (acts s) x y h = omega (arith, task_step-lt d s x.phase x y (λ q. cc) refl h)

-- While the task has not ended, some step of it is possible that brings it nearer to its end.
can_step :
    (duration : ℕ) (p : Phase) (x : Debouncer)
    → x.phase ≡ p
    → (x.phase ≡ finished)
      ⊎ ((s : TaskStep) × (y : Debouncer) × (s ≢ receives_none)
          × (debounce_task duration s x ≡ some y))
unfolding debounce_task
can_step d (waiting zero) x e = inr (fires, record x { phase = executing }, (λ q. cc), rw e refl)
can_step d (waiting (suc n)) x e =
    inr (elapses, record x { phase = waiting n }, (λ q. cc), rw e refl)
can_step d executing x e = inr (completes, record x { phase = finished }, (λ q. cc), rw e refl)
can_step d finished x e = inl e

-- The task ends, if its future does. Whatever happens, in any order, calls and the drop of the
-- debouncer included, a run takes at most as many steps as the first state has left, which is what
-- its unreceived calls and its sleep allow, and `duration + 4` more for every call, for the drop, and
-- for every time that the closed channel is chosen over the cancellation; and a run stops only where
-- the task has ended: elsewhere another step of the task is possible, which is not such a choice.
pub task_ends :
    (duration : ℕ) (ss : List DebouncerStep) (x y : Debouncer)
    → run_task duration ss x ≡ some y
    → (length ss + steps_left duration y ≤ steps_left duration x + renewals ss * (duration + 4))
      × ((y.phase ≡ finished)
          ⊎ ((s : TaskStep) × (z : Debouncer) × (s ≢ receives_none)
              × (debounce_task duration s y ≡ some z)))
unfolding run_task
task_ends d [] x y h = (ground arith, can_step d y.phase y refl)
task_ends d (s ∷ ss) x y h = elim (Option-cases (debouncer_step d s x)) [
  | inl e ↦ absurd (absurd (let k : none ≡ some y = rw (run_task, e) at h in cc))
  | inr (z, e) ↦
      let k = task_ends d ss z y (rw (run_task, e) at h) in
      (grind (arith, k.0, debouncer_step-le d s x z e), k.1)
]
