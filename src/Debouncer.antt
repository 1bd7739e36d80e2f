-- ===== src/Debouncer.antt =====
-- livekit-protocol/src/debouncer.rs: a future that is run once, when no call came for a while.
-- The task is a state with the steps that its `select!` and the clock may take, in any order that
-- they are possible; time is counted in ticks, and `duration` is the debouncer's delay.
mod Laws
mod Examples
use livekit_rust.Base.{
  ℕ, ◌+◌, nat_eq, ◌&&◌, zero, suc, List, [], ◌∷◌, Bool, true, false, Option, none, some,
  if◌then◌else◌,
}

pub data Phase : Type 0 where
  waiting : ℕ → Phase
  executing : Phase
  finished : Phase

-- `calls` are the messages in the channel that the task has not received; `cancelled` says that
-- the debouncer was dropped, which sends on `cancel_tx` and closes the channel of the calls.
pub record Debouncer : Type 0 where
  pub phase : Phase
  pub calls : ℕ
  pub cancelled : Bool

-- The task is spawned, and starts to sleep.
unfoldable pub debounce : ℕ → Debouncer
debounce duration = record { phase = waiting duration; calls = 0; cancelled = false }

-- The task owns the receiver: a send fails once the task has ended. The receiver outlives the
-- future, so that a send succeeds while the future runs.
unfoldable pub call_in : Phase → Debouncer → Option Debouncer
call_in finished x = none
call_in _ x = some (record x { calls = x.calls + 1 })

unfoldable pub call : Debouncer → Option Debouncer
unfolding call_in
call x = call_in x.phase x

unfoldable pub drop : Debouncer → Debouncer
drop x = record x { cancelled = true }

-- What may happen to the task: a tick of the clock, a branch of the `select!`, where the calls'
-- channel gives a call or, closed and empty, none, or the future's end.
pub data TaskStep : Type 0 where
  elapses takes_call receives_none fires notices_cancel completes : TaskStep

-- `rx.recv()` with so many messages in the channel: the loop goes round, and sleeps anew.
unfoldable pub receive : ℕ → ℕ → Debouncer → Option Debouncer
receive duration zero x = none
receive duration (suc calls) x = some (record x { phase = waiting duration; calls = calls })

unfoldable pub task_step : ℕ → TaskStep → Phase → Debouncer → Option Debouncer
unfolding receive
task_step duration elapses (waiting (suc left)) x = some (record x { phase = waiting left })
task_step duration takes_call (waiting left) x = receive duration x.calls x
task_step duration receives_none (waiting left) x =
    if x.cancelled && nat_eq x.calls 0 then some (record x { phase = waiting duration }) else none
task_step duration fires (waiting zero) x = some (record x { phase = executing })
task_step duration notices_cancel (waiting left) x =
    if x.cancelled then some (record x { phase = finished }) else none
task_step duration completes executing x = some (record x { phase = finished })
task_step duration _ _ x = none

-- `none`: the step is not possible.
unfoldable pub debounce_task : ℕ → TaskStep → Debouncer → Option Debouncer
unfolding task_step
debounce_task duration s x = task_step duration s x.phase x

-- A step of the task, or of the debouncer's owner, who has none any more once it is dropped.
pub data DebouncerStep : Type 0 where
  is_called is_dropped : DebouncerStep
  acts : TaskStep → DebouncerStep

unfoldable pub debouncer_step : ℕ → DebouncerStep → Debouncer → Option Debouncer
unfolding call drop debounce_task
debouncer_step duration is_called x = if x.cancelled then none else call x
debouncer_step duration is_dropped x = if x.cancelled then none else some (drop x)
debouncer_step duration (acts s) x = debounce_task duration s x

-- A run: `none` where a step is not possible.
unfoldable pub run_task : ℕ → List DebouncerStep → Debouncer → Option Debouncer
unfolding debouncer_step
run_task duration [] x = some x
run_task duration (s ∷ ss) x = elim (debouncer_step duration s x) [
  | none ↦ none
  | some y ↦ run_task duration ss y
]
