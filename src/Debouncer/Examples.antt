-- ===== src/Debouncer/Examples.antt =====
-- debouncer.rs at a delay of two ticks, with one call while it sleeps.
use livekit_rust.Base.{◌≡◌, ◌+◌, ◌≤◌, refl, List, [], ◌∷◌, some, none, true, false}
use livekit_rust.Debouncer.{
  debounce, call, elapses, takes_call, fires, notices_cancel, completes, finished, Debouncer,
  receives_none, DebouncerStep, is_called, is_dropped, acts, run_task,
}
use livekit_rust.Debouncer.Laws.{steps_left, task_ends}

called : Debouncer
unfolding debounce
called = record (debounce 2) { calls = 1 }

once_called : call (debounce 2) ≡ some called
unfolding call debounce called
once_called = refl

-- A second call, while the first is asleep, and the whole course of the task.
after_elapses : List DebouncerStep
after_elapses =
    acts elapses
    ∷ is_called
    ∷ acts takes_call
    ∷ acts takes_call
    ∷ acts elapses
    ∷ acts elapses
    ∷ acts fires
    ∷ acts completes
    ∷ []

done : Debouncer
done = record { phase = finished; calls = 0; cancelled = false }

refused_when_done : call done ≡ none
unfolding call done
refused_when_done = refl

dropped_while_asleep :
    run_task 2
      (acts elapses ∷ is_dropped ∷ acts receives_none ∷ acts notices_cancel ∷ [])
      (debounce 2)
    ≡ some (record { phase = finished; calls = 0; cancelled = true })
unfolding run_task debounce
dropped_while_asleep = refl

task_ends_example : 8 ≤ steps_left 2 called + 6
unfolding called after_elapses done run_task
task_ends_example = (task_ends 2 after_elapses called done refl).0
