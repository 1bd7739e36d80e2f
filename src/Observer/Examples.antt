-- ===== src/Observer/Examples.antt =====
-- observer.rs with three subscribers, of whom one leaves.
use livekit_rust.Base.{ℕ, ◌≡◌, refl, [], ◌∷◌}
use livekit_rust.Observer.{new, register, registers, dispatches, closes, steps}
use livekit_rust.Observer.Delivery.{subscriber_hears_all}

subscriber_hears_all_example :
    let d = steps ℕ (registers ∷ dispatches 5 ∷ []) (new ℕ) in
    ((steps ℕ (dispatches 6 ∷ closes 0 ∷ registers ∷ dispatches 7 ∷ []) (register ℕ d)).channels
      d.next).received
    ≡ 6 ∷ 7 ∷ []
unfolding steps new
subscriber_hears_all_example =
    subscriber_hears_all (registers ∷ dispatches 5 ∷ [])
      (dispatches 6 ∷ closes 0 ∷ registers ∷ dispatches 7 ∷ []) refl
