-- ===== src/Observer/Delivery.antt =====
-- observer.rs: what a subscriber receives, and which senders are kept.
use livekit_rust.Base.{
  ℕ, suc, ◌+◌, ◌<◌, ◌≡◌, refl, ap, ◌∙◌, Bool, true, false, not, ◌&&◌, List, [], ◌∷◌, ◌++◌, arith,
  if◌then◌else◌, nat_eq, ltb,
}
use mathlib.Core.List.{append_assoc, append-nil}
use livekit_rust.Observer.{
  Channel, Dispatcher, new, register, send, retain, dispatch, close_receiver, Step, registers,
  dispatches, closes, step, steps,
}

abbrev count : ℕ → List ℕ → ℕ
count n [] = 0
count n (k ∷ ks) = if nat_eq k n then suc (count n ks) else count n ks

count-append : (n : ℕ) (xs ys : List ℕ) → count n (xs ++ ys) ≡ count n xs + count n ys
count-append n [] ys = omega arith
count-append n (x ∷ xs) ys = ground (arith, count-append n xs ys)

-- The senders were all registered.
abbrev pub below : ℕ → List ℕ → Bool
below b [] = true
below b (k ∷ ks) = ltb k b && below b ks

below-count : (b : ℕ) (ks : List ℕ) → below b ks ≡ true → count b ks ≡ 0
below-count b [] h = refl
below-count b (k ∷ ks) h = ground (arith, below-count b ks)

below-push : (b : ℕ) (ks : List ℕ) → below b ks ≡ true → below (suc b) (ks ++ b ∷ []) ≡ true
below-push b [] h = ground arith
below-push b (k ∷ ks) h = ground (arith, below-push b ks)

module _ {T : Type 0} where
  -- The messages among some steps, in order, and whether a subscriber stays through them.
  abbrev pub dispatched : List (Step T) → List T
  dispatched [] = []
  dispatched (registers ∷ ss) = dispatched ss
  dispatched (dispatches m ∷ ss) = m ∷ dispatched ss
  dispatched (closes k ∷ ss) = dispatched ss

  abbrev pub stays : ℕ → List (Step T) → Bool
  stays n [] = true
  stays n (registers ∷ ss) = stays n ss
  stays n (dispatches m ∷ ss) = stays n ss
  stays n (closes k ∷ ss) = not (nat_eq k n) && stays n ss

  send-other :
      (m : T) (k n : ℕ) (cs : ℕ → Channel T) → nat_eq k n ≡ false → (send T m k cs).1 n ≡ cs n
  unfolding send
  send-other m k n cs h = ground arith

  retain-none :
      (m : T) (n : ℕ) (ks : List ℕ) (cs : ℕ → Channel T)
      → count n ks ≡ 0
      → (count n (retain T m ks cs).0 ≡ 0) × ((retain T m ks cs).1 n ≡ cs n)
  unfolding retain
  retain-none m n [] cs h = (refl, refl)
  retain-none m n (k ∷ ks) cs h =
      ground (arith, send-other m k n cs, retain-none m n ks (send T m k cs).1)

  retain-one :
      (m : T) (n : ℕ) (ks : List ℕ) (cs : ℕ → Channel T)
      → count n ks ≡ 1
      → (cs n).open_end ≡ true
      → (count n (retain T m ks cs).0 ≡ 1)
        × ((retain T m ks cs).1 n
            ≡ record { open_end = true; received = (cs n).received ++ m ∷ [] })
  unfolding retain
  retain-one m n [] cs h o = ground arith
  retain-one m n (k ∷ ks) cs h o = ground (
    arith,
    send-other m k n cs,
    retain-one m n ks (send T m k cs).1,
    retain-none m n ks (send T m k cs).1,
  )

  -- The subscriber `n` is registered, has its receiver, and has got `ms`.
  abbrev Subscribed : ℕ → List T → Dispatcher T → Type 0
  Subscribed n ms d =
      (count n d.senders ≡ 1)
      × (d.channels n ≡ record { open_end = true; received = ms })
      × (n < d.next)

  register-Subscribed :
      (d : Dispatcher T) → below d.next d.senders ≡ true → Subscribed d.next [] (register T d)
  unfolding register
  register-Subscribed d h = (
    count-append d.next d.senders (d.next ∷ []) ∙ ground (arith, below-count d.next d.senders h),
    ground arith,
    omega arith,
  )

  step-Subscribed :
      (n : ℕ) (ms : List T) (s : Step T) (d : Dispatcher T)
      → stays n (s ∷ []) ≡ true
      → Subscribed n ms d
      → Subscribed n (ms ++ dispatched (s ∷ [])) (step T s d)
  unfolding step register dispatch close_receiver
  step-Subscribed n ms registers d h sub =
      ground (arith, count-append n d.senders (d.next ∷ []), append-nil ms)
  step-Subscribed n ms (dispatches m) d h sub = ground (arith, retain-one m n d.senders d.channels)
  step-Subscribed n ms (closes k) d h sub = ground (arith, append-nil ms)

  steps-Subscribed :
      (n : ℕ) (ms : List T) (ss : List (Step T)) (d : Dispatcher T)
      → stays n ss ≡ true
      → Subscribed n ms d
      → Subscribed n (ms ++ dispatched ss) (steps T ss d)
  unfolding steps
  steps-Subscribed n ms [] d h sub = ground (arith, append-nil ms)
  steps-Subscribed n ms (registers ∷ ss) d h sub = ground (
    arith,
    append-nil ms,
    step-Subscribed n ms registers d refl sub,
    steps-Subscribed n ms ss (step T registers d) h,
  )
  steps-Subscribed n ms (dispatches m ∷ ss) d h sub = ground (
    arith,
    append_assoc ms (m ∷ []) (dispatched ss),
    step-Subscribed n ms (dispatches m) d refl sub,
    steps-Subscribed n (ms ++ m ∷ []) ss (step T (dispatches m) d) h,
  )
  steps-Subscribed n ms (closes k ∷ ss) d h sub = ground (
    arith,
    append-nil ms,
    step-Subscribed n ms (closes k) d,
    steps-Subscribed n ms ss (step T (closes k) d),
  )

  below-retain :
      (m : T) (b : ℕ) (ks : List ℕ) (cs : ℕ → Channel T)
      → below b ks ≡ true
      → below b (retain T m ks cs).0 ≡ true
  unfolding retain
  below-retain m b [] cs h = refl
  below-retain m b (k ∷ ks) cs h = ground (arith, below-retain m b ks (send T m k cs).1)

  step-below :
      (s : Step T) (d : Dispatcher T)
      → below d.next d.senders ≡ true
      → below (step T s d).next (step T s d).senders ≡ true
  unfolding step register dispatch close_receiver
  step-below registers d h = below-push d.next d.senders h
  step-below (dispatches m) d h = below-retain m d.next d.senders d.channels h
  step-below (closes k) d h = h

  steps-below :
      (ss : List (Step T)) (d : Dispatcher T)
      → below d.next d.senders ≡ true
      → below (steps T ss d).next (steps T ss d).senders ≡ true
  unfolding steps
  steps-below [] d h = h
  steps-below (s ∷ ss) d h = steps-below ss (step T s d) (step-below s d h)

  -- A subscriber receives every message that is dispatched after it registers, each once and in
  -- order, and no earlier one, whatever other subscribers come and go, before it or after it.
  -- Assumed: it keeps its receiver.
  pub subscriber_hears_all :
      (earlier later : List (Step T))
      → let d = steps T earlier (new T) in
        stays d.next later ≡ true
        → ((steps T later (register T d)).channels d.next).received ≡ dispatched later
  unfolding new
  subscriber_hears_all earlier later h =
      let d = steps T earlier (new T) in
      let sub =
        steps-Subscribed d.next [] later (register T d) h
          (register-Subscribed d (steps-below earlier (new T) refl)) in
      ap (λ c. c.received) sub.1
