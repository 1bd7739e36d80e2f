-- ===== src/Base/Outcome.antt =====
-- What a call of an `async fn` over a state may come to: a value, an error, a panic
-- (`unwrap`, `unreachable!`), or a wait that nothing ends.

pub data Outcome {ℓ} (E A : Type ℓ) : Type ℓ where
  ok : A → Outcome E A
  err : E → Outcome E A
  panic : Outcome E A
  hang : Outcome E A

-- A call that reads and writes a state.
abbrev pub Call {ℓ} : Type ℓ → Type ℓ → Type ℓ → Type ℓ
Call S E A = S → Outcome E A × S

abbrev pub continue {ℓ} : {S E A B : Type ℓ} → Outcome E A × S → (A → Call S E B) → Outcome E B × S
continue (ok a, s) f = f a s
continue (err e, s) f = (err e, s)
continue (panic, s) f = (panic, s)
continue (hang, s) f = (hang, s)

-- `m().await?` followed by the rest.
infixl 10 ◌>>=◌ ◌>>◌
abbrev pub ◌>>=◌ {ℓ} : {S E A B : Type ℓ} → Call S E A → (A → Call S E B) → Call S E B
◌>>=◌ m f s = continue (m s) f

abbrev pub ◌>>◌ {ℓ} : {S E B : Type ℓ} {A : Type ℓ} → Call S E A → Call S E B → Call S E B
◌>>◌ m n s = continue (m s) (λ _. n)

abbrev pub pure {ℓ} : {S E A : Type ℓ} → A → Call S E A
pure a s = (ok a, s)

abbrev pub throw {ℓ} : {S E A : Type ℓ} → E → Call S E A
throw e s = (err e, s)

-- A write to the state.
abbrev pub modify {ℓ} : {S E : Type ℓ} → (S → S) → Call S E (Unit {ℓ})
modify f s = (ok tt, f s)
