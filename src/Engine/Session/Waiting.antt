-- ===== src/Engine/Session/Waiting.antt =====
-- livekit/src/rtc_engine/rtc_session.rs: the two waits for a connection, which poll every 50 ms
-- until a timeout of 15 s, and the sending of data, which waits for the publisher.
-- `done i` and `closed i` are what round `i` reads: at 50 ms from one round to the next at least,
-- there are at most 300 rounds before the timeout.
use livekit_rust.Base.{
  ℕ, zero, suc, ◌<◌, ◌≡◌, ◌⊎◌, inl, inr, refl, Bool, true, false, String, arith, if◌then◌else◌,
  if_elim,
}
use livekit_rust.Base.Outcome.{Outcome, ok, err}
use livekit_rust.Engine.State.{EngineError, connection}

abbrev pub poll_rounds : ℕ
poll_rounds = 300

unfoldable pub poll : String → ℕ → (done closed : ℕ → Bool) → Outcome EngineError (Unit {0})
poll late zero done closed = err (connection late)
poll late (suc left) done closed =
    let rest = poll late left (λ i. done (suc i)) (λ i. closed (suc i)) in
    if done 0 then ok tt else if closed 0 then err (connection "closed") else rest

-- `connected i`: the round reads `PeerState::Connected`.
unfoldable pub wait_pc_connection : (connected closed : ℕ → Bool) → Outcome EngineError (Unit {0})
unfolding poll
wait_pc_connection connected closed =
    poll "wait_pc_connection timed out" poll_rounds connected closed

-- `open_now`: the data channel is open at once; `connected i`: the publisher is connected and the
-- data channel open.
unfoldable pub ensure_publisher_connected :
    (open_now : Bool) → (connected closed : ℕ → Bool) → Outcome EngineError (Unit {0})
unfolding poll
ensure_publisher_connected open_now connected closed =
    if open_now
    then ok tt
    else poll "could not establish publisher connection: timeout" poll_rounds connected closed

-- The rounds before this one read neither.
abbrev pub Idle : (done closed : ℕ → Bool) → ℕ → Type 0
Idle done closed k = (j : ℕ) → j < k → (done j ≡ false) × (closed j ≡ false)

-- How a wait of so many rounds ends.
abbrev pub Ends : String → ℕ → (done closed : ℕ → Bool) → Outcome EngineError (Unit {0}) → Type 0
Ends late rounds done closed r =
    ((k : ℕ) × (k < rounds) × (done k ≡ true) × Idle done closed k × (r ≡ ok tt))
    ⊎ ((k : ℕ) × (k < rounds)
        × (done k ≡ false)
        × (closed k ≡ true)
        × Idle done closed k
        × (r ≡ err (connection "closed")))
    ⊎ (Idle done closed rounds × (r ≡ err (connection late)))

Idle-suc :
    (done closed : ℕ → Bool) (k : ℕ)
    → done 0 ≡ false
    → closed 0 ≡ false
    → Idle (λ i. done (suc i)) (λ i. closed (suc i)) k
    → Idle done closed (suc k)
Idle-suc done closed k d c idle zero lt = (d, c)
Idle-suc done closed k d c idle (suc j) lt = idle j (omega arith)

Ends-suc :
    (late : String) (n : ℕ) (done closed : ℕ → Bool) (r : Outcome EngineError (Unit {0}))
    → done 0 ≡ false
    → closed 0 ≡ false
    → Ends late n (λ i. done (suc i)) (λ i. closed (suc i)) r
    → Ends late (suc n) done closed r
Ends-suc late n done closed r d c (inl (k, lt, read, idle, e)) =
    inl (suc k, omega arith, read, Idle-suc done closed k d c idle, e)
Ends-suc late n done closed r d c (inr (inl (k, lt, unread, shut, idle, e))) =
    inr (inl (suc k, omega arith, unread, shut, Idle-suc done closed k d c idle, e))
Ends-suc late n done closed r d c (inr (inr (idle, e))) =
    inr (inr (Idle-suc done closed n d c idle, e))

none_before : (done closed : ℕ → Bool) → Idle done closed 0
none_before done closed j lt = absurd (omega arith)

poll_lem :
    (late : String) (n : ℕ) (done closed : ℕ → Bool)
    → Ends late n done closed (poll late n done closed)
unfolding poll
poll_lem late zero done closed = inr (inr (none_before done closed, refl))
poll_lem late (suc n) done closed =
    if_elim (Ends late (suc n) done closed) (done 0)
      (λ d. inl (0, omega arith, d, none_before done closed, refl))
      (λ d.
        if_elim (Ends late (suc n) done closed) (closed 0)
          (λ c. inr (inl (0, omega arith, d, c, none_before done closed, refl)))
          (λ c.
            Ends-suc late n done closed _ d c
              (poll_lem late n (λ i. done (suc i)) (λ i. closed (suc i)))))

-- The wait for the connection ends in one of three ways, within 300 rounds of 50 ms: it succeeds in
-- the first round that reads the connected state, with no round before it that read the closed
-- flag; it fails in the first round that reads the closed flag and not the connected state, with no
-- connected state before it; or it times out, and no round read either.
pub wait_pc_connection_lem :
    (connected closed : ℕ → Bool)
    → Ends "wait_pc_connection timed out" 300 connected closed (wait_pc_connection connected closed)
unfolding wait_pc_connection
wait_pc_connection_lem connected closed =
    poll_lem "wait_pc_connection timed out" 300 connected closed
