-- ===== src/Engine/Negotiation/Laws.antt =====
-- rtc_session.rs: which requests the publisher's offers cover.
use livekit_rust.Base.{
  ℕ, zero, suc, ◌≤◌, ◌<◌, ◌≡◌, ◌≢◌, refl, List, [], ◌∷◌, Option, none, some, arith, All, IfSome,
  subst, Option-cases, inl, inr,
}
use livekit_rust.Debouncer.{
  Debouncer, Phase, waiting, executing, finished, debounce, call, call_in, debounce_task, task_step,
  receive,
}
use livekit_rust.Engine.Negotiation.{
  Negotiation, NegotiationStep, requests, sleeps, receives, starts, creates, ends, fails, defers,
  finds_closed, publisher_negotiation_needed, negotiation_step, negotiate, on_task,
}

-- Every request is covered, or an offer that will cover the rest is still to be made or sent.
abbrev Lost : Phase → Option ℕ → Negotiation → Type 0
Lost executing (some k) n = (k < n.requested) × (n.covered < n.requested)
Lost finished _ n = n.covered < n.requested
Lost _ _ n = ⊥

abbrev LostIn : Option Debouncer → Negotiation → Type 0
LostIn none n = ⊥
LostIn (some x) n = Lost x.phase n.made n

Lost-step :
    (f : ℕ) (s : NegotiationStep) (p : Phase) (k : Option ℕ) (x : Debouncer) (n : Negotiation)
    → s ≢ requests
    → n.debouncer ≡ some x
    → x.phase ≡ p
    → n.made ≡ k
    → Lost p k n
    → IfSome (λ m. LostIn m.debouncer m) (negotiation_step f s n)
unfolding negotiation_step on_task debounce_task task_step
Lost-step f requests p k x n ne d e mk l = absurd (ne refl)
Lost-step f s (waiting left) k x n ne d e mk l = elim l [ ]
Lost-step f s executing none x n ne d e mk l = elim l [ ]
Lost-step f ends executing (some k) x n ne d e mk l = rw (mk, d, e) l.0
Lost-step f fails executing (some k) x n ne d e mk l = rw (d, e) l.1
Lost-step f creates executing (some k) x n ne d e mk l = rw (d, e, mk) tt
Lost-step f defers executing (some k) x n ne d e mk l = rw mk tt
Lost-step f finds_closed executing (some k) x n ne d e mk l = rw mk tt
Lost-step f s executing (some k) x n ne d e mk l = rw (d, e) tt
Lost-step f ends finished none x n ne d e mk l = rw mk tt
Lost-step f ends finished (some k) x n ne d e mk l = rw (mk, d, e) tt
Lost-step f defers finished none x n ne d e mk l = rw (mk, d, e) tt
Lost-step f defers finished (some k) x n ne d e mk l = rw mk tt
Lost-step f finds_closed finished none x n ne d e mk l = rw (mk, d, e) tt
Lost-step f finds_closed finished (some k) x n ne d e mk l = rw mk tt
Lost-step f s finished k x n ne d e mk l = rw (d, e) tt

-- The steps other than another request, an error, and an end without an offer.
abbrev pub Offering : NegotiationStep → Type 0
Offering requests = ⊥
Offering fails = ⊥
Offering defers = ⊥
Offering finds_closed = ⊥
Offering _ = Unit

abbrev Due : Phase → Option ℕ → Negotiation → Type 0
Due executing (some k) n = k ≡ n.requested
Due finished _ n = n.covered ≡ n.requested
Due _ _ n = Unit

abbrev DueIn : Option Debouncer → Negotiation → Type 0
DueIn none n = ⊥
DueIn (some x) n = Due x.phase n.made n

receive-Due :
    (f calls : ℕ) (x : Debouncer) (n : Negotiation)
    → IfSome
        (λ m. DueIn m.debouncer m)
        (elim (receive f calls x) [ none ↦ none | some y ↦ some (record n { debouncer = some y }) ])
unfolding receive
receive-Due f zero x n = tt
receive-Due f (suc calls) x n = tt

Due-step :
    (f : ℕ) (s : NegotiationStep) (p : Phase) (k : Option ℕ) (x : Debouncer) (n : Negotiation)
    → Offering s
    → n.debouncer ≡ some x
    → x.phase ≡ p
    → n.made ≡ k
    → Due p k n
    → IfSome (λ m. DueIn m.debouncer m) (negotiation_step f s n)
unfolding negotiation_step on_task debounce_task task_step
Due-step f requests p k x n q d e mk l = elim q [ ]
Due-step f fails p k x n q d e mk l = elim q [ ]
Due-step f defers p k x n q d e mk l = elim q [ ]
Due-step f finds_closed p k x n q d e mk l = elim q [ ]
Due-step f ends p none x n q d e mk l = rw mk tt
Due-step f ends executing (some k) x n q d e mk l = rw (mk, d, e) l
Due-step f ends (waiting left) (some k) x n q d e mk l = rw (mk, d, e) tt
Due-step f ends finished (some k) x n q d e mk l = rw (mk, d, e) tt
Due-step f creates executing none x n q d e mk l = rw (d, e, mk) refl
Due-step f creates executing (some k) x n q d e mk l = rw (d, e, mk) tt
Due-step f creates p k x n q d e mk l = rw (d, e) tt
Due-step f sleeps (waiting zero) k x n q d e mk l = rw (d, e) tt
Due-step f sleeps (waiting (suc left)) k x n q d e mk l = rw (d, e) tt
Due-step f sleeps p k x n q d e mk l = rw (d, e) tt
Due-step f starts (waiting zero) k x n q d e mk l = rw (d, e) tt
Due-step f starts (waiting (suc left)) k x n q d e mk l = rw (d, e) tt
Due-step f starts p k x n q d e mk l = rw (d, e) tt
Due-step f receives (waiting left) k x n q d e mk l =
    rw (d, e)
      (receive-Due f x.calls (record x { phase = waiting left })
        (record n { debouncer = some (record x { phase = waiting left }) }))
Due-step f receives p k x n q d e mk l = rw (d, e) tt

-- What every step but some keeps, a run without those keeps.
negotiate_inv :
    (P : Negotiation → Type 0) (Q : NegotiationStep → Type 0) (f : ℕ)
    → ((s : NegotiationStep) (n : Negotiation) → Q s → P n → IfSome P (negotiation_step f s n))
    → (ss : List NegotiationStep) (n u : Negotiation) → All Q ss
    → P n
    → negotiate f ss n ≡ some u
    → P u
unfolding negotiate
negotiate_inv P Q f keep [] n u q h e = subst P (cc) h
negotiate_inv P Q f keep (s ∷ ss) n u q h e = elim (Option-cases (negotiation_step f s n)) [
  | inl none_next ↦ absurd (let k : none ≡ some u = rw (negotiate, none_next) at e in cc)
  | inr (m, next) ↦
      negotiate_inv P Q f keep ss m u q.1 (let k = keep s n q.0 h in rw next at k)
        (rw (negotiate, next) at e)
]

Lost-next :
    (f : ℕ) (s : NegotiationStep) (n : Negotiation) (o : Option Debouncer)
    → s ≢ requests
    → n.debouncer ≡ o
    → LostIn o n
    → IfSome (λ m. LostIn m.debouncer m) (negotiation_step f s n)
Lost-next f s n none ne d l = elim l [ ]
Lost-next f s n (some x) ne d l = Lost-step f s x.phase n.made x n ne d refl refl l

Due-next :
    (f : ℕ) (s : NegotiationStep) (n : Negotiation) (o : Option Debouncer)
    → Offering s
    → n.debouncer ≡ o
    → DueIn o n
    → IfSome (λ m. DueIn m.debouncer m) (negotiation_step f s n)
Due-next f s n none q d l = elim l [ ]
Due-next f s n (some x) q d l = Due-step f s x.phase n.made x n q d refl refl l

called-Due :
    (f : ℕ) (p : Phase) (x : Debouncer) (n : Negotiation)
    → n.debouncer ≡ some x
    → x.phase ≡ p
    → n.made ≡ none
    → let m = publisher_negotiation_needed f n in DueIn m.debouncer m
unfolding publisher_negotiation_needed call call_in debounce
called-Due f (waiting left) x n d e mk = rw (d, e) tt
called-Due f executing x n d e mk = rw (d, e, mk) tt
called-Due f finished x n d e mk = rw (d, e) tt

requested-Due :
    (f : ℕ) (o : Option Debouncer) (n : Negotiation)
    → n.debouncer ≡ o
    → n.made ≡ none
    → let m = publisher_negotiation_needed f n in DueIn m.debouncer m
unfolding publisher_negotiation_needed debounce
requested-Due f none n d mk = rw d tt
requested-Due f (some x) n d mk = called-Due f x.phase x n d refl mk

late-Lost :
    (f k : ℕ) (n : Negotiation) (x : Debouncer)
    → n.debouncer ≡ some x
    → x.phase ≡ executing
    → n.made ≡ some k
    → k ≤ n.requested
    → n.covered ≤ n.requested
    → let m = publisher_negotiation_needed f n in (m.debouncer ≡ call x) × LostIn m.debouncer m
unfolding publisher_negotiation_needed call call_in
late-Lost f k n x d e mk created sent = rw (d, e, mk) (refl, (ground arith, ground arith))

-- A request is served by an offer: with none under way that was already created, once the debouncer's
-- task has ended after the request, whatever the order of its steps, the latest offer sent was
-- created after this request and every earlier one. Assumed: no other request is made, no error
-- comes in creating or sending the offer, and the future finds the connection neither closed nor
-- waiting for the answer to an earlier offer.
pub request_served :
    (f : ℕ) (ss : List NegotiationStep) (n u : Negotiation) (y : Debouncer)
    → n.made ≡ none
    → All Offering ss
    → negotiate f ss (publisher_negotiation_needed f n) ≡ some u
    → u.debouncer ≡ some y
    → y.phase ≡ finished
    → u.covered ≡ u.requested
request_served f ss n u y mk quiet run d e =
    let due =
      negotiate_inv (λ m. DueIn m.debouncer m) Offering f
        (λ s m q. Due-next f s m m.debouncer q refl) ss (publisher_negotiation_needed f n) u quiet
        (requested-Due f n.debouncer n refl mk) run in
    rw (d, e) at due

Lost-behind : (o : Option Debouncer) (u : Negotiation) → LostIn o u → u.covered < u.requested
Lost-behind none u l = elim l [ ]
Lost-behind (some x) u l = behind x.phase u.made u l
  where
    behind : (p : Phase) (k : Option ℕ) (u : Negotiation) → Lost p k u → u.covered < u.requested
    behind executing (some k) u l = l.1
    behind finished k u l = l
    behind (waiting left) k u l = elim l [ ]
    behind executing none u l = elim l [ ]

-- A request that comes while the future runs and has created its offer is accepted and lost: the
-- debouncer takes the call and is not replaced, and whatever its task does from then on, until
-- somebody requests another negotiation, no offer that is sent covers the request.
pub late_request_lost :
    (f k : ℕ) (ss : List NegotiationStep) (n u : Negotiation) (x : Debouncer)
    → n.debouncer ≡ some x
    → x.phase ≡ executing
    → n.made ≡ some k
    → k ≤ n.requested
    → n.covered ≤ n.requested
    → All (λ s. s ≢ requests) ss
    → negotiate f ss (publisher_negotiation_needed f n) ≡ some u
    → ((publisher_negotiation_needed f n).debouncer ≡ call x) × (u.covered < u.requested)
late_request_lost f k ss n u x d e mk created sent quiet run =
    let (taken, lost) = late-Lost f k n x d e mk created sent in
    let kept =
      negotiate_inv (λ m. LostIn m.debouncer m) (λ s. s ≢ requests) f
        (λ s m q. Lost-next f s m m.debouncer q refl) ss (publisher_negotiation_needed f n) u quiet
        lost run in
    (taken, Lost-behind u.debouncer u kept)
