-- ===== src/Engine/Transport/Locking.antt =====
-- peer_transport.rs: the async mutex of the transport.
use livekit_rust.Base.{
  ◌≡◌, refl, Bool, true, false, List, [], ◌∷◌, Option, none, some, arith, ◌≢◌, Option-cases,
  if◌then◌else◌,
}
use livekit_rust.Base.Outcome.{Outcome, ok, err, panic, hang, Call, ◌>>◌, continue}
use livekit_rust.Engine.Transport.{
  PeerConnection, Transport, OfferOptions, add_ice_candidate, set_remote_description, on_pc,
  release, offer_outstanding, send_offer, offer_in, SignalingState, drain, create_and_send_offer,
  add_candidates, have_local_offer, signaling_closed,
}

module _ (api : PeerConnection) where
  open api use {Conn, Description, Candidate, Error}

  -- An offer that is asked for while an earlier one is unanswered, other than for an ICE restart, is
  -- only noted: the call succeeds, nothing is sent, and the flag `renegotiate` is set.
  pub offer_deferred :
      (t : Transport api) (o : OfferOptions)
      → t.locked ≡ false
      → api.signaling_state t.peer_connection ≡ have_local_offer
      → o.ice_restart ≡ false
      → create_and_send_offer api o t ≡ (ok tt, record t { renegotiate = true })
  unfolding create_and_send_offer
  offer_deferred t o free busy plain =
      ground (arith, Option-cases (api.current_remote_description t.peer_connection))

  pub set_remote_description_hangs :
      (t : Transport api) (d : Description) (pc1 pc2 : Conn)
      → t.locked ≡ false
      → t.renegotiate ≡ true
      → api.set_remote d t.peer_connection ≡ (ok tt, pc1)
      → add_candidates api t.pending_candidates pc1 ≡ (ok tt, pc2)
      → set_remote_description api d t ≡ (
        hang,
        record t {
          peer_connection = pc2;
          pending_candidates = [];
          renegotiate = false;
          restarting_ice = false;
          locked = true;
        },
      )
  unfolding set_remote_description
  set_remote_description_hangs t d pc1 pc2 free wanted installed delivered = ground arith

  -- Once an offer was deferred, the answer to the earlier offer never gets through: with the answer
  -- and the pending candidates accepted by the peer connection, `set_remote_description` waits for
  -- ever for the mutex that it holds itself, sends no offer, and every later candidate, offer or
  -- description waits for ever too. Assumed: a free mutex, and an outstanding local offer.
  pub deferred_offer_deadlocks :
      (t : Transport api) (o : OfferOptions) (d : Description) (pc1 pc2 : Conn)
      → t.locked ≡ false
      → api.signaling_state t.peer_connection ≡ have_local_offer
      → o.ice_restart ≡ false
      → api.set_remote d t.peer_connection ≡ (ok tt, pc1)
      → add_candidates api t.pending_candidates pc1 ≡ (ok tt, pc2)
      → let (r, u) = (create_and_send_offer api o >> set_remote_description api d) t in
        (r ≡ hang)
        × (u.offers ≡ t.offers)
        × ((ic : Candidate) → add_ice_candidate api ic u ≡ (hang, u))
        × ((p : OfferOptions) → create_and_send_offer api p u ≡ (hang, u))
        × ((e : Description) → set_remote_description api e u ≡ (hang, u))
  deferred_offer_deadlocks t o d pc1 pc2 free busy plain installed delivered =
      rw
        (
          offer_deferred t o free busy plain,
          set_remote_description_hangs (record t { renegotiate = true }) d pc1 pc2 free refl
              installed delivered,
        )
        (
          refl,
          refl,
          (λ ic. unfold add_ice_candidate in refl),
          (λ p. unfold create_and_send_offer in refl),
          (λ e. unfold set_remote_description in refl),
        )

  -- The parts of libwebrtc that the transport calls return.
  pub record Returns : Type 0 where
    pub add_candidate : (ic : Candidate) (pc : Conn) → (api.add_candidate ic pc).0 ≢ hang
    pub set_remote : (d : Description) (pc : Conn) → (api.set_remote d pc).0 ≢ hang
    pub set_local : (d : Description) (pc : Conn) → (api.set_local d pc).0 ≢ hang
    pub create_offer : (o : OfferOptions) (pc : Conn) → (api.create_offer o pc).0 ≢ hang
    pub make_answer : (pc : Conn) → (api.make_answer pc).0 ≢ hang

  -- A call came back, and its state satisfies `P`.
  abbrev pub Back :
      {A : Type 0} → (Transport api → Type 0) → Outcome Error A × Transport api → Type 0
  Back P r = (r.0 ≢ hang) × P r.1

  Back-continue :
      {A B : Type 0} {P Q : Transport api → Type 0} (r : Outcome Error A × Transport api)
      (f : A → Call (Transport api) Error B)
      → ((t : Transport api) → P t → Q t)
      → ((a : A) (t : Transport api) → P t → Back Q (f a t))
      → Back P r
      → Back Q (continue r f)
  Back-continue (ok a, t) f weaken next b = next a t b.1
  Back-continue (err e, t) f weaken next b = (λ h. cc, weaken t b.1)
  Back-continue (panic, t) f weaken next b = (λ h. cc, weaken t b.1)
  Back-continue (hang, t) f weaken next b = absurd (b.0 refl)

  add_ice_candidate-Back :
      (ret : Returns) (t : Transport api) (ic : Candidate)
      → t.locked ≡ false
      → Back (λ u. u.locked ≡ false) (add_ice_candidate api ic t)
  unfolding add_ice_candidate
  add_ice_candidate-Back ret t ic free = ground (arith, ret.add_candidate ic t.peer_connection)

  Back-if :
      {A : Type 0} (P : Transport api → Type 0) (b : Bool) (x y : Outcome Error A × Transport api)
      → Back P x
      → Back P y
      → Back P (if b then x else y)
  Back-if P true x y p q = p
  Back-if P false x y p q = q

  -- With the mutex held; and, if `calm`, with no renegotiation wanted.
  abbrev Held : Bool → Transport api → Type 0
  Held calm t = (t.locked ≡ true) × (calm ≡ true → t.renegotiate ≡ false)

  Back-on_pc :
      {A : Type 0} (calm : Bool) (m : Call Conn Error A) (t : Transport api)
      → ((pc : Conn) → (m pc).0 ≢ hang)
      → Held calm t
      → Back (Held calm) (on_pc api m t)
  Back-on_pc calm m t returns h = (returns t.peer_connection, h)

  send_offer-Back :
      (ret : Returns) (o : OfferOptions) (t : Transport api)
      → Held false t
      → Back (Held false) (send_offer api o t)
  unfolding send_offer
  send_offer-Back ret o t h =
      Back-continue {P = Held false} _ _ (λ u k. k)
        (λ offer u k.
          Back-continue {P = Held false} _ _ (λ v l. l) (λ _ v l. ground arith)
            (Back-on_pc false (api.set_local offer) u (ret.set_local offer) k))
        (Back-on_pc false (api.create_offer o) t (ret.create_offer o) h)

  offer_outstanding-Back :
      (ret : Returns) (o : OfferOptions) (remote : Option Description) (t : Transport api)
      → Held false t
      → Back (Held false) (offer_outstanding api o remote t)
  unfolding offer_outstanding
  offer_outstanding-Back ret o none t h = ground arith
  offer_outstanding-Back ret o (some d) t h =
      Back-if (Held false) o.ice_restart _ _
        (Back-continue {P = Held false} _ _ (λ u k. k) (λ _ u k. send_offer-Back ret o u k)
          (Back-on_pc false (api.set_remote d) t (ret.set_remote d) h))
        (ground arith)

  offer_in-Back :
      (ret : Returns) (s : SignalingState) (o : OfferOptions) (t : Transport api)
      → Held false t
      → Back (Held false) (offer_in api s o t)
  unfolding offer_in
  offer_in-Back ret have_local_offer o t h = offer_outstanding-Back ret o _ t h
  offer_in-Back ret signaling_closed o t h = ground arith
  offer_in-Back ret _ o t h = send_offer-Back ret o t h

  add_candidates-returns :
      (ret : Returns) (ics : List Candidate) (pc : Conn) → (add_candidates api ics pc).0 ≢ hang
  unfolding add_candidates
  add_candidates-returns ret [] pc = λ h. cc
  add_candidates-returns ret (ic ∷ ics) pc =
      ground
        (arith, ret.add_candidate ic pc, add_candidates-returns ret ics (api.add_candidate ic pc).1)

  -- The guard is dropped with any answer.
  release-free :
      {A : Type 0} {calm : Bool} (r : Outcome Error A × Transport api)
      → Back (Held calm) r
      → Back (λ t. t.locked ≡ false) (release api r)
  release-free (ok a, t) b = ((λ h. cc), refl)
  release-free (err e, t) b = ((λ h. cc), refl)
  release-free (panic, t) b = ((λ h. cc), refl)
  release-free (hang, t) b = absurd (b.0 refl)

  create_and_send_offer-Back :
      (ret : Returns) (o : OfferOptions) (t : Transport api)
      → t.locked ≡ false
      → Back (λ u. u.locked ≡ false) (create_and_send_offer api o t)
  unfolding create_and_send_offer
  create_and_send_offer-Back ret o t free =
      rw free (release-free {calm = false} _ (offer_in-Back ret _ o _ (ground arith)))

  set_remote_description-Back :
      (ret : Returns) (d : Description) (t : Transport api)
      → t.locked ≡ false
      → t.renegotiate ≡ false
      → Back (λ u. u.locked ≡ false) (set_remote_description api d t)
  unfolding set_remote_description drain
  set_remote_description-Back ret d t free calm = rw free (
      release-free {calm = true} _ (
        Back-continue {P = Held true} _ _ (λ u k. k)
          (λ _ u k.
            Back-continue {P = Held true} _ _ (λ v l. l) (λ _ v l. ground arith)
              (Back-on_pc true (add_candidates api u.pending_candidates)
                (record u { pending_candidates = [] })
                (add_candidates-returns ret u.pending_candidates) k))
          (Back-on_pc true (api.set_remote d) (record t { locked = true }) (ret.set_remote d)
            (refl, λ _. calm))))

  -- From a free mutex, with no renegotiation wanted, every operation comes back, with a value, an
  -- error or a panic, and leaves the mutex free: a new candidate, a new offer, and a remote
  -- description. Assumed: the calls of the peer connection come back.
  pub operations_return :
      (ret : Returns) (t : Transport api)
      → t.locked ≡ false
      → t.renegotiate ≡ false
      → ((ic : Candidate) → Back (λ u. u.locked ≡ false) (add_ice_candidate api ic t))
        × ((o : OfferOptions) → Back (λ u. u.locked ≡ false) (create_and_send_offer api o t))
        × ((d : Description) → Back (λ u. u.locked ≡ false) (set_remote_description api d t))
  operations_return ret t free calm = (
    (λ ic. add_ice_candidate-Back ret t ic free),
    (λ o. create_and_send_offer-Back ret o t free),
    (λ d. set_remote_description-Back ret d t free calm),
  )
