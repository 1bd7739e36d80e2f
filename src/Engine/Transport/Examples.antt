-- ===== src/Engine/Transport/Examples.antt =====
-- peer_transport.rs at a small peer connection that accepts everything and keeps what it is given.
use livekit_rust.Base.{
  ℕ, ◌≡◌, refl, ◌≢◌, Bool, true, false, List, [], ◌∷◌, ◌++◌, Option, none, some, arith, nat_eq,
  if◌then◌else◌,
}
use livekit_rust.Base.Outcome.{ok, err, hang, Call, ◌>>◌}
use livekit_rust.Engine.Transport.{
  PeerConnection, Transport, SignalingState, stable, have_local_offer, ice_connected,
  signaling_closed, default_offer_options, set_remote_description, create_and_send_offer,
  add_candidates,
}
use livekit_rust.Engine.Transport.Laws.{add_all, candidates_delivered}
use livekit_rust.Engine.Transport.Locking.{
  Returns, Back, operations_return, deferred_offer_deadlocks,
}

pub record Toy : Type 0 where
  pub state : SignalingState
  pub remote : Option ℕ
  pub candidates : List ℕ

-- Candidate 13 is malformed.
abbrev pub toy_add : ℕ → Call Toy Bool (Unit {0})
toy_add ic c =
    if nat_eq ic 13
    then (err true, c)
    else (ok tt, record c { candidates = c.candidates ++ ic ∷ [] })

abbrev pub toy : PeerConnection
toy = record {
  Conn = Toy;
  Description = ℕ;
  Candidate = ℕ;
  Error = Bool;
  ice_connection_state = λ c. ice_connected;
  signaling_state = λ c. c.state;
  current_remote_description = λ c. c.remote;
  add_candidate = toy_add;
  set_remote = λ d c. (ok tt, record c { remote = some d; state = stable });
  set_local = λ d c. (ok tt, record c { state = have_local_offer });
  create_offer = λ o c. (ok 7, c);
  make_answer = λ c. (ok 8, c);
  close_connection = λ c. record c { state = signaling_closed };
}

abbrev pub fresh : Toy
fresh = record { state = stable; remote = none; candidates = [] }

-- After one offer was sent.
abbrev pub offering : Transport toy
offering = record {
  peer_connection = record fresh { state = have_local_offer };
  on_offer_handler = true;
  offers = 7 ∷ [];
  pending_candidates = [];
  renegotiate = false;
  restarting_ice = false;
  locked = false;
}

candidates_delivered_example :
    (add_all toy (1 ∷ 2 ∷ []) >> set_remote_description toy 5) offering ≡ (
      ok tt,
      record offering {
        peer_connection = record { state = stable; remote = some 5; candidates = 1 ∷ 2 ∷ [] };
      },
    )
unfolding add_candidates
candidates_delivered_example =
    candidates_delivered toy offering (1 ∷ 2 ∷ []) 5 _ _ refl refl refl refl refl refl

toy_add_returns : (ic : ℕ) (c : Toy) → (toy_add ic c).0 ≢ hang
toy_add_returns ic c h = ground arith

toy_returns : Returns toy
toy_returns = record {
  add_candidate = toy_add_returns;
  set_remote = λ d pc h. cc;
  set_local = λ d pc h. cc;
  create_offer = λ o pc h. cc;
  make_answer = λ pc h. cc;
}

operations_return_example : Back toy (λ u. u.locked ≡ false) (set_remote_description toy 5 offering)
operations_return_example = (operations_return toy toy_returns offering refl refl).2 5

deferred_offer_deadlocks_example :
    ((create_and_send_offer toy default_offer_options >> set_remote_description toy 5) offering).0
    ≡ hang
unfolding add_candidates
deferred_offer_deadlocks_example =
    (deferred_offer_deadlocks toy offering default_offer_options 5 _ _ refl refl refl refl refl).0
