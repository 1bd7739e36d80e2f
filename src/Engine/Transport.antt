-- ===== src/Engine/Transport.antt =====
-- livekit/src/rtc_engine/peer_transport.rs: a peer connection with its pending ICE candidates and
-- its renegotiation flag behind an async mutex.
-- The peer connection itself is libwebrtc's: the record `PeerConnection` stands for it.
mod Laws
pub mod Locking
pub mod Examples
use livekit_rust.Base.{
  ◌≡◌, Bool, true, false, ◌&&◌, not, List, [], ◌∷◌, ◌++◌, Option, none, some, if◌then◌else◌,
  is_some,
}
use livekit_rust.Base.Outcome.{
  Outcome, ok, err, panic, hang, Call, ◌>>=◌, ◌>>◌, pure, modify, continue,
}

pub data SignalingState : Type 0 where
  stable have_local_offer have_local_pr_answer have_remote_offer : SignalingState
  have_remote_pr_answer signaling_closed : SignalingState

pub data IceConnectionState : Type 0 where
  ice_new checking ice_connected completed failed disconnected ice_closed ice_max :
      IceConnectionState

pub record OfferOptions : Type 0 where
  pub ice_restart : Bool
  pub offer_to_receive_audio : Bool
  pub offer_to_receive_video : Bool

abbrev pub default_offer_options : OfferOptions
default_offer_options = record {
  ice_restart = false;
  offer_to_receive_audio = false;
  offer_to_receive_video = false;
}

-- What the transport calls of libwebrtc: each call may fail, and changes the connection's state.
pub record PeerConnection : Type 1 where
  pub Conn : Type 0
  pub Description : Type 0
  pub Candidate : Type 0
  pub Error : Type 0
  pub ice_connection_state : Conn → IceConnectionState
  pub signaling_state : Conn → SignalingState
  pub current_remote_description : Conn → Option Description
  pub add_candidate : Candidate → Call Conn Error (Unit {0})
  pub set_remote : Description → Call Conn Error (Unit {0})
  pub set_local : Description → Call Conn Error (Unit {0})
  pub create_offer : OfferOptions → Call Conn Error Description
  pub make_answer : Call Conn Error Description
  pub close_connection : Conn → Conn

module _ (api : PeerConnection) where
  open api use {Conn, Description, Candidate, Error}

  -- `offers` are the offers handed to the `on_offer` handler so far, latest last.
  pub record Transport : Type 0 where
    pub peer_connection : Conn
    pub on_offer_handler : Bool
    pub offers : List Description
    pub pending_candidates : List Candidate
    pub renegotiate : Bool
    pub restarting_ice : Bool
    pub locked : Bool

  pub new : Conn → Transport
  new pc = record {
    peer_connection = pc;
    on_offer_handler = false;
    offers = [];
    pending_candidates = [];
    renegotiate = false;
    restarting_ice = false;
    locked = false;
  }

  -- Set or clear the handler of new offers.
  pub on_offer : Bool → Transport → Transport
  on_offer handler t = record t { on_offer_handler = handler }

  pub close : Transport → Transport
  close t = record t { peer_connection = api.close_connection t.peer_connection }

  abbrev ice_is_connected : IceConnectionState → Bool
  ice_is_connected ice_connected = true
  ice_is_connected completed = true
  ice_is_connected _ = false

  pub is_connected : Transport → Bool
  is_connected t = ice_is_connected (api.ice_connection_state t.peer_connection)

  -- A call on the peer connection, from inside the transport.
  abbrev on_pc : {A : Type 0} → Call Conn Error A → Call Transport Error A
  on_pc m t = let (r, pc) = m t.peer_connection in (r, record t { peer_connection = pc })

  -- The guard is dropped when the body returns; a body that waits for ever keeps it.
  abbrev release : {A : Type 0} → Outcome Error A × Transport → Outcome Error A × Transport
  release (ok a, t) = (ok a, record t { locked = false })
  release (err e, t) = (err e, record t { locked = false })
  release (panic, t) = (panic, record t { locked = false })
  release (hang, t) = (hang, t)

  -- `let inner = self.inner.lock().await;` The mutex is not reentrant.
  abbrev with_lock : {A : Type 0} → Call Transport Error A → Call Transport Error A
  with_lock m t = elim t.locked [
    | true ↦ (hang, t)
    | false ↦ release (m (record t { locked = true }))
  ]

  pub add_ice_candidate : Candidate → Call Transport Error (Unit {0})
  add_ice_candidate ic = with_lock λ t.
      if is_some (api.current_remote_description t.peer_connection) && not t.restarting_ice
      then on_pc (api.add_candidate ic) t
      else (ok tt, record t { pending_candidates = t.pending_candidates ++ ic ∷ [] })

  -- The new offer, made, installed and handed to the handler.
  send_offer : OfferOptions → Call Transport Error (Unit {0})
  send_offer options t = continue (on_pc (api.create_offer options) t) λ offer t1.
      continue (on_pc (api.set_local offer) t1) λ _ t2.
        if t2.on_offer_handler
        then (ok tt, record t2 { offers = t2.offers ++ offer ∷ [] })
        else (ok tt, t2)

  -- The branch for an outstanding local offer.
  offer_outstanding : OfferOptions → Option Description → Call Transport Error (Unit {0})
  unfolding send_offer
  offer_outstanding options (some remote) t =
      if options.ice_restart
      then continue (on_pc (api.set_remote remote) t) (λ _. send_offer options)
      else (ok tt, record t { renegotiate = true })
  offer_outstanding options none t = (ok tt, record t { renegotiate = true })

  offer_in : SignalingState → OfferOptions → Call Transport Error (Unit {0})
  unfolding offer_outstanding
  offer_in have_local_offer options t =
      offer_outstanding options (api.current_remote_description t.peer_connection) t
  offer_in signaling_closed options t = (ok tt, t)
  offer_in _ options t = send_offer options t

  abbrev mark_restart : OfferOptions → Transport → Transport
  mark_restart options t = if options.ice_restart then record t { restarting_ice = true } else t

  pub create_and_send_offer : OfferOptions → Call Transport Error (Unit {0})
  unfolding offer_in
  create_and_send_offer options =
      with_lock
        λ t. offer_in (api.signaling_state t.peer_connection) options (mark_restart options t)

  -- `pending_candidates.drain(..)`: a failure drops the drained rest.
  unfoldable pub add_candidates : List Candidate → Call Conn Error (Unit {0})
  add_candidates [] = pure tt
  add_candidates (ic ∷ ics) = api.add_candidate ic >> add_candidates ics

  drain : Call Transport Error (Unit {0})
  unfolding add_candidates
  drain t = on_pc (add_candidates t.pending_candidates) (record t { pending_candidates = [] })

  -- `create_and_send_offer` is called with the guard still held.
  pub set_remote_description : Description → Call Transport Error (Unit {0})
  unfolding drain create_and_send_offer
  set_remote_description remote = with_lock λ t. continue (on_pc (api.set_remote remote) t) λ _ t1.
      continue (drain t1) λ _ t2.
        if t2.renegotiate
        then create_and_send_offer default_offer_options
            (record t2 { restarting_ice = false; renegotiate = false })
        else (ok tt, record t2 { restarting_ice = false })

  pub create_anwser : Description → Call Transport Error Description
  unfolding set_remote_description
  create_anwser offer t = continue (set_remote_description offer t) λ _ t1.
      continue (on_pc api.make_answer t1)
        λ answer t2. continue (on_pc (api.set_local answer) t2) λ _ t3. (ok answer, t3)
