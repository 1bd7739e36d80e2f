-- ===== src/Engine/Transport/Laws.antt =====
-- peer_transport.rs: where ICE candidates go, and in which order they reach the peer connection.
use livekit_rust.Base.{◌≡◌, false, List, [], ◌∷◌, ◌++◌, arith, is_some}
use livekit_rust.Base.Outcome.{ok, err, Call, ◌>>◌, pure}
use mathlib.Core.List.{append-nil, append_assoc}
use livekit_rust.Engine.Transport.{
  PeerConnection, Transport, add_ice_candidate, set_remote_description, add_candidates,
}

module _ (api : PeerConnection) where
  open api use {Conn, Description, Candidate, Error}

  -- The candidates of the signalling channel, one call each.
  pub add_all : List Candidate → Call (Transport api) Error (Unit {0})
  add_all [] = pure tt
  add_all (ic ∷ ics) = add_ice_candidate api ic >> add_all ics

  early_candidate_waits :
      (t : Transport api) (ic : Candidate)
      → t.locked ≡ false
      → is_some (api.current_remote_description t.peer_connection) ≡ false
      → add_ice_candidate api ic t
        ≡ (ok tt, record t { pending_candidates = t.pending_candidates ++ ic ∷ [] })
  unfolding add_ice_candidate
  early_candidate_waits t ic free early = ground arith

  add_all_pending :
      (ics : List Candidate) (t : Transport api)
      → t.locked ≡ false
      → is_some (api.current_remote_description t.peer_connection) ≡ false
      → add_all ics t ≡ (ok tt, record t { pending_candidates = t.pending_candidates ++ ics })
  unfolding add_all
  add_all_pending [] t free early = ground (arith, append-nil t.pending_candidates)
  add_all_pending (ic ∷ ics) t free early = rw (early_candidate_waits t ic free early) (
      rw (append_assoc t.pending_candidates (ic ∷ []) ics) at (
        add_all_pending ics (record t { pending_candidates = t.pending_candidates ++ ic ∷ [] }) free
          early))

  set_remote_description_drains :
      (t : Transport api) (d : Description) (pc1 pc2 : Conn)
      → t.locked ≡ false
      → t.renegotiate ≡ false
      → api.set_remote d t.peer_connection ≡ (ok tt, pc1)
      → add_candidates api t.pending_candidates pc1 ≡ (ok tt, pc2)
      → set_remote_description api d t ≡ (
        ok tt,
        record t { peer_connection = pc2; pending_candidates = []; restarting_ice = false },
      )
  unfolding set_remote_description
  set_remote_description_drains t d pc1 pc2 free calm installed delivered = ground arith

  -- Candidates that arrive before the remote description wait, and the description's arrival gives
  -- every one of them to the peer connection, in the order of arrival, none twice, and ends the
  -- restart of ICE. Assumed: a free mutex, nothing pending, no renegotiation wanted, and that the
  -- peer connection accepts the description and the candidates.
  pub candidates_delivered :
      (t : Transport api) (ics : List Candidate) (d : Description) (pc1 pc2 : Conn)
      → t.locked ≡ false
      → t.renegotiate ≡ false
      → t.pending_candidates ≡ []
      → is_some (api.current_remote_description t.peer_connection) ≡ false
      → api.set_remote d t.peer_connection ≡ (ok tt, pc1)
      → add_candidates api ics pc1 ≡ (ok tt, pc2)
      → (add_all ics >> set_remote_description api d) t
        ≡ (ok tt, record t { peer_connection = pc2; restarting_ice = false })
  candidates_delivered t ics d pc1 pc2 free calm empty early installed delivered =
      rw (add_all_pending ics t free early, empty)
        (set_remote_description_drains (record t { pending_candidates = ics }) d pc1 pc2 free calm
          installed delivered)

  -- A refused candidate ends the delivery with its error; the candidates behind it are gone, and
  -- the restart of ICE is not over.
  pub refused_candidate_drops_rest :
      (t : Transport api) (d : Description) (pc1 pc2 : Conn) (e : Error)
      → t.locked ≡ false
      → api.set_remote d t.peer_connection ≡ (ok tt, pc1)
      → add_candidates api t.pending_candidates pc1 ≡ (err e, pc2)
      → set_remote_description api d t
        ≡ (err e, record t { peer_connection = pc2; pending_candidates = [] })
  unfolding set_remote_description
  refused_candidate_drops_rest t d pc1 pc2 e free installed refused = ground arith
