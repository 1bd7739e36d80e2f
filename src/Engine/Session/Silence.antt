-- ===== src/Engine/Session/Silence.antt =====
-- livekit/src/rtc_engine/rtc_session.rs with peer_transport.rs: an answer that never gets through
-- holds the session's signalling task for ever.
use livekit_rust.Base.{◌≡◌, refl, true, false, List, ◌∷◌}
use livekit_rust.Base.Outcome.{ok, hang}
use livekit_rust.Signal.Message
use livekit_rust.Signal.Message.{SignalEvent, message}
use livekit_rust.Signal.Stream.{Socket}
use livekit_rust.Engine.State.{Payloads}
use livekit_rust.Engine.Transport.{
  PeerConnection, Transport, OfferOptions, have_local_offer, create_and_send_offer, add_candidates,
  set_remote_description,
}
use livekit_rust.Engine.Transport.Locking.{offer_deferred, set_remote_description_hangs}
use livekit_rust.Engine.Session.{
  Library, Session, on_publisher, on_signal, on_signal_event, signal_task,
}

module _ {p : Payloads} {api : PeerConnection} {Body : Type 0} (socket : Socket Body)
    (lib : Library p api Body) where
  open api use {Description, Candidate, Conn}

  -- The publisher negotiates while its earlier offer is unanswered, and then the answer comes.
  pub negotiate : OfferOptions → Session socket lib → Session socket lib
  negotiate o s = (on_publisher socket lib (create_and_send_offer api o) s).1

  answer_hangs :
      (b : Body) (d : Description) (s : Session socket lib) (t : Transport api)
      → lib.parse_description b ≡ ok d
      → set_remote_description api d s.publisher_pc ≡ (hang, t)
      → on_signal_event socket lib (Message.answered b) s ≡ (hang, record s { publisher_pc = t })
  unfolding on_signal_event on_publisher
  answer_hangs b d s t parse stuck = rw (parse, stuck) refl

  task_hangs :
      (e : SignalEvent Body) (events : List (SignalEvent Body)) (s u : Session socket lib)
      → on_signal socket lib e s ≡ (hang, u)
      → signal_task socket lib (e ∷ events) s ≡ (false, u)
  unfolding signal_task
  task_hangs e events s u stuck = rw stuck refl

  negotiate_deferred :
      (s : Session socket lib) (o : OfferOptions)
      → s.publisher_pc.locked ≡ false
      → api.signaling_state s.publisher_pc.peer_connection ≡ have_local_offer
      → o.ice_restart ≡ false
      → negotiate o s ≡ record s { publisher_pc = record s.publisher_pc { renegotiate = true } }
  unfolding negotiate on_publisher
  negotiate_deferred s o free busy plain =
      rw (offer_deferred api s.publisher_pc o free busy plain) refl

  -- Once the publisher negotiated again while its offer was unanswered, the server's answer silences
  -- the session: the signalling task ends there, and whatever the server sends afterwards, also the
  -- request to leave and the end of the signalling connection, changes nothing: no event is emitted,
  -- no signal sent, no pending track told, and the subscriber is left as it was. Assumed: the answer
  -- is parsed, libwebrtc accepts it and the pending candidates, and the publisher's mutex is free.
  pub deferred_offer_silences :
      (s : Session socket lib) (o : OfferOptions) (b : Body) (d : Description) (pc1 pc2 : Conn)
      (events : List (SignalEvent Body))
      → s.publisher_pc.locked ≡ false
      → api.signaling_state s.publisher_pc.peer_connection ≡ have_local_offer
      → o.ice_restart ≡ false
      → lib.parse_description b ≡ ok d
      → api.set_remote d s.publisher_pc.peer_connection ≡ (ok tt, pc1)
      → add_candidates api s.publisher_pc.pending_candidates pc1 ≡ (ok tt, pc2)
      → let (running, u) =
          signal_task socket lib (message (Message.answered b) ∷ events) (negotiate o s) in
        (running ≡ false)
        × (u.emitted ≡ s.emitted)
        × (u.signal_client ≡ s.signal_client)
        × (u.pending_tracks ≡ s.pending_tracks)
        × (u.subscriber_pc ≡ s.subscriber_pc)
  unfolding on_signal
  deferred_offer_silences s o b d pc1 pc2 events free busy plain parse installed delivered =
      let wanting = record s.publisher_pc { renegotiate = true } in
      let stuck =
        set_remote_description_hangs api wanting d pc1 pc2 free refl installed delivered in
      rw
        (
          negotiate_deferred s o free busy plain,
          task_hangs (message (Message.answered b)) events (record s { publisher_pc = wanting }) _
              (answer_hangs b d (record s { publisher_pc = wanting }) _ parse stuck),
        )
        (refl, refl, refl, refl, refl)
