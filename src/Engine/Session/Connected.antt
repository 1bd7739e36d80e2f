-- ===== src/Engine/Session/Connected.antt =====
-- livekit/src/rtc_engine/rtc_session.rs: how often a session says that it is connected.
use livekit_rust.Base.{
  ℕ, ◌+◌, ◌≤◌, ◌≡◌, refl, true, false, List, [], ◌∷◌, ◌++◌, Option, some, none, String, arith, ◌⊎◌,
  inl, inr, if_elim,
}
use livekit_rust.Base.Outcome.{Outcome, ok, err, panic, hang, Call, ◌>>=◌, continue, modify}
use livekit_rust.Proto.{DataPacketKind}
use livekit_rust.Signal.Message
use livekit_rust.Signal.Message.{Request, Response, SignalError, SignalEvent}
use livekit_rust.Signal.Stream.{Socket}
use livekit_rust.Engine.State.{
  Payloads, SessionEvent, session_connected, session_close, EngineError, internal, unknown_reason,
}
use livekit_rust.Engine.Transport.{
  PeerConnection, Transport, create_anwser, create_and_send_offer, default_offer_options,
}
use livekit_rust.Engine.PendingTracks.{Tracks, register}
use livekit_rust.Engine.Session.{
  Library, Session, PeerState, peer_new, PeerConnectionState, pc_connected, pc_failed, Target,
  publisher, subscriber, RtcEvent, ice_candidate, connection_change, data_channel, offer, track,
  data_message, on_signal_event, on_signal, on_rtc_event, emit, send_signal, on_publisher,
  on_subscriber, on_tracks, parsed, on_session_disconnected, add_track, remove_track, close,
  begin_restart, mark_restarted, DataPacket, PacketValue, connected_from, on_connection_change,
  on_failure, on_packet, from_user, add_remote_candidate, restart_signal, configure, restart_offer,
  user, speaker,
}

module _ {p : Payloads} {api : PeerConnection} {Body : Type 0} (socket : Socket Body)
    (lib : Library p api Body) where
  abbrev S : Type 0
  S = Session socket lib

  abbrev connection_of : SessionEvent p → ℕ
  connection_of session_connected = 1
  connection_of _ = 0

  -- How often the session said that it is connected.
  unfoldable pub connections : List (SessionEvent p) → ℕ
  connections [] = 0
  connections (e ∷ es) = connection_of e + connections es

  connections-append :
      (es : List (SessionEvent p)) (e : SessionEvent p)
      → connections (es ++ e ∷ []) ≡ connections es + connection_of e
  unfolding connections
  connections-append [] e = omega arith
  connections-append (d ∷ es) e = omega (arith, connections-append es e)

  abbrev unconnected : PeerState → ℕ
  unconnected peer_new = 1
  unconnected _ = 0

  -- With the announcement that a new session is still to make.
  weight : S → ℕ
  weight s = connections s.emitted + unconnected s.pc_state

  -- The call adds nothing to the weight.
  record Kept {A : Type 0} (m : Call S EngineError A) : Type 0 where
    at : (s : S) → weight (m s).1 ≤ weight s

  Kept-bind :
      {A B : Type 0} (m : Call S EngineError A) (f : A → Call S EngineError B)
      → Kept m
      → ((a : A) → Kept (f a))
      → Kept (m >>= f)
  Kept-bind m f k l = record { at = λ s. go s (m s) (k.at s) }
    where
      go :
          (s : S) (r : Outcome EngineError _ × S)
          → weight r.1 ≤ weight s
          → weight (continue r f).1 ≤ weight s
      go s (ok a, u) le = omega (arith, (l a).at u, le)
      go s (err e, u) le = le
      go s (panic, u) le = le
      go s (hang, u) le = le

  -- What touches neither the events nor the state of the peer connection.
  Kept-same :
      {A : Type 0} (m : Call S EngineError A)
      → ((s : S) → (m s).1.emitted ≡ s.emitted)
      → ((s : S) → (m s).1.pc_state ≡ s.pc_state)
      → Kept m
  unfolding weight
  Kept-same m e q = record { at = λ s. rw (e s, q s) (omega arith) }

  Kept-emit : (e : SessionEvent p) → connection_of e ≡ 0 → Kept (modify (emit socket lib e))
  unfolding weight emit
  Kept-emit e quiet = record { at = λ s. omega (arith, connections-append s.emitted e, quiet) }

  Kept-still : {A : Type 0} (r : Outcome EngineError A) → Kept (λ (s : S). (r, s))
  Kept-still r = record { at = λ s. omega arith }

  Kept-parsed : {A : Type 0} (r : Outcome EngineError A) → Kept (parsed socket lib r)
  Kept-parsed r = Kept-still r

  Kept-publisher :
      {A : Type 0} (m : Call (Transport api) api.Error A) → Kept (on_publisher socket lib m)
  unfolding on_publisher
  Kept-publisher m = Kept-same _ (λ s. refl) (λ s. refl)

  Kept-subscriber :
      {A : Type 0} (m : Call (Transport api) api.Error A) → Kept (on_subscriber socket lib m)
  unfolding on_subscriber
  Kept-subscriber m = Kept-same _ (λ s. refl) (λ s. refl)

  Kept-tracks :
      {A : Type 0} (m : Call (Tracks lib.TrackInfo) EngineError A) → Kept (on_tracks socket lib m)
  unfolding on_tracks
  Kept-tracks m = Kept-same _ (λ s. refl) (λ s. refl)

  Kept-signal : (m : Request Body) → Kept (modify (send_signal socket lib m))
  unfolding send_signal
  Kept-signal m = Kept-same _ (λ s. refl) (λ s. refl)

  Kept-candidate : (t : Target) (ic : api.Candidate) → Kept (add_remote_candidate socket lib t ic)
  unfolding add_remote_candidate
  Kept-candidate publisher ic = Kept-publisher _
  Kept-candidate subscriber ic = Kept-subscriber _

  on_signal_event-Kept : (m : Response Body) → Kept (on_signal_event socket lib m)
  unfolding on_signal_event on_session_disconnected
  on_signal_event-Kept (Message.answered b) =
      Kept-bind _ _ (Kept-parsed (lib.parse_description b)) (λ d. Kept-publisher _)
  on_signal_event-Kept (Message.offered b) =
      Kept-bind _ _ (Kept-parsed (lib.parse_description b)) (λ d.
        Kept-bind _ _ (Kept-subscriber (create_anwser api d))
          (λ a. Kept-signal (Request.answer (lib.answer_body a))))
  on_signal_event-Kept (Message.trickled b) =
      Kept-bind _ _ (Kept-parsed (lib.parse_candidate b)) (Kept-candidate (lib.trickle_target b))
  on_signal_event-Kept (Message.left b) = Kept-emit _ refl
  on_signal_event-Kept (Message.update b) = Kept-emit _ refl
  on_signal_event-Kept (Message.speakers_changed b) = Kept-emit _ refl
  on_signal_event-Kept (Message.connection_quality b) = Kept-emit _ refl
  on_signal_event-Kept (Message.track_published b) = Kept-tracks _
  on_signal_event-Kept m = Kept-still (ok tt)

  on_signal-Kept : (e : SignalEvent Body) → Kept (on_signal socket lib e)
  unfolding on_signal on_session_disconnected
  on_signal-Kept (Message.message m) = on_signal_event-Kept m
  on_signal-Kept Message.close = Kept-emit _ refl

  connected_from-weight :
      (q : PeerState) (s : S) → s.pc_state ≡ q → weight (connected_from socket lib q s) ≤ weight s
  unfolding connected_from emit weight
  connected_from-weight peer_new s e =
      rw e (omega (arith, connections-append s.emitted session_connected))
  connected_from-weight _ s e = omega arith

  change-weight :
      (c : PeerConnectionState) (t : Target) (s : S)
      → weight (on_connection_change socket lib c t s) ≤ weight s
  unfolding on_connection_change on_failure on_session_disconnected emit weight
  change-weight pc_connected subscriber s = connected_from-weight s.pc_state s refl
  change-weight pc_failed t s = omega (
    arith,
    connections-append s.emitted (session_close "pc_state failed" unknown_reason true false false),
  )
  change-weight _ t s = omega arith

  from_user-Kept :
      (k : DataPacketKind) (o : String ⊎ String) (bytes : List ℕ)
      → Kept (from_user socket lib k o bytes)
  unfolding from_user
  from_user-Kept k (inl sid) bytes = Kept-still panic
  from_user-Kept k (inr sid) bytes = Kept-emit _ refl

  on_packet-Kept : (d : DataPacket) (v : Option PacketValue) → Kept (on_packet socket lib d v)
  unfolding on_packet
  on_packet-Kept d none = Kept-still panic
  on_packet-Kept d (some speaker) = Kept-still (ok tt)
  on_packet-Kept d (some (user sid payload)) = from_user-Kept _ _ payload

  on_rtc_event-Kept : (e : RtcEvent socket lib) → Kept (on_rtc_event socket lib e)
  unfolding on_rtc_event
  on_rtc_event-Kept (ice_candidate ic t) =
      Kept-bind _ _ (Kept-parsed (lib.trickle_body ic t)) (λ b. Kept-signal _)
  on_rtc_event-Kept (connection_change c t) = record { at = change-weight c t }
  on_rtc_event-Kept (data_channel dc t) = Kept-same _ (λ s. refl) (λ s. refl)
  on_rtc_event-Kept (offer d t) = Kept-signal _
  on_rtc_event-Kept (track [] t target) = Kept-still (ok tt)
  on_rtc_event-Kept (track (x ∷ xs) t target) = Kept-emit _ refl
  on_rtc_event-Kept (data_message bytes false) =
      Kept-still (err (internal "text messages aren't supported"))
  on_rtc_event-Kept (data_message bytes true) =
      Kept-bind _ _ (Kept-parsed (lib.decode bytes)) (λ d. on_packet-Kept d d.value)

  restart_offer-Kept : Kept (restart_offer socket lib)
  unfolding restart_offer
  restart_offer-Kept = record {
    at = λ s.
        if_elim (λ (y : Outcome EngineError (Unit {0}) × S). weight y.1 ≤ weight s) s.has_published
          (λ h.
            (Kept-publisher (
                create_and_send_offer api (record default_offer_options { ice_restart = true }))).at
              s)
          (λ h. omega arith);
  }

  add_track-Kept : (b : Body) → Kept (add_track socket lib b)
  unfolding add_track
  add_track-Kept b =
      Kept-bind _ _ (Kept-tracks (register lib.TrackInfo (lib.add_track_cid b)))
        (λ n. Kept-same _ (λ s. refl) (λ s. refl))

  remove_track-Kept :
      (id : Option String) (removed : Call (Transport api) api.Error (Unit {0}))
      → Kept (remove_track socket lib id removed)
  unfolding remove_track
  remove_track-Kept none removed = record { at = λ s. (Kept-publisher removed).at s }
  remove_track-Kept (some id) removed = Kept-same _ (λ s. refl) (λ s. refl)

  begin_restart-Kept :
      (meanwhile : List (Request Body)) (fresh : Outcome SignalError socket.Conn)
      (response : Outcome SignalError Body)
      → Kept (begin_restart socket lib meanwhile fresh response)
  unfolding begin_restart restart_signal restart_offer
  begin_restart-Kept meanwhile fresh response =
      Kept-bind _ _ (Kept-same _ (λ s. refl) (λ s. refl)) (λ b.
        Kept-bind _ _
          (Kept-bind _ _ (Kept-publisher (configure socket lib b))
            (λ u. Kept-subscriber (configure socket lib b)))
          (λ u. restart_offer-Kept))

  -- Whatever happens to a session: a signal, an event of libwebrtc, a call of the engine, or one of
  -- the two parts of a restart.
  pub data SessionStep : Type 0 where
    hears : SignalEvent Body → SessionStep
    sees : RtcEvent socket lib → SessionStep
    adds_track : Body → SessionStep
    removes_track : Option String → Call (Transport api) api.Error (Unit {0}) → SessionStep
    begins_restart :
        List (Request Body)
        → Outcome SignalError socket.Conn
        → Outcome SignalError Body
        → SessionStep
    ends_restart closes : SessionStep

  unfoldable pub session_step : SessionStep → S → S
  unfolding on_signal on_rtc_event add_track remove_track begin_restart mark_restarted close
  session_step (hears e) s = (on_signal socket lib e s).1
  session_step (sees e) s = (on_rtc_event socket lib e s).1
  session_step (adds_track b) s = (add_track socket lib b s).1
  session_step (removes_track id removed) s = (remove_track socket lib id removed s).1
  session_step (begins_restart meanwhile fresh response) s =
      (begin_restart socket lib meanwhile fresh response s).1
  session_step ends_restart s = mark_restarted socket lib s
  session_step closes s = close socket lib s

  unfoldable pub session_run : List SessionStep → S → S
  unfolding session_step
  session_run [] s = s
  session_run (a ∷ as') s = session_run as' (session_step a s)

  session_step-weight : (a : SessionStep) (s : S) → weight (session_step a s) ≤ weight s
  unfolding session_step
  session_step-weight (hears e) s = (on_signal-Kept e).at s
  session_step-weight (sees e) s = (on_rtc_event-Kept e).at s
  session_step-weight (adds_track b) s = (add_track-Kept b).at s
  session_step-weight (removes_track id removed) s = (remove_track-Kept id removed).at s
  session_step-weight (begins_restart m f r) s = (begin_restart-Kept m f r).at s
  session_step-weight ends_restart s = unfold weight mark_restarted in (omega arith)
  session_step-weight closes s = unfold weight close send_signal in (omega arith)

  session_run-weight : (as' : List SessionStep) (s : S) → weight (session_run as' s) ≤ weight s
  unfolding session_run
  session_run-weight [] s = omega arith
  session_run-weight (a ∷ as') s =
      omega (arith, session_run-weight as' (session_step a s), session_step-weight a s)

  -- A new session says at most once that it is connected, whatever happens to it, in any order:
  -- signals, events of libwebrtc, tracks added and removed, restarts, and its close. Assumed: it has
  -- said so at most once so far, and not at all while its state is `New`.
  pub connected_once :
      (as' : List SessionStep) (s : S)
      → connections s.emitted + unconnected s.pc_state ≤ 1
      → connections (session_run as' s).emitted ≤ 1
  unfolding weight
  connected_once as' s h = omega (arith, session_run-weight as' s)
