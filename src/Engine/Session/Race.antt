-- ===== src/Engine/Session/Race.antt =====
-- livekit/src/rtc_engine/rtc_session.rs: the state that a restart leaves, and the wait that follows
-- it in rtc_engine/mod.rs.
use livekit_rust.Base.{
  ℕ, zero, suc, ◌≡◌, ◌≢◌, refl, sym, ◌∙◌, Bool, true, false, List, [], ◌∷◌, some, none, String, inl,
  inr, ap, ◌⊎◌, Option,
}
use livekit_rust.Base.Outcome.{Outcome, ok, err, panic, hang, continue, Call, ◌>>=◌, modify}
use livekit_rust.Proto.{DataPacketKind}
use livekit_rust.Signal.Message.{Request, SignalError}
use livekit_rust.Signal.Stream.{Socket}
use livekit_rust.Engine.State.{Payloads, EngineError}
use livekit_rust.Engine.Transport.{PeerConnection}
use livekit_rust.Engine.Session.Waiting.{wait_pc_connection, wait_pc_connection_lem}
use livekit_rust.Engine.Session.{
  Library, Session, PeerState, peer_connected, PeerConnectionState, pc_connected, pc_failed, Target,
  subscriber, RtcEvent, ice_candidate, connection_change, data_channel, offer, track, data_message,
  on_rtc_event, on_connection_change, on_failure, on_session_disconnected, emit, send_signal,
  parsed, on_packet, from_user, DataPacket, PacketValue, user, speaker, begin_restart,
  mark_restarted, restart_session,
}

abbrev pub is_connected : PeerState → Bool
is_connected peer_connected = true
is_connected _ = false

module _ {p : Payloads} {api : PeerConnection} {Body : Type 0} (socket : Socket Body)
    (lib : Library p api Body) where
  abbrev S : Type 0
  S = Session socket lib

  -- Any event but the subscriber's peer connection becoming connected.
  abbrev pub NotConnecting : RtcEvent socket lib → Type 0
  NotConnecting (connection_change pc_connected subscriber) = ⊥
  NotConnecting _ = Unit

  -- The session after so many events.
  unfoldable pub after : (ℕ → RtcEvent socket lib) → S → ℕ → S
  unfolding on_rtc_event
  after es s zero = s
  after es s (suc i) = (on_rtc_event socket lib (es i) (after es s i)).1

  Unconnected : S → Type 0
  Unconnected s = is_connected s.pc_state ≡ false

  parsed_then :
      {A : Type 0} (r : Outcome EngineError A) (f : A → Call S EngineError (Unit {0})) (s : S)
      → ((a : A) → Unconnected (f a s).1)
      → Unconnected s
      → Unconnected ((parsed socket lib r >>= f) s).1
  parsed_then (ok a) f s k u = k a
  parsed_then (err e) f s k u = u
  parsed_then panic f s k u = u
  parsed_then hang f s k u = u

  from_user-Unconnected :
      (k : DataPacketKind) (o : String ⊎ String) (bytes : List ℕ) (s : S)
      → Unconnected s
      → Unconnected (from_user socket lib k o bytes s).1
  unfolding from_user emit Unconnected
  from_user-Unconnected k (inl sid) bytes s u = u
  from_user-Unconnected k (inr sid) bytes s u = u

  on_packet-Unconnected :
      (d : DataPacket) (v : Option PacketValue) (s : S)
      → Unconnected s
      → Unconnected (on_packet socket lib d v s).1
  unfolding on_packet
  on_packet-Unconnected d none s u = u
  on_packet-Unconnected d (some speaker) s u = u
  on_packet-Unconnected d (some (user sid payload)) s u = from_user-Unconnected _ _ payload s u

  change-Unconnected :
      (c : PeerConnectionState) (t : Target) (s : S)
      → NotConnecting (connection_change c t)
      → Unconnected s
      → Unconnected (on_connection_change socket lib c t s)
  unfolding on_connection_change on_failure on_session_disconnected emit Unconnected
  change-Unconnected pc_connected subscriber s n u = elim n [ ]
  change-Unconnected pc_failed t s n u = refl
  change-Unconnected _ t s n u = u

  on_rtc_event-Unconnected :
      (e : RtcEvent socket lib) (s : S)
      → NotConnecting e
      → Unconnected s
      → Unconnected (on_rtc_event socket lib e s).1
  unfolding on_rtc_event send_signal emit
  on_rtc_event-Unconnected (ice_candidate ic t) s n u =
      parsed_then (lib.trickle_body ic t) _ s (λ b. unfold Unconnected in u) u
  on_rtc_event-Unconnected (connection_change c t) s n u = change-Unconnected c t s n u
  on_rtc_event-Unconnected (data_message bytes true) s n u =
      parsed_then (lib.decode bytes) _ s (λ d. on_packet-Unconnected d d.value s u) u
  on_rtc_event-Unconnected (track [] t target) s n u = u
  on_rtc_event-Unconnected (track (x ∷ xs) t target) s n u = unfold Unconnected in u
  on_rtc_event-Unconnected (data_channel dc t) s n u = unfold Unconnected in u
  on_rtc_event-Unconnected (offer d t) s n u = unfold Unconnected in u
  on_rtc_event-Unconnected (data_message bytes false) s n u = u

  after-Unconnected :
      (es : ℕ → RtcEvent socket lib) (s : S) (i : ℕ)
      → ((j : ℕ) → NotConnecting (es j))
      → Unconnected s
      → Unconnected (after es s i)
  unfolding after
  after-Unconnected es s zero n u = u
  after-Unconnected es s (suc i) n u =
      on_rtc_event-Unconnected (es i) (after es s i) (n i) (after-Unconnected es s i n u)

  restarted-Unconnected :
      (r : Outcome EngineError (Unit {0}) × S) (others : S → S) (u : S)
      → continue r (λ x. modify (λ t. mark_restarted socket lib (others t))) ≡ (ok tt, u)
      → Unconnected u
  unfolding mark_restarted Unconnected
  restarted-Unconnected (ok x, t) others u e = ap (λ y. is_connected y.1.pc_state) (sym e)
  restarted-Unconnected (err x, t) others u e = absurd (not_ok (ap (λ y. y.0) e))
    where
      not_ok : err x ≢ ok tt
      not_ok h = cc
  restarted-Unconnected (panic, t) others u e = cc
  restarted-Unconnected (hang, t) others u e = cc

  -- A connection that comes up while the session restarts is forgotten: when the subscriber's peer
  -- connection is reported connected before the restart's last store, and no later event reports
  -- that again, the wait for the connection that follows the restart does not succeed, whatever
  -- other events arrive, and whenever the session is closed.
  pub early_connection_forgotten :
      (s u : S) (meanwhile : List (Request Body)) (fresh : Outcome SignalError socket.Conn)
      (response : Outcome SignalError Body) (es : ℕ → RtcEvent socket lib) (closed : ℕ → Bool)
      → restart_session socket lib meanwhile fresh response
          (λ t. (on_rtc_event socket lib (connection_change pc_connected subscriber) t).1)
          s
        ≡ (ok tt, u)
      → ((j : ℕ) → NotConnecting (es j))
      → wait_pc_connection (λ i. is_connected (after es u i).pc_state) closed ≢ ok tt
  unfolding restart_session Unconnected
  early_connection_forgotten s u meanwhile fresh response es closed restarted quiet won =
      elim (wait_pc_connection_lem (λ i. is_connected (after es u i).pc_state) closed) [
        | inl (k, lt, read, idle, e) ↦
            (let shut = after-Unconnected es u k quiet (
                restarted-Unconnected (begin_restart socket lib meanwhile fresh response s)
                  (λ t. (on_rtc_event socket lib (connection_change pc_connected subscriber) t).1) u
                  restarted) in
              cc)
        | inr (inl (k, lt, unread, shut, idle, e)) ↦ (let z = sym won ∙ e in cc)
        | inr (inr (idle, e)) ↦ (let z = sym won ∙ e in cc)
      ]
