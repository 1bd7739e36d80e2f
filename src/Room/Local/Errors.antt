-- ===== src/Room/Local/Errors.antt =====
-- livekit/src/room/participant/local_participant.rs: publishing and unpublishing when the engine fails.
use livekit_rust.Base.{ℕ, ◌≡◌, refl, List, none, some, String, arith, eq_refl}
use livekit_rust.Base.Dict.{get, remove, get-remove}
use livekit_rust.Base.Outcome.{Outcome, ok, err, panic, hang, continue, Call}
use livekit_rust.Room.Local.{
  LocalTrack, LocalEngine, LocalPublication, LocalParticipant, publish_track, unpublish_track,
  remove_sender, on_engine, add_publication,
}

module _ (engine : LocalEngine) where
  open engine use {State, Error, Options}

  -- A call that fails leaves the publications and the events.
  Untouched :
      {A : Type 0} → LocalParticipant engine → Outcome Error A × LocalParticipant engine → Type 0
  Untouched p (r, u) = (e : Error) → r ≡ err e → (u.tracks ≡ p.tracks) × (u.events ≡ p.events)

  continue-Untouched :
      {A B : Type 0} (p : LocalParticipant engine) (m : Outcome Error A × State)
      (f : A → Call (LocalParticipant engine) Error B)
      → ((a : A) (s : State) → m ≡ (ok a, s) → Untouched p (f a (record p { rtc_engine = s })))
      → Untouched p (continue (m.0, record p { rtc_engine = m.1 }) f)
  unfolding Untouched
  continue-Untouched p (ok a, s) f h = h a s refl
  continue-Untouched p (err e, s) f h = λ x eq. (refl, refl)
  continue-Untouched p (panic, s) f h = λ x eq. (refl, refl)
  continue-Untouched p (hang, s) f h = λ x eq. (refl, refl)

  -- Publishing that fails, in either of the engine's calls, publishes nothing: the participant's
  -- publications are the old ones, and no event is told.
  pub failed_publish_changes_nothing :
      (t : LocalTrack) (o : Options) (p : LocalParticipant engine) (e : Error)
      → (publish_track engine t o p).0 ≡ err e
      → ((publish_track engine t o p).1.tracks ≡ p.tracks)
        × ((publish_track engine t o p).1.events ≡ p.events)
  unfolding publish_track Untouched
  failed_publish_changes_nothing t o p e h =
      continue-Untouched p (engine.add_track t o p.rtc_engine)
        (λ sid p1.
          continue (on_engine engine (engine.create_sender (record t { sid = sid }) o) p1)
            (add_publication engine t o sid))
        (λ sid s added.
          continue-Untouched (record p { rtc_engine = s })
            (engine.create_sender (record t { sid = sid }) o s) (add_publication engine t o sid)
            (λ sender s2 created x eq. ground arith))
        e h

  get-removed : {V : Type 0} (k : String) (m : List (String × V)) → get k (remove k m) ≡ none
  get-removed k m = ground (arith, get-remove k k m, eq_refl k)

  unpublish_track-failing :
      (sid : String) (p : LocalParticipant engine) (q : LocalPublication engine) (t : LocalTrack)
      (sender : ℕ) (e : Error) (s : State)
      → get sid p.tracks ≡ some q
      → q.track ≡ some t
      → t.transceiver ≡ some sender
      → engine.remove_track sender p.rtc_engine ≡ (err e, s)
      → unpublish_track engine sid p
        ≡ (err e, record p { rtc_engine = s; tracks = remove sid p.tracks })
  unfolding unpublish_track remove_sender
  unpublish_track-failing sid p q t sender e s there track sending fails =
      rw (unpublish_track, there, remove_sender, track, sending, fails) refl

  unpublish_track-absent :
      (sid : String) (p : LocalParticipant engine)
      → get sid p.tracks ≡ none
      → unpublish_track engine sid p ≡ (err engine.track_not_found, p)
  unfolding unpublish_track
  unpublish_track-absent sid p h = rw (unpublish_track, h) refl

  -- Unpublishing that fails in the engine forgets the publication all the same: it returns the error
  -- and tells no event, but the publication is gone, and trying again says that there is no such
  -- track, without asking the engine again: its state stays as the failure left it.
  pub failed_unpublish_forgets :
      (sid : String) (p : LocalParticipant engine) (q : LocalPublication engine) (t : LocalTrack)
      (sender : ℕ) (e : Error) (s : State)
      → get sid p.tracks ≡ some q
      → q.track ≡ some t
      → t.transceiver ≡ some sender
      → engine.remove_track sender p.rtc_engine ≡ (err e, s)
      → let (r, u) = unpublish_track engine sid p in
        (r ≡ err e)
        × (u.events ≡ p.events)
        × (u.rtc_engine ≡ s)
        × (get sid u.tracks ≡ none)
        × (unpublish_track engine sid u ≡ (err engine.track_not_found, u))
  failed_unpublish_forgets sid p q t sender e s there track sending fails =
      rw (unpublish_track-failing sid p q t sender e s there track sending fails) (
        refl,
        refl,
        refl,
        get-removed sid p.tracks,
        unpublish_track-absent sid _ (get-removed sid p.tracks),
      )
