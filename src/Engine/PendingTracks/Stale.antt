-- ===== src/Engine/PendingTracks/Stale.antt =====
-- livekit/src/rtc_engine/rtc_session.rs: the timeout of a removed track and a newer one of its name.
use livekit_rust.Base.{
  ℕ, ◌<◌, ◌≡◌, ◌≢◌, refl, true, List, [], ◌∷◌, Option, some, none, String, arith, nat_eq, ltb,
  if_elim, eq_refl, subst,
}
use livekit_rust.Base.Dict.{get, remove, get-remove}
use livekit_rust.Base.Outcome.{ok, err, panic, hang}
use livekit_rust.Engine.PendingTracks.{
  Waiter, waiting, dropped, told, done, Tracks, at, set, lost, received, discard, register,
  track_published, woken, wake, end_wait, time_out, timed_out, TracksStep, adds, discards,
  publishes, wakes, times_out, tracks_step, tracks_run,
}

ltb-true : (a b : ℕ) → a < b → ltb a b ≡ true
ltb-true a b h = ground arith

module _ {TrackInfo : Type 0} where
  -- A waiter that no answer can reach: its sender is gone, or it returned an error.
  abbrev pub IsLost : Waiter TrackInfo → Type 0
  IsLost dropped = Unit
  IsLost (done (err e)) = Unit
  IsLost _ = ⊥

  module _ (m : ℕ) where
    Lost : Tracks TrackInfo → Type 0
    Lost t = (m < t.count) × IsLost (t.waiters m)

    lost-IsLost : (w : Waiter TrackInfo) → IsLost w → IsLost (lost TrackInfo w)
    lost-IsLost waiting l = elim l [ ]
    lost-IsLost (told i) l = elim l [ ]
    lost-IsLost (done (ok i)) l = elim l [ ]
    lost-IsLost (done panic) l = elim l [ ]
    lost-IsLost (done hang) l = elim l [ ]
    lost-IsLost dropped l = tt
    lost-IsLost (done (err e)) l = tt

    received-IsLost :
        (i : TrackInfo) (w : Waiter TrackInfo) → IsLost w → IsLost (received TrackInfo i w)
    received-IsLost i waiting l = elim l [ ]
    received-IsLost i (told j) l = elim l [ ]
    received-IsLost i (done (ok j)) l = elim l [ ]
    received-IsLost i (done panic) l = elim l [ ]
    received-IsLost i (done hang) l = elim l [ ]
    received-IsLost i dropped l = tt
    received-IsLost i (done (err e)) l = tt

    set-Lost :
        (n : ℕ) (w : Waiter TrackInfo) (t : Tracks TrackInfo)
        → Lost t
        → (IsLost (t.waiters n) → IsLost w)
        → Lost (set TrackInfo n w t)
    unfolding Lost
    set-Lost n w t l keep = (
      l.0,
      if_elim IsLost (nat_eq m n) (λ e. keep (subst (λ k. IsLost (t.waiters k)) (ground arith) l.1))
          (λ e. l.1),
    )

    discard-Lost :
        (key : String) (o : Option ℕ) (t : Tracks TrackInfo)
        → get key t.pending ≡ o
        → Lost t
        → Lost (discard TrackInfo key t)
    unfolding discard Lost
    discard-Lost key none t e l = rw (discard, e) l
    discard-Lost key (some n) t e l =
        rw (discard, e)
          (set-Lost n (lost TrackInfo (t.waiters n)) (record t { pending = remove key t.pending }) l
            (lost-IsLost (t.waiters n)))

    publish-Lost :
        (key : String) (info : Option TrackInfo) (o : Option ℕ) (t : Tracks TrackInfo)
        → get key t.pending ≡ o
        → Lost t
        → Lost (track_published TrackInfo key info t).1
    unfolding track_published Lost
    publish-Lost key info none t e l = rw (track_published, e) l
    publish-Lost key none (some n) t e l = rw (track_published, e) (discard-Lost key (some n) t e l)
    publish-Lost key (some i) (some n) t e l =
        rw (track_published, e)
          (set-Lost n (received TrackInfo i (t.waiters n))
            (record t { pending = remove key t.pending }) l (received-IsLost i (t.waiters n)))

    register-Lost :
        (key : String) (o : Option ℕ) (t : Tracks TrackInfo)
        → get key t.pending ≡ o
        → Lost t
        → Lost (register TrackInfo key t).1
    unfolding register Lost
    register-Lost key none t e l =
        rw (register, e)
          (
            omega (arith, l.0),
            if_elim IsLost (nat_eq m t.count) (λ same. absurd (ground (arith, l.0))) (λ other. l.1),
          )
    register-Lost key (some n) t e l = rw (register, e) l

    wake-Lost :
        (n : ℕ) (w : Waiter TrackInfo) (t : Tracks TrackInfo)
        → t.waiters n ≡ w
        → Lost t
        → Lost (woken TrackInfo n w t)
    unfolding woken
    wake-Lost n (told i) t e l = set-Lost n (done (ok i)) t l (λ h. rw e at h)
    wake-Lost n waiting t e l = l
    wake-Lost n dropped t e l = l
    wake-Lost n (done r) t e l = l

    end_wait-Lost :
        (n : ℕ) (w : Waiter TrackInfo) (t : Tracks TrackInfo)
        → Lost t
        → Lost (end_wait TrackInfo n w t)
    unfolding end_wait
    end_wait-Lost n (done r) t l = l
    end_wait-Lost n w t l =
        set-Lost n (done (err (timed_out TrackInfo))) (discard TrackInfo (t.cid n) t)
          (discard-Lost (t.cid n) (get (t.cid n) t.pending) t refl l) (λ h. tt)

    tracks_step-Lost :
        (s : TracksStep TrackInfo) (t : Tracks TrackInfo)
        → Lost t
        → Lost (tracks_step TrackInfo s t)
    unfolding tracks_step time_out wake
    tracks_step-Lost (adds key) t l = register-Lost key (get key t.pending) t refl l
    tracks_step-Lost (discards key) t l = discard-Lost key (get key t.pending) t refl l
    tracks_step-Lost (publishes key info) t l = publish-Lost key info (get key t.pending) t refl l
    tracks_step-Lost (wakes n) t l = wake-Lost n (t.waiters n) t refl l
    tracks_step-Lost (times_out n) t l =
        if_elim Lost (ltb n t.count) (λ lt. end_wait-Lost n (t.waiters n) t l) (λ ge. l)

    tracks_run-Lost :
        (ss : List (TracksStep TrackInfo)) (t : Tracks TrackInfo)
        → Lost t
        → Lost (tracks_run TrackInfo ss t)
    unfolding tracks_run
    tracks_run-Lost [] t l = l
    tracks_run-Lost (s ∷ ss) t l =
        tracks_run-Lost ss (tracks_step TrackInfo s t) (tracks_step-Lost s t l)

  time_out_dropped :
      (n : ℕ) (t : Tracks TrackInfo)
      → n < t.count
      → t.waiters n ≡ dropped
      → time_out TrackInfo n t
        ≡ set TrackInfo n (done (err (timed_out TrackInfo))) (discard TrackInfo (t.cid n) t)
  unfolding time_out end_wait
  time_out_dropped n t lt gone = rw (ltb-true n t.count lt, gone) refl

  discard_waiting :
      (key : String) (m : ℕ) (t : Tracks TrackInfo)
      → get key t.pending ≡ some m
      → t.waiters m ≡ waiting
      → discard TrackInfo key t
        ≡ set TrackInfo m dropped (record t { pending = remove key t.pending })
  unfolding discard
  discard_waiting key m t entry waits = rw (discard, entry, waits) refl

  stale-Lost :
      (n m : ℕ) (t : Tracks TrackInfo)
      → n < t.count
      → m < t.count
      → m ≢ n
      → t.waiters n ≡ dropped
      → get (t.cid n) t.pending ≡ some m
      → t.waiters m ≡ waiting
      → Lost m (time_out TrackInfo n t) × (get (t.cid n) (time_out TrackInfo n t).pending ≡ none)
  unfolding Lost
  stale-Lost n m t ln lm ne gone entry waits =
      rw (time_out_dropped n t ln gone, discard_waiting (t.cid n) m t entry waits)
        (
          (lm, dropped_there),
          ground (arith, get-remove (t.cid n) (t.cid n) t.pending, eq_refl (t.cid n)),
        )
    where
      dropped_there :
          IsLost
            (at TrackInfo (at TrackInfo t.waiters m dropped) n (done (err (timed_out TrackInfo))) m)
      dropped_there =
          if_elim IsLost (nat_eq m n) (λ e. tt)
            (λ e. if_elim IsLost (nat_eq m m) (λ f. tt) (λ f. absurd (ground arith)))

  -- A timeout fires for its `cid` and not for its call: when a call's track was removed and a later
  -- call waits under the same `cid`, the first call's timeout takes the later call's entry away, and
  -- whatever happens then, also the server's answer for that `cid`, the later call never returns a
  -- track.
  pub stale_timeout_cancels :
      (n m : ℕ) (t : Tracks TrackInfo) (ss : List (TracksStep TrackInfo)) (info : TrackInfo)
      → n < t.count
      → m < t.count
      → m ≢ n
      → t.waiters n ≡ dropped
      → get (t.cid n) t.pending ≡ some m
      → t.waiters m ≡ waiting
      → let u = time_out TrackInfo n t in
        (get (t.cid n) u.pending ≡ none) × ((tracks_run TrackInfo ss u).waiters m ≢ done (ok info))
  unfolding Lost
  stale_timeout_cancels n m t ss info ln lm ne gone entry waits =
      let (l, e) = stale-Lost n m t ln lm ne gone entry waits in
      (e, λ h. (let z = (tracks_run-Lost m ss (time_out TrackInfo n t) l).1 in rw h at z))
