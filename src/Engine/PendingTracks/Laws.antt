-- ===== src/Engine/PendingTracks/Laws.antt =====
-- livekit/src/rtc_engine/rtc_session.rs: whose answer a waiting `add_track` gets.
use livekit_rust.Base.{
  ℕ, ◌+◌, ◌<◌, ◌≡◌, refl, sym, ◌∙◌, Bool, true, false, List, [], ◌∷◌, Option, some, none, String,
  arith, if◌then◌else◌, nat_eq, ltb, ◌==◌, eq_iff, Option-cases, Bool-cases, inl, inr, subst,
  if_elim,
}
use livekit_rust.Base.Dict.{get, insert, remove, get-insert, get-remove}
use livekit_rust.Base.Outcome.{ok, err, panic, hang}
use livekit_rust.Engine.State.{EngineError}
use livekit_rust.Engine.PendingTracks.{
  Waiter, waiting, dropped, told, done, Tracks, no_tracks, at, set, discard, register, lost,
  received, track_published, woken, wake, end_wait, time_out, TracksStep, adds, discards, publishes,
  wakes, times_out, timed_out, tracks_step, tracks_run,
}

module _ {TrackInfo : Type 0} where
  -- What the server published, by its own `cid`.
  pub data Published (cid : String) (info : TrackInfo) : List (TracksStep TrackInfo) → Type 0 where
    now : {ss : List (TracksStep TrackInfo)} → Published cid info (publishes cid (some info) ∷ ss)
    before :
        {s : TracksStep TrackInfo} {ss : List (TracksStep TrackInfo)}
        → Published cid info ss
        → Published cid info (s ∷ ss)

  -- What a waiter has, or returned, was published under its `cid`, in the steps so far, latest first.
  abbrev Told : List (TracksStep TrackInfo) → String → Waiter TrackInfo → Type 0
  Told past cid (told info) = Published cid info past
  Told past cid (done (ok info)) = Published cid info past
  Told past cid _ = Unit

  Told-before :
      (past : List (TracksStep TrackInfo)) (s : TracksStep TrackInfo) (cid : String)
      (w : Waiter TrackInfo)
      → Told past cid w
      → Told (s ∷ past) cid w
  Told-before past s cid (told info) t = before t
  Told-before past s cid (done (ok info)) t = before t
  Told-before past s cid (done (err e)) t = tt
  Told-before past s cid (done panic) t = tt
  Told-before past s cid (done hang) t = tt
  Told-before past s cid waiting t = tt
  Told-before past s cid dropped t = tt

  pub record IsKeyed (past : List (TracksStep TrackInfo)) (t : Tracks TrackInfo) : Type 0 where
    pub entries :
        (cid : String) (n : ℕ) → get cid t.pending ≡ some n → (n < t.count) × (t.cid n ≡ cid)
    pub answers : (n : ℕ) → n < t.count → Told past (t.cid n) (t.waiters n)

  module _ (past : List (TracksStep TrackInfo)) (t : Tracks TrackInfo) (h : IsKeyed past t) where
    -- The entry of a key goes.
    removed-entries :
        (key cid : String) (n : ℕ)
        → get cid (remove key t.pending) ≡ some n
        → (n < t.count) × (t.cid n ≡ cid)
    removed-entries key cid n e =
        h.entries cid n (kept (key == cid) (sym (get-remove key cid t.pending) ∙ e))
      where
        kept :
            (b : Bool)
            → (if b then none else get cid t.pending) ≡ some n
            → get cid t.pending ≡ some n
        kept true e = cc
        kept false e = e

    -- A waiter gets a state that is true of it.
    set-Told :
        (n k : ℕ) (w : Waiter TrackInfo)
        → k < t.count
        → (k ≡ n → Told past (t.cid k) w)
        → Told past (t.cid k) (at TrackInfo t.waiters n w k)
    set-Told n k w lt mine =
        if_elim (Told past (t.cid k)) (nat_eq k n) (λ e. mine (ground arith)) (λ e. h.answers k lt)

    Told-lost :
        (cid : String) (w : Waiter TrackInfo) → Told past cid w → Told past cid (lost TrackInfo w)
    Told-lost cid waiting u = tt
    Told-lost cid dropped u = tt
    Told-lost cid (told i) u = u
    Told-lost cid (done (ok i)) u = u
    Told-lost cid (done (err e)) u = tt
    Told-lost cid (done panic) u = tt
    Told-lost cid (done hang) u = tt

    discard-IsKeyed : (key : String) → IsKeyed past (discard TrackInfo key t)
    unfolding discard
    discard-IsKeyed key = elim (Option-cases (get key t.pending)) [
      | inl e ↦ subst (IsKeyed past) (rw (discard, e) refl) h
      | inr (n, e) ↦ subst (IsKeyed past) (sym (discarded n e)) (record {
        entries = removed-entries key;
        answers = λ k lt. set-Told n k _ lt (λ same.
            rw same (Told-lost (t.cid n) (t.waiters n) (h.answers n (h.entries key n e).0)));
      })
    ]
      where
        discarded :
            (n : ℕ)
            → get key t.pending ≡ some n
            → discard TrackInfo key t
              ≡ set TrackInfo n
                  (lost TrackInfo (t.waiters n))
                  (record t { pending = remove key t.pending })
        discarded n e = rw (discard, e) refl

    Told-received :
        (cid : String) (i : TrackInfo) (w : Waiter TrackInfo)
        → Published cid i past
        → Told past cid w
        → Told past cid (received TrackInfo i w)
    Told-received cid i waiting p u = p
    Told-received cid i dropped p u = tt
    Told-received cid i (told j) p u = u
    Told-received cid i (done (ok j)) p u = u
    Told-received cid i (done (err e)) p u = tt
    Told-received cid i (done panic) p u = tt
    Told-received cid i (done hang) p u = tt

    told-Keyed :
        (key : String) (n : ℕ) (i : TrackInfo)
        → get key t.pending ≡ some n
        → Published key i past
        → IsKeyed past (
            set TrackInfo n
              (received TrackInfo i (t.waiters n))
              (record t { pending = remove key t.pending }))
    told-Keyed key n i e said = record {
      entries = removed-entries key;
      answers = λ k lt. set-Told n k _ lt (λ same. rw same (
          Told-received (t.cid n) i (t.waiters n) (rw (h.entries key n e).1 said)
            (h.answers n (h.entries key n e).0)));
    }

    publish-IsKeyed :
        (key : String) (info : Option TrackInfo) (o : Option ℕ)
        → get key t.pending ≡ o
        → ((i : TrackInfo) → info ≡ some i → Published key i past)
        → IsKeyed past (track_published TrackInfo key info t).1
    unfolding track_published
    publish-IsKeyed key info none e said = rw (track_published, e) h
    publish-IsKeyed key none (some n) e said = rw (track_published, e) (discard-IsKeyed key)
    publish-IsKeyed key (some i) (some n) e said =
        rw (track_published, e) (told-Keyed key n i e (said i refl))

    wake-IsKeyed : (n : ℕ) → IsKeyed past (wake TrackInfo n t)
    unfolding wake
    wake-IsKeyed n = woken_by (t.waiters n) refl
      where
        woken_by : (w : Waiter TrackInfo) → t.waiters n ≡ w → IsKeyed past (woken TrackInfo n w t)
        woken_by waiting e = h
        woken_by dropped e = h
        woken_by (done r) e = h
        woken_by (told i) e = record {
          entries = h.entries;
          answers = λ k lt.
              set-Told n k (done (ok i)) lt
                (λ same. rw same (let a = h.answers n (rw same at lt) in rw e at a));
        }

    registered-IsKeyed :
        (key : String)
        → IsKeyed past (record t {
          pending = insert key t.count t.pending;
          waiters = at TrackInfo t.waiters t.count waiting;
          cid = at TrackInfo t.cid t.count key;
          count = t.count + 1;
        })
    registered-IsKeyed key = record { entries = entry; answers = answer }
      where
        older : (n : ℕ) → n < t.count → at TrackInfo t.cid t.count key n ≡ t.cid n
        older n lt = ground arith

        newest : at TrackInfo t.cid t.count key t.count ≡ key
        newest = ground arith

        entry :
            (cid : String) (n : ℕ)
            → get cid (insert key t.count t.pending) ≡ some n
            → (n < t.count + 1) × (at TrackInfo t.cid t.count key n ≡ cid)
        entry cid n e = split (key == cid) refl (sym (get-insert key cid t.count t.pending) ∙ e)
          where
            split :
                (b : Bool)
                → (key == cid) ≡ b
                → (if b then some t.count else get cid t.pending) ≡ some n
                → (n < t.count + 1) × (at TrackInfo t.cid t.count key n ≡ cid)
            split true same f = ground (arith, newest, (eq_iff key cid).0 same)
            split false other f =
                let (lt, keyed) = h.entries cid n f in (omega arith, older n lt ∙ keyed)

        answer :
            (n : ℕ)
            → n < t.count + 1
            → Told past
                (at TrackInfo t.cid t.count key n)
                (at TrackInfo t.waiters t.count waiting n)
        answer n lt = elim (Bool-cases (nat_eq n t.count)) [
          | inl same ↦ rw same tt
          | inr other ↦ rw other (h.answers n (ground arith))
        ]

    register-IsKeyed :
        (key : String) (o : Option ℕ)
        → get key t.pending ≡ o
        → IsKeyed past (register TrackInfo key t).1
    unfolding register
    register-IsKeyed key none e = rw (register, e) (registered-IsKeyed key)
    register-IsKeyed key (some n) e = rw (register, e) h

    failed-IsKeyed : (n : ℕ) (e : EngineError) → IsKeyed past (set TrackInfo n (done (err e)) t)
    failed-IsKeyed n e = record {
      entries = h.entries;
      answers = λ k lt. set-Told n k (done (err e)) lt (λ same. tt);
    }

  end_wait-IsKeyed :
      (past : List (TracksStep TrackInfo)) (n : ℕ) (w : Waiter TrackInfo) (t : Tracks TrackInfo)
      → IsKeyed past t
      → IsKeyed past (end_wait TrackInfo n w t)
  unfolding end_wait
  end_wait-IsKeyed past n (done r) t h = h
  end_wait-IsKeyed past n w t h =
      failed-IsKeyed past (discard TrackInfo (t.cid n) t) (discard-IsKeyed past t h (t.cid n)) n
        (timed_out TrackInfo)

  time_out-IsKeyed :
      (past : List (TracksStep TrackInfo)) (n : ℕ) (t : Tracks TrackInfo)
      → IsKeyed past t
      → IsKeyed past (time_out TrackInfo n t)
  unfolding time_out
  time_out-IsKeyed past n t h =
      if_elim (IsKeyed past) (ltb n t.count) (λ lt. end_wait-IsKeyed past n (t.waiters n) t h)
        (λ ge. h)

  IsKeyed-before :
      (past : List (TracksStep TrackInfo)) (s : TracksStep TrackInfo) (t : Tracks TrackInfo)
      → IsKeyed past t
      → IsKeyed (s ∷ past) t
  IsKeyed-before past s t h = record {
    entries = h.entries;
    answers = λ n lt. Told-before past s (t.cid n) (t.waiters n) (h.answers n lt);
  }

  tracks_step-IsKeyed :
      (past : List (TracksStep TrackInfo)) (s : TracksStep TrackInfo) (t : Tracks TrackInfo)
      → IsKeyed past t
      → IsKeyed (s ∷ past) (tracks_step TrackInfo s t)
  unfolding tracks_step
  tracks_step-IsKeyed past (adds key) t h =
      IsKeyed-before past (adds key) _ (register-IsKeyed past t h key (get key t.pending) refl)
  tracks_step-IsKeyed past (discards key) t h =
      IsKeyed-before past (discards key) _ (discard-IsKeyed past t h key)
  tracks_step-IsKeyed past (publishes key info) t h =
      let s = publishes key info in
      publish-IsKeyed (s ∷ past) t (IsKeyed-before past s t h) key info (get key t.pending) refl
        (λ i e. rw e now)
  tracks_step-IsKeyed past (wakes n) t h = IsKeyed-before past (wakes n) _ (wake-IsKeyed past t h n)
  tracks_step-IsKeyed past (times_out n) t h =
      IsKeyed-before past (times_out n) _ (time_out-IsKeyed past n t h)

  -- The steps so far, latest first.
  abbrev pub history :
      List (TracksStep TrackInfo) → List (TracksStep TrackInfo) → List (TracksStep TrackInfo)
  history [] past = past
  history (s ∷ ss) past = history ss (s ∷ past)

  tracks_run-IsKeyed :
      (ss past : List (TracksStep TrackInfo)) (t : Tracks TrackInfo)
      → IsKeyed past t
      → IsKeyed (history ss past) (tracks_run TrackInfo ss t)
  unfolding tracks_run
  tracks_run-IsKeyed [] past t h = h
  tracks_run-IsKeyed (s ∷ ss) past t h =
      tracks_run-IsKeyed ss (s ∷ past) (tracks_step TrackInfo s t) (tracks_step-IsKeyed past s t h)

  empty : IsKeyed [] (no_tracks TrackInfo)
  unfolding get
  empty = record { entries = λ cid n e. cc; answers = λ n lt. absurd (omega arith) }

  -- A call of `add_track` returns only a track that the server published under the call's own `cid`
  -- before, whatever the calls, the answers, the removals and the timeouts of a session are, in any
  -- order, also when a `cid` is used again.
  pub own_answer :
      (ss : List (TracksStep TrackInfo)) (n : ℕ) (info : TrackInfo)
      → let t = tracks_run TrackInfo ss (no_tracks TrackInfo) in
        n < t.count → t.waiters n ≡ done (ok info) → Published (t.cid n) info (history ss [])
  own_answer ss n info lt e =
      let h = tracks_run-IsKeyed ss [] (no_tracks TrackInfo) empty in
      let a = h.answers n lt in rw e at a
