-- ===== src/Engine/PendingTracks.antt =====
-- livekit/src/rtc_engine/rtc_session.rs: the tracks whose publication the server has not confirmed,
-- `pending_tracks`. Every call of `add_track` that waits is a waiter with a number of its own, the
-- `oneshot` receiver of the sender that stands in the map.
mod Laws
mod Stale
mod Examples
use livekit_rust.Base.{
  ℕ, ◌+◌, Bool, true, false, List, [], ◌∷◌, Option, none, some, String, if◌then◌else◌, nat_eq,
  is_some, ltb,
}
use livekit_rust.Base.Dict.{Dict, get, insert, remove}
use livekit_rust.Base.Outcome.{Outcome, ok, err, panic, hang, Call}
use livekit_rust.Engine.State.{EngineError, internal}

module _ (TrackInfo : Type 0) where
  -- `told`: the value is in the channel. `dropped`: the sender is gone, and nothing was sent.
  pub data Waiter : Type 0 where
    waiting dropped : Waiter
    told : TrackInfo → Waiter
    done : Outcome EngineError TrackInfo → Waiter

  -- `cid` is the waiter's own key, which its timeout removes.
  pub record Tracks : Type 0 where
    pub pending : Dict ℕ
    pub waiters : ℕ → Waiter
    pub cid : ℕ → String
    pub count : ℕ

  abbrev pub no_tracks : Tracks
  no_tracks = record { pending = []; waiters = λ n. waiting; cid = λ n. ""; count = 0 }

  abbrev pub at {ℓ} : {A : Type ℓ} → (ℕ → A) → ℕ → A → ℕ → A
  at f n a k = if nat_eq k n then a else f k

  abbrev pub set : ℕ → Waiter → Tracks → Tracks
  set n w t = record t { waiters = at t.waiters n w }

  -- The sender of a waiter is dropped.
  abbrev pub lost : Waiter → Waiter
  lost waiting = dropped
  lost w = w

  -- `tx.send(info)`; the error of a receiver that is gone is ignored.
  abbrev pub received : TrackInfo → Waiter → Waiter
  received info waiting = told info
  received info w = w

  -- `pending_tracks.remove(cid)`, with the sender dropped.
  unfoldable pub discard : String → Tracks → Tracks
  discard cid t = elim (get cid t.pending) [
    | none ↦ t
    | some n ↦ set n (lost (t.waiters n)) (record t { pending = remove cid t.pending })
  ]

  -- The beginning of `add_track`, under the lock.
  unfoldable pub register : String → Call Tracks EngineError ℕ
  register cid t =
      if is_some (get cid t.pending) then (err (internal "track already published"), t) else (
        ok t.count,
        record t {
          pending = insert cid t.count t.pending;
          waiters = at t.waiters t.count waiting;
          cid = at t.cid t.count cid;
          count = t.count + 1;
        },
      )

  -- The server's answer; a known `cid` without a track is an `unwrap` that panics.
  unfoldable pub track_published : String → Option TrackInfo → Call Tracks EngineError (Unit {0})
  unfolding discard
  track_published cid info t = elim (get cid t.pending) [
    | none ↦ (ok tt, t)
    | some n ↦ elim info [
      | none ↦ (panic, discard cid t)
      | some i ↦
          (ok tt, set n (received i (t.waiters n)) (record t { pending = remove cid t.pending }))
    ]
  ]

  woken : ℕ → Waiter → Tracks → Tracks
  woken n (told info) t = set n (done (ok info)) t
  woken n w t = t

  -- `Ok(info) = rx`; a channel that was dropped only disables this branch of the `select!`.
  unfoldable pub wake : ℕ → Tracks → Tracks
  unfolding woken
  wake n t = woken n (t.waiters n) t

  abbrev pub timed_out : EngineError
  timed_out = internal "track publication timed out, no response received from the server"

  end_wait : ℕ → Waiter → Tracks → Tracks
  end_wait n (done r) t = t
  end_wait n w t = set n (done (err timed_out)) (discard (t.cid n) t)

  -- The other branch, at any time: its removal is by the `cid`, whoever put it there.
  unfoldable pub time_out : ℕ → Tracks → Tracks
  unfolding end_wait discard
  time_out n t = if ltb n t.count then end_wait n (t.waiters n) t else t

  pub data TracksStep : Type 0 where
    adds discards : String → TracksStep
    publishes : String → Option TrackInfo → TracksStep
    wakes times_out : ℕ → TracksStep

  unfoldable pub tracks_step : TracksStep → Tracks → Tracks
  unfolding register track_published discard wake time_out
  tracks_step (adds cid) t = (register cid t).1
  tracks_step (discards cid) t = discard cid t
  tracks_step (publishes cid info) t = (track_published cid info t).1
  tracks_step (wakes n) t = wake n t
  tracks_step (times_out n) t = time_out n t

  unfoldable pub tracks_run : List TracksStep → Tracks → Tracks
  unfolding tracks_step
  tracks_run [] t = t
  tracks_run (s ∷ ss) t = tracks_run ss (tracks_step s t)
