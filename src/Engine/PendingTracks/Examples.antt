-- ===== src/Engine/PendingTracks/Examples.antt =====
-- livekit/src/rtc_engine/rtc_session.rs: pending tracks whose information is a number.
use livekit_rust.Base.{ℕ, zero, suc, ◌≡◌, refl, List, [], ◌∷◌, some, arith}
use livekit_rust.Base.Dict.{get, insert, remove}
use livekit_rust.Base.Outcome.{err}
use livekit_rust.Engine.State.{internal}
use livekit_rust.Engine.PendingTracks.{
  Tracks, TracksStep, no_tracks, adds, publishes, wakes, tracks_run, waiting, dropped, register,
}
use livekit_rust.Engine.PendingTracks.Laws.{Published, history, own_answer}

abbrev answered : List (TracksStep ℕ)
answered = adds "c1" ∷ adds "c2" ∷ publishes "c2" (some 7) ∷ wakes 1 ∷ []

own_answer_example : Published "c2" 7 (history answered [])
unfolding tracks_run get insert remove
own_answer_example = own_answer answered 1 7 (omega arith) refl

refused_twice :
    (register ℕ "c1" (tracks_run ℕ (adds "c1" ∷ []) (no_tracks ℕ))).0
    ≡ err (internal "track already published")
unfolding tracks_run register get insert
refused_twice = refl

-- Call 0 was removed, and call 1 waits under the same name.
abbrev reused : Tracks ℕ
reused = record {
  pending = ("c1", 1) ∷ [];
  waiters = λ n. elim n [ zero ↦ dropped | suc k ↦ waiting ];
  cid = λ n. "c1";
  count = 2;
}
