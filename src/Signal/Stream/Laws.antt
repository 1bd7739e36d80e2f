-- ===== src/Signal/Stream/Laws.antt =====
-- signal_stream.rs: what the write task writes, and what the senders are told.
use mathlib.Core.List.{append-nil, append_assoc}
use livekit_rust.Base.{◌≡◌, refl, sym, Bool, true, false, List, [], ◌∷◌, ◌++◌, arith, All}
use livekit_rust.Signal.Message.{Request}
use livekit_rust.Signal.Stream.{
  Socket, Stream, InternalMessage, signal, pong, close, write_round, write_task, binary,
}

module _ {Body : Type 0} (socket : Socket Body) where
  ended-write_task :
      (ms : List (InternalMessage socket)) (s : Stream socket)
      → s.ended ≡ true
      → write_task socket ms s ≡ ([], s)
  unfolding write_task
  ended-write_task [] s over = refl
  ended-write_task (m ∷ ms) s over = ground arith

  -- Nothing that is asked for behind a close is written or answered.
  pub nothing_after_close :
      (ms rest : List (InternalMessage socket)) (s : Stream socket)
      → write_task socket (ms ++ close ∷ rest) s ≡ write_task socket (ms ++ close ∷ []) s
  unfolding write_task write_round
  nothing_after_close [] rest s = ground (
    arith,
    ended-write_task rest (record s { ended = true }),
    ended-write_task [] (record s { ended = true }),
  )
  nothing_after_close (m ∷ ms) rest s =
      ground (arith, nothing_after_close ms rest (write_round socket m s).1)

  -- The signals of a list, without the pongs.
  abbrev pub signals : List (InternalMessage socket) → List (Request Body)
  signals [] = []
  signals (signal m ∷ ms) = m ∷ signals ms
  signals (pong payload ∷ ms) = signals ms
  signals (close ∷ ms) = signals ms

  abbrev pub trues : List (Request Body) → List Bool
  trues [] = []
  trues (m ∷ ms) = true ∷ trues ms

  abbrev pub NotClose : InternalMessage socket → Type 0
  NotClose close = ⊥
  NotClose _ = Unit

  -- Pongs between the signals, refused or not, do not disturb them: with every signal taken by the
  -- socket, all of them are sent, in order, and every sender is told so.
  pub write_task-signals :
      ((m : Request Body) (c : socket.Conn) → (socket.write (binary m) c).0 ≡ true)
      → (ms : List (InternalMessage socket)) (s : Stream socket) → s.ended ≡ false
      → All NotClose ms
      → ((write_task socket ms s).1.sent ≡ s.sent ++ signals ms)
        × ((write_task socket ms s).0 ≡ trues (signals ms))
  unfolding write_task write_round
  write_task-signals acc [] s live open' = (sym (append-nil s.sent), refl)
  write_task-signals acc (signal m ∷ ms) s live open' = ground (
    arith,
    acc m s.conn,
    write_task-signals acc ms (write_round socket (signal m) s).1,
    append_assoc s.sent (m ∷ []) (signals ms),
  )
  write_task-signals acc (pong payload ∷ ms) s live open' =
      ground (arith, write_task-signals acc ms (write_round socket (pong payload) s).1)
  write_task-signals acc (close ∷ ms) s live open' = absurd open'.0
