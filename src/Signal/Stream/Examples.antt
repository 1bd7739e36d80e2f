-- ===== src/Signal/Stream/Examples.antt =====
-- signal_stream.rs with a socket that refuses pongs, and a run of the read task.
use livekit_rust.Base.{ℕ, ◌≡◌, refl, Bool, true, false, [], ◌∷◌, some}
use livekit_rust.Signal.Message
use livekit_rust.Signal.Message.{Request, Response}
use livekit_rust.Signal.Stream
use livekit_rust.Signal.Stream.{
  Socket, Frame, Stream, binary, pong_frame, open_stream, write_task, read_task, incoming, ping,
  closing, Read,
}

abbrev write_half : Frame ℕ → ℕ → Bool × ℕ
write_half (binary m) n = (true, n)
write_half (pong_frame payload) n = (false, n)

abbrev half : Socket ℕ
half = record { Conn = ℕ; write = write_half }

read_task_test :
    read_task half
      (λ l. some (Message.pong 1))
      (incoming [] ∷ ping (3 ∷ []) ∷ closing ∷ incoming [] ∷ [])
    ≡ record {
      responses = Message.pong 1 ∷ [];
      internal = Stream.pong (3 ∷ []) ∷ Stream.close ∷ [];
      panicked = false;
    }
unfolding read_task
read_task_test = refl
