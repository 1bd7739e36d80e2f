-- ===== src/Observer.antt =====
-- livekit-protocol/src/observer.rs: the dispatcher, by which a room reaches its subscribers. The
-- channels are known by numbers; a channel keeps what was sent on it, and is open while its receiver
-- is there.
mod Delivery
mod Examples
use livekit_rust.Base.{ℕ, suc, Bool, true, false, List, [], ◌∷◌, ◌++◌, if◌then◌else◌, nat_eq}

module _ (T : Type 0) where
  pub record Channel : Type 0 where
    pub open_end : Bool
    pub received : List T

  pub record Dispatcher : Type 0 where
    pub next : ℕ
    pub channels : ℕ → Channel
    pub senders : List ℕ

  abbrev pub put : ℕ → Channel → (ℕ → Channel) → ℕ → Channel
  put n c cs k = if nat_eq n k then c else cs k

  -- `Dispatcher::default()`
  unfoldable pub new : Dispatcher
  new = record {
    next = 0;
    channels = λ n. record { open_end = false; received = [] };
    senders = [];
  }

  -- `register` pushes the new sender; the receiver is the old `next`.
  unfoldable pub register : Dispatcher → Dispatcher
  register d = record {
    next = suc d.next;
    channels = put d.next (record { open_end = true; received = [] }) d.channels;
    senders = d.senders ++ d.next ∷ [];
  }

  -- `sender.send(msg)`
  unfoldable pub send : T → ℕ → (ℕ → Channel) → Bool × (ℕ → Channel)
  send m n cs =
      if (cs n).open_end
      then (true, put n (record { open_end = true; received = (cs n).received ++ m ∷ [] }) cs)
      else (false, cs)

  -- `retain(|sender| sender.send(msg.clone()).is_ok())`
  unfoldable pub retain : T → List ℕ → (ℕ → Channel) → List ℕ × (ℕ → Channel)
  unfolding send
  retain m [] cs = ([], cs)
  retain m (n ∷ ns) cs =
      let (fine, cs1) = send m n cs in
      let (rest, cs2) = retain m ns cs1 in (if fine then n ∷ rest else rest, cs2)

  unfoldable pub dispatch : T → Dispatcher → Dispatcher
  unfolding retain
  dispatch m d =
      let (senders, channels) = retain m d.senders d.channels in
      record d { senders = senders; channels = channels }

  unfoldable pub clear : Dispatcher → Dispatcher
  clear d = record d { senders = [] }

  -- A subscriber drops its receiver.
  unfoldable pub close_receiver : ℕ → Dispatcher → Dispatcher
  close_receiver n d = record d {
    channels = put n (record (d.channels n) { open_end = false }) d.channels;
  }

  -- What the room and its subscribers do, one after another.
  pub data Step : Type 0 where
    registers : Step
    dispatches : T → Step
    closes : ℕ → Step

  unfoldable pub step : Step → Dispatcher → Dispatcher
  unfolding register dispatch close_receiver
  step registers d = register d
  step (dispatches m) d = dispatch m d
  step (closes n) d = close_receiver n d

  unfoldable pub steps : List Step → Dispatcher → Dispatcher
  unfolding step
  steps [] d = d
  steps (s ∷ ss) d = steps ss (step s d)
