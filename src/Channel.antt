-- ===== src/Channel.antt =====
-- What the code uses of tokio's bounded channels and of a framed sink, neither of which is part of
-- the repository: the operations with the documented behaviour that the proofs rely on. `sent` is
-- the sequence of the messages that the channel has accepted.
pub mod Bounded
use iridium_stomp.Base.{ℕ, List, [], ◌∷◌, ◌++◌, Bool, true, false, ◌≡◌}

-- `Ok(())`, `Full` and `Closed`.
pub data TrySend : Type 0 where
  ok full closed : TrySend

pub record Mpsc (A : Type 0) : Type 1 where
  pub Sender : Type 0
  -- `try_send`: the sender afterwards, and the outcome.
  pub try_send : Sender → A → Sender × TrySend
  -- `send().await`, once it is over: whether the message was accepted.
  pub send : Sender → A → Sender × Bool
  pub sent : Sender → List A
  -- `channel(capacity)`
  pub channel : ℕ → Sender
  pub sent-channel : (capacity : ℕ) → sent (channel capacity) ≡ []
  pub try_send_ok :
      (s : Sender) (a : A) → (try_send s a).1 ≡ ok → sent (try_send s a).0 ≡ sent s ++ a ∷ []
  pub try_send_full :
      (s : Sender) (a : A) → (try_send s a).1 ≡ full → sent (try_send s a).0 ≡ sent s
  pub try_send_closed :
      (s : Sender) (a : A) → (try_send s a).1 ≡ closed → sent (try_send s a).0 ≡ sent s
  pub send_true : (s : Sender) (a : A) → (send s a).1 ≡ true → sent (send s a).0 ≡ sent s ++ a ∷ []
  pub send_false : (s : Sender) (a : A) → (send s a).1 ≡ false → sent (send s a).0 ≡ sent s
