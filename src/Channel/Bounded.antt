-- ===== src/Channel/Bounded.antt =====
-- A bounded channel that nobody reads: it shows that the interface can be met, and runs the tests.
use iridium_stomp.Base.{
  ℕ, List, [], ◌∷◌, ◌++◌, Bool, true, false, ◌≡◌, refl, arith, ltb, if◌then◌else◌, length,
}
use iridium_stomp.Channel.{TrySend, ok, full, closed, Mpsc}

pub record Bounded (A : Type 0) : Type 0 where
  pub accepted : List A
  pub capacity : ℕ
  pub open? : Bool

module _ {A : Type 0} where
  abbrev pub try_push : Bounded A → A → Bounded A × TrySend
  try_push b a =
      if b.open?
      then (if ltb (length b.accepted) b.capacity
          then (record b { accepted = b.accepted ++ a ∷ [] }, ok)
          else (b, full))
      else (b, closed)

  -- Waits for room that a reader makes.
  abbrev pub push : Bounded A → A → Bounded A × Bool
  push b a = if b.open? then (record b { accepted = b.accepted ++ a ∷ [] }, true) else (b, false)

  pub try_push_ok :
      (s : Bounded A) (a : A)
      → (try_push s a).1 ≡ ok
      → (try_push s a).0.accepted ≡ s.accepted ++ a ∷ []
  try_push_ok s a h = ground arith

  pub try_push_full :
      (s : Bounded A) (a : A) → (try_push s a).1 ≡ full → (try_push s a).0.accepted ≡ s.accepted
  try_push_full s a h = ground arith

  pub try_push_closed :
      (s : Bounded A) (a : A) → (try_push s a).1 ≡ closed → (try_push s a).0.accepted ≡ s.accepted
  try_push_closed s a h = ground arith

  pub push-true :
      (s : Bounded A) (a : A) → (push s a).1 ≡ true → (push s a).0.accepted ≡ s.accepted ++ a ∷ []
  push-true s a h = ground arith

  pub push-false :
      (s : Bounded A) (a : A) → (push s a).1 ≡ false → (push s a).0.accepted ≡ s.accepted
  push-false s a h = ground arith

abbrev pub bounded : (A : Type 0) → Mpsc A
bounded A = record {
  Sender = Bounded A;
  try_send = try_push;
  send = push;
  sent = λ b. b.accepted;
  channel = λ n. record { accepted = []; capacity = n; open? = true };
  sent-channel = λ n. refl;
  try_send_ok = try_push_ok;
  try_send_full = try_push_full;
  try_send_closed = try_push_closed;
  send_true = push-true;
  send_false = push-false;
}
