-- ===== src/Delivery/Order.antt =====
-- An entry with its channel and its parked frames is one queue: no frame is lost or overtaken.
use iridium_stomp.Base.{
  ◌≤◌, Bool, true, false, List, [], ◌∷◌, ◌++◌, ◌≡◌, refl, sym, ◌⊎◌, inl, inr, append_assoc,
  append-nil, arith, leb, leb→le, Bool-cases, length, is_empty,
}
use iridium_stomp.Channel.{TrySend, Mpsc}
use iridium_stomp.Frame.{Frame}
use iridium_stomp.Delivery.{
  SubscriptionEntry, Delivery, taken, closed, overflowed, mark_depth, drain, drain_overflow, park,
  parked, offer, deliver_drained, deliver_and_keep,
}

TrySend-cases : (o : TrySend) → (o ≡ TrySend.ok) ⊎ (o ≡ TrySend.full) ⊎ (o ≡ TrySend.closed)
TrySend-cases TrySend.ok = inl refl
TrySend-cases TrySend.full = inr (inl refl)
TrySend-cases TrySend.closed = inr (inr refl)

module _ (ch : Mpsc Frame) where
  open ch use {Sender, try_send, sent}

  -- Every frame that the entry has taken, oldest first: those in the channel, then those parked.
  abbrev pub stream : SubscriptionEntry Sender → List Frame
  stream e = sent e.sender ++ e.overflow.queue

  drain-stream :
      (s : Sender) (q : List Frame)
      → (drain ch s q).2 ≡ true
      → sent (drain ch s q).0 ++ (drain ch s q).1 ≡ sent s ++ q
  unfolding drain
  drain-stream s [] live = refl
  drain-stream s (f ∷ q) live = ground (
    arith,
    drain-stream (try_send s f).0 q,
    ch.try_send_ok s f,
    ch.try_send_full s f,
    append_assoc (sent s) (f ∷ []) q,
  )

  pub length-drain-le : (s : Sender) (q : List Frame) → length (drain ch s q).1 ≤ length q
  unfolding drain
  length-drain-le s [] = omega arith
  length-drain-le s (f ∷ q) = ground (arith, length-drain-le (try_send s f).0 q)

  drain_overflow-stream :
      (e : SubscriptionEntry Sender)
      → (drain_overflow ch e).1 ≡ true
      → stream (drain_overflow ch e).0 ≡ stream e
  unfolding drain_overflow
  drain_overflow-stream e live = ground (arith, drain-stream e.sender e.overflow.queue)

  -- What a delivery does to the stream: a frame that is taken joins its end, and one that is
  -- refused leaves it as it was.
  abbrev pub Streams : List Frame → Frame → SubscriptionEntry Sender × Delivery → Type 0
  Streams before f (e, taken) = stream e ≡ before ++ f ∷ []
  Streams before f (e, closed) = Unit
  Streams before f (e, overflowed) =
      (stream e ≡ before) × (e.overflow.limit ≤ length e.overflow.queue)

  park-Streams :
      (e : SubscriptionEntry Sender) (f : Frame) → Streams (stream e) f (parked ch (park ch e f))
  unfolding park mark_depth
  park-Streams e f = elim (Bool-cases (leb e.overflow.limit (length e.overflow.queue))) [
    | inl at_limit ↦ rw (at_limit, park) (refl, leb→le _ _ at_limit)
    | inr room ↦ rw (room, park) (sym (append_assoc (sent e.sender) e.overflow.queue (f ∷ [])))
  ]

  offer-Streams :
      (e : SubscriptionEntry Sender) (f : Frame)
      → e.overflow.queue ≡ []
      → Streams (stream e) f (offer ch e f)
  unfolding offer
  offer-Streams e f empty = elim (TrySend-cases (try_send e.sender f).1) [
    | inl accepted ↦
        rw (accepted, offer)
          (ground (
            arith,
            ch.try_send_ok e.sender f accepted,
            append-nil (sent e.sender),
            append-nil (sent (try_send e.sender f).0),
          ))
    | inr (inl busy) ↦
        rw (busy, offer)
          (rw (ch.try_send_full e.sender f busy) at
            (park-Streams (record e { sender = (try_send e.sender f).0 }) f))
    | inr (inr dead) ↦ rw (dead, offer) tt
  ]

  deliver_drained-Streams :
      (r : SubscriptionEntry Sender × Bool) (f : Frame)
      → Streams (stream r.0) f (deliver_drained ch r f)
  unfolding deliver_drained
  deliver_drained-Streams (e, false) f = tt
  deliver_drained-Streams (e, true) f = elim (Bool-cases (is_empty e.overflow.queue)) [
    | inl empty ↦ rw empty (offer-Streams e f (ground arith))
    | inr busy ↦ rw busy (park-Streams e f)
  ]

  deliver_drained-closed :
      (before : List Frame) (r : SubscriptionEntry Sender × Bool) (f : Frame)
      → r.1 ≡ false
      → Streams before f (deliver_drained ch r f)
  unfolding deliver_drained
  deliver_drained-closed before (e, false) f h = tt
  deliver_drained-closed before (e, true) f h = cc

  -- Delivering a frame appends it to the end of the entry's queue, its channel and the parked
  -- frames together, if the frame is taken, so that nothing is lost or overtaken. A frame that is
  -- refused because the entry overflowed changes nothing, and then the parked frames are at the
  -- limit or past it.
  pub deliver_and_keep-Streams :
      (e : SubscriptionEntry Sender) (f : Frame) → Streams (stream e) f (deliver_and_keep ch e f)
  unfolding deliver_and_keep
  deliver_and_keep-Streams e f = elim (Bool-cases (drain_overflow ch e).1) [
    | inl live ↦
        rw (drain_overflow-stream e live) at (deliver_drained-Streams (drain_overflow ch e) f)
    | inr dead ↦ deliver_drained-closed (stream e) (drain_overflow ch e) f dead
  ]
