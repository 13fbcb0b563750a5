-- ===== src/Delivery/Warnings.antt =====
-- The parked queue stays within its limit, and the loop that doubles the mark ends.
use iridium_stomp.Base.{
  ℕ, zero, suc, ◌+◌, ◌*◌, ◌≤◌, ◌<◌, Bool, true, false, [], ◌∷◌, ◌++◌, ◌≡◌, ◌⊎◌, inl, inr, arith,
  leb, if◌then◌else◌, Bool-cases, length, length-append, is_empty,
}
use iridium_stomp.Channel.{Mpsc}
use iridium_stomp.Frame.{Frame}
use iridium_stomp.Delivery.Order.{length-drain-le}
use iridium_stomp.Delivery.{
  Overflow, new_overflow, SubscriptionEntry, double_past, mark_depth, drain_overflow, park, parked,
  offer, deliver_drained, deliver_and_keep,
}

-- From a mark of at least 1, so many rounds as the depth has above it take the mark past the depth.
double_past_lem : (fuel w depth : ℕ) → 0 < w → depth < fuel + w → depth < double_past fuel w depth
unfolding double_past
double_past_lem zero w depth h k = omega arith
double_past_lem (suc fuel) w depth h k = ground (arith, double_past_lem fuel (w * 2) depth)

-- The queue fits its limit, and during an episode the next mark is beyond its depth, as the loop in
-- `park` leaves it.
pub record IsBounded (o : Overflow) : Type 0 where
  pub within : length o.queue ≤ o.limit
  pub room : 0 < o.capacity
  pub marked : (o.warned ≡ false) ⊎ (length o.queue < o.warn_at)

pub new_overflow-IsBounded : (limit capacity : ℕ) → IsBounded (new_overflow limit capacity)
unfolding new_overflow
new_overflow-IsBounded limit capacity = ground arith

mark_depth-IsBounded :
    (o : Overflow) (depth : ℕ)
    → length o.queue ≡ depth
    → depth ≤ o.limit
    → 0 < o.capacity
    → (o.warned ≡ false) ⊎ (0 < o.warn_at)
    → IsBounded (mark_depth o depth)
unfolding mark_depth
mark_depth-IsBounded o depth e within room marked = record {
  within = omega arith;
  room = room;
  marked = inr (rw e (double_past_lem (suc depth) start depth start_pos (omega arith)));
}
  where
    start : ℕ
    start = if o.warned then o.warn_at else o.capacity

    start_pos : 0 < start
    start_pos = ground (arith, marked)

module _ (ch : Mpsc Frame) where
  open ch use {Sender, try_send}

  abbrev pub Holds : SubscriptionEntry Sender → Type 0
  Holds e = IsBounded e.overflow

  pub drain_overflow-IsBounded :
      (e : SubscriptionEntry Sender) → Holds e → Holds (drain_overflow ch e).0
  unfolding drain_overflow
  drain_overflow-IsBounded e h =
      ground (arith, length-drain-le ch e.sender e.overflow.queue, h.marked)

  park-IsBounded :
      (e : SubscriptionEntry Sender) (f : Frame) → Holds e → Holds (parked ch (park ch e f)).0
  unfolding park
  park-IsBounded e f h = elim (Bool-cases (leb e.overflow.limit (length e.overflow.queue))) [
    | inl at_limit ↦ rw (at_limit, park) h
    | inr room ↦
        rw (room, park)
          (mark_depth-IsBounded (record e.overflow { queue = e.overflow.queue ++ f ∷ [] })
            (length e.overflow.queue + 1) (length-append e.overflow.queue (f ∷ [])) (ground arith)
            h.room (ground (arith, h.marked)))
  ]

  offer-IsBounded : (e : SubscriptionEntry Sender) (f : Frame) → Holds e → Holds (offer ch e f).0
  unfolding offer
  offer-IsBounded e f h =
      ground (arith, park-IsBounded (record e { sender = (try_send e.sender f).0 }) f h)

  deliver_drained-IsBounded :
      (r : SubscriptionEntry Sender × Bool) (f : Frame)
      → Holds r.0
      → Holds (deliver_drained ch r f).0
  unfolding deliver_drained
  deliver_drained-IsBounded (e, false) f h = h
  deliver_drained-IsBounded (e, true) f h = elim (Bool-cases (is_empty e.overflow.queue)) [
    | inl empty ↦ rw empty (offer-IsBounded e f h)
    | inr busy ↦ rw busy (park-IsBounded e f h)
  ]

  -- Whatever becomes of the frame, a delivery to an entry whose parked queue is within its limit, and
  -- whose next mark is beyond its depth once it has warned, leaves it so: the queue does not
  -- outgrow the limit, and the loop that moves the mark has ended beyond the depth.
  pub deliver_and_keep-IsBounded :
      (e : SubscriptionEntry Sender) (f : Frame) → Holds e → Holds (deliver_and_keep ch e f).0
  unfolding deliver_and_keep
  deliver_and_keep-IsBounded e f h =
      deliver_drained-IsBounded (drain_overflow ch e) f (drain_overflow-IsBounded e h)
