-- ===== src/Delivery.antt =====
-- connection.rs: a subscription's registry entry, the queue of frames parked behind its full
-- channel, and the delivery of a frame to it. What the code logs is left out. The cell `ended` that
-- an entry shares with its handle is kept by the connection's state, by subscription id.
pub mod Order
pub mod Warnings
use iridium_stomp.Base.{
  ℕ, zero, suc, ◌+◌, ◌*◌, max, Bool, true, false, not, ◌&&◌, List, [], ◌∷◌, ◌++◌, leb,
  if◌then◌else◌, length, is_empty,
}
use iridium_stomp.Base.Text.Utf8.{Bytes}
use iridium_stomp.Channel.{TrySend, Mpsc}
use iridium_stomp.Frame.{Frame, Header}
use iridium_stomp.Subscription.{AckMode}

pub record Overflow : Type 0 where
  pub queue : List Frame
  pub limit : ℕ
  pub capacity : ℕ
  pub warned : Bool
  pub warn_at : ℕ

unfoldable pub new_overflow : ℕ → ℕ → Overflow
new_overflow limit capacity = record {
  queue = [];
  limit = limit;
  capacity = max capacity 1;
  warned = false;
  warn_at = 0;
}

abbrev pub reset_warnings : Overflow → Overflow
reset_warnings o = record o { warned = false; warn_at = 0 }

pub record SubscriptionEntry (Sender : Type 0) : Type 0 where
  pub id : Bytes
  pub sender : Sender
  pub ack : AckMode
  pub headers : List Header
  pub overflow : Overflow

pub data Delivery : Type 0 where
  taken closed overflowed : Delivery

-- `while warn_at <= depth { warn_at *= 2 }`, for so many rounds at most.
unfoldable pub double_past : ℕ → ℕ → ℕ → ℕ
double_past zero warn_at depth = warn_at
double_past (suc fuel) warn_at depth = elim (leb warn_at depth) [
  | true ↦ double_past fuel (warn_at * 2) depth
  | false ↦ warn_at
]

-- The marks of a parking episode, for a queue that is now `depth` long. A mark of at least 1 is
-- past `depth` after `depth` doublings (`double_past_lem`).
unfoldable pub mark_depth : Overflow → ℕ → Overflow
unfolding double_past
mark_depth o depth =
    let start : ℕ = if o.warned then o.warn_at else o.capacity in
    record o { warned = true; warn_at = double_past (suc depth) start depth }

module _ (ch : Mpsc Frame) where
  open ch use {Sender, try_send}

  -- The loop of `drain_overflow`: what is left of the queue, and whether the channel is open.
  unfoldable pub drain : Sender → List Frame → Sender × List Frame × Bool
  drain s [] = (s, [], true)
  drain s (parked ∷ queue) =
      let (t, outcome) = try_send s parked in
      elim outcome [
        | TrySend.ok ↦ drain t queue
        | TrySend.full ↦ (t, parked ∷ queue, true)
        | TrySend.closed ↦ (t, [], false)
      ]

  unfoldable pub drain_overflow : SubscriptionEntry Sender → SubscriptionEntry Sender × Bool
  unfolding drain
  drain_overflow e =
      let (s, queue, live) = drain e.sender e.overflow.queue in
      let o : Overflow = record e.overflow { queue = queue } in
      (
        record e { sender = s; overflow = if live && is_empty queue then reset_warnings o else o },
        live,
      )

  unfoldable pub park : SubscriptionEntry Sender → Frame → SubscriptionEntry Sender × Bool
  unfolding mark_depth
  park e f = if leb e.overflow.limit (length e.overflow.queue) then (e, false) else (
    record e {
      overflow =
          mark_depth (record e.overflow { queue = e.overflow.queue ++ f ∷ [] })
            (length e.overflow.queue + 1);
    },
    true,
  )

  abbrev pub parked : SubscriptionEntry Sender × Bool → SubscriptionEntry Sender × Delivery
  parked (e, true) = (e, taken)
  parked (e, false) = (e, overflowed)

  -- Offer the frame to the channel of an entry that has nothing parked.
  unfoldable pub offer : SubscriptionEntry Sender → Frame → SubscriptionEntry Sender × Delivery
  unfolding park
  offer e f =
      let (t, outcome) = try_send e.sender f in
      elim outcome [
        | TrySend.ok ↦ (record e { sender = t }, taken)
        | TrySend.full ↦ parked (park (record e { sender = t }) f)
        | TrySend.closed ↦ (record e { sender = t }, closed)
      ]

  unfoldable pub deliver_drained :
      SubscriptionEntry Sender × Bool → Frame → SubscriptionEntry Sender × Delivery
  unfolding offer
  deliver_drained (e, false) f = (e, closed)
  deliver_drained (e, true) f = if is_empty e.overflow.queue then offer e f else parked (park e f)

  unfoldable pub deliver_and_keep :
      SubscriptionEntry Sender → Frame → SubscriptionEntry Sender × Delivery
  unfolding deliver_drained drain_overflow
  deliver_and_keep e f = deliver_drained (drain_overflow e) f
