-- ===== src/Task/Delivering.antt =====
-- connection.rs: the pass that delivers a MESSAGE frame to its subscribers.
use iridium_stomp.Base.{
  ℕ, Bool, true, not, ◌&&◌, List, [], ◌∷◌, ◌++◌, Option, none, some, if◌then◌else◌, is_empty,
}
use iridium_stomp.Base.Maps
use iridium_stomp.Base.Text.Utf8.{Bytes}
use iridium_stomp.Client.{Links}
use iridium_stomp.Delivery.{SubscriptionEntry, Delivery, taken, closed, deliver_and_keep}
use iridium_stomp.Frame.{Frame}
use iridium_stomp.Registry.{Ends, end_subscription, Subscriptions, has_id, drop_empty}
use iridium_stomp.Subscription.{SubscriptionEnd}
use iridium_stomp.Task.{contains}
use iridium_stomp.Task.Message.{MessageIds}

-- The state that one pass over the subscribers changes. `overflowed` has the id, destination and
-- limit of each subscription that is to be failed.
pub record Pass : Type 0 where
  pub delivered : Bool
  pub overflowed : List (Bytes × Bytes × ℕ)
  pub ended : Ends
  pub parked : List Bytes

module _ (l : Links) where
  abbrev pub Entry : Type 0
  Entry = SubscriptionEntry l.frames.Sender

  -- What the pass does with the outcome of a delivery; the entry is kept if there is one.
  unfoldable pub after_delivery : Bytes → Entry × Delivery → Pass → Option Entry × Pass
  after_delivery dest (e, taken) p = (
    some e,
    record p {
      delivered = true;
      parked =
          if not (is_empty e.overflow.queue) && not (contains e.id p.parked)
          then p.parked ++ e.id ∷ []
          else p.parked;
    },
  )
  after_delivery dest (e, closed) p = (none, p)
  after_delivery dest (e, Delivery.overflowed) p = (
    none,
    record p {
      ended = end_subscription e.id (SubscriptionEnd.overflowed e.overflow.limit) p.ended;
      overflowed = p.overflowed ++ (e.id, dest, e.overflow.limit) ∷ [];
    },
  )

  unfoldable pub deliver_to : Frame → Bytes → Entry → Pass → Option Entry × Pass
  unfolding after_delivery
  deliver_to f dest e p = after_delivery dest (deliver_and_keep l.frames e f) p

  abbrev pub keep : Option Entry → List Entry → List Entry
  keep none es = es
  keep (some e) es = e ∷ es

  -- `retain_mut` over the entries that pass the test; the others stay.
  unfoldable pub deliver_each :
      Frame → Bytes → (Entry → Bool) → List Entry → Pass → List Entry × Pass
  unfolding deliver_to
  deliver_each f dest test [] p = ([], p)
  deliver_each f dest test (e ∷ es) p =
      let (kept, q) = if test e then deliver_to f dest e p else (some e, p) in
      let (rest, r) = deliver_each f dest test es q in (keep kept rest, r)

  -- The pass for a message that names its subscription: over every destination.
  unfoldable pub deliver_by_id :
      Frame → Bytes → Subscriptions l.frames.Sender → Pass → Subscriptions l.frames.Sender × Pass
  unfolding deliver_each
  deliver_by_id f id [] p = ([], p)
  deliver_by_id f id ((dest, vec) ∷ m) p =
      let (kept, q) = deliver_each f dest (has_id id) vec p in
      let (rest, r) = deliver_by_id f id m q in ((dest, kept) ∷ rest, r)

  abbrev pub put_entries :
      Bytes → List Entry → Subscriptions l.frames.Sender → Subscriptions l.frames.Sender
  put_entries dest vec m = if is_empty vec then Maps.remove dest m else Maps.insert dest vec m

  -- The pass for a message without a subscription: over the entries of its destination.
  unfoldable pub deliver_by_destination :
      Frame → Bytes → Subscriptions l.frames.Sender → Pass → Subscriptions l.frames.Sender × Pass
  unfolding deliver_each
  deliver_by_destination f dest m p = elim (Maps.get dest m) [
    | none ↦ (m, p)
    | some vec ↦
        let (kept, q) = deliver_each f dest (λ e. true) vec p in (put_entries dest kept m, q)
  ]

  unfoldable pub deliver_all :
      Frame
      → MessageIds
      → Subscriptions l.frames.Sender
      → Pass
      → Subscriptions l.frames.Sender × Pass
  unfolding deliver_by_id deliver_by_destination
  deliver_all f ids m p = elim ids.subscription [
    | some id ↦ let (rest, q) = deliver_by_id f id m p in (drop_empty rest, q)
    | none ↦ elim ids.destination [ some dest ↦ deliver_by_destination f dest m p | none ↦ (m, p) ]
  ]
