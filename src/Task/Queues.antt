-- ===== src/Task/Queues.antt =====
-- The parked queues of all subscriptions, over the task's passes.
pub mod Events
use iridium_stomp.Base.{
  Bool, true, false, not, List, [], ◌∷◌, ◌≡◌, refl, inl, inr, arith, if◌then◌else◌, Bool-cases, All,
  Option, none, some, Option-cases, unwrap_or, is_empty, length,
}
use iridium_stomp.Base.Maps
use iridium_stomp.Base.Maps.Queues.{AllIn-get, AllIn-insert, AllIn-remove}
use iridium_stomp.Base.Text.Utf8.{Bytes}
use iridium_stomp.Client.{Links}
use iridium_stomp.Delivery.{
  SubscriptionEntry, Delivery, taken, closed, overflowed, deliver_and_keep, drain_overflow,
}
use iridium_stomp.Delivery.Warnings.{Holds, deliver_and_keep-IsBounded, drain_overflow-IsBounded}
use iridium_stomp.Frame.{Frame}
use iridium_stomp.Registry.{Subscriptions, discard, has_id, drop_empty}
use iridium_stomp.Registry.Entries.{AllEntries, drop_empty-AllEntries}
use iridium_stomp.Task.Delivering.{
  Pass, Entry, after_delivery, deliver_to, keep, deliver_each, deliver_by_id, put_entries,
  deliver_by_destination, deliver_all,
}
use iridium_stomp.Task.{Task}
use iridium_stomp.Task.Lifecycle.{drain_each, drain_all}
use iridium_stomp.Task.Message.{MessageIds}

module _ (l : Links) where
  -- Every registered subscription's parked queue is within its limit.
  abbrev pub AllBounded : Subscriptions l.frames.Sender → Type 0
  AllBounded m = AllEntries (Holds l.frames) m

  abbrev pub IsBounded : Task l → Type 0
  IsBounded t = AllBounded t.client.subscriptions

  abbrev Kept : Option (Entry l) → Type 0
  Kept none = Unit
  Kept (some e) = Holds l.frames e

  after_delivery-Kept :
      (dest : Bytes) (r : Entry l × Delivery) (p : Pass)
      → Holds l.frames r.0
      → Kept (after_delivery l dest r p).0
  unfolding after_delivery
  after_delivery-Kept dest (e, taken) p h = h
  after_delivery-Kept dest (e, closed) p h = tt
  after_delivery-Kept dest (e, overflowed) p h = tt

  keep-All :
      (o : Option (Entry l)) (es : List (Entry l))
      → Kept o
      → All (Holds l.frames) es
      → All (Holds l.frames) (keep l o es)
  keep-All none es ho h = h
  keep-All (some e) es ho h = (ho, h)

  deliver_each-All :
      (f : Frame) (dest : Bytes) (test : Entry l → Bool) (es : List (Entry l)) (p : Pass)
      → All (Holds l.frames) es
      → All (Holds l.frames) (deliver_each l f dest test es p).0
  unfolding deliver_each deliver_to
  deliver_each-All f dest test [] p h = tt
  deliver_each-All f dest test (e ∷ es) p h = elim (Bool-cases (test e)) [
    | inl passes ↦
        rw (passes, deliver_each)
          (keep-All _ _
            (after_delivery-Kept dest (deliver_and_keep l.frames e f) p
              (deliver_and_keep-IsBounded l.frames e f h.0))
            (deliver_each-All f dest test es _ h.1))
    | inr fails ↦ rw (fails, deliver_each) (h.0, deliver_each-All f dest test es p h.1)
  ]

  deliver_by_id-AllBounded :
      (f : Frame) (id : Bytes) (m : Subscriptions l.frames.Sender) (p : Pass)
      → AllBounded m
      → AllBounded (deliver_by_id l f id m p).0
  unfolding deliver_by_id
  deliver_by_id-AllBounded f id [] p h = tt
  deliver_by_id-AllBounded f id ((dest, vec) ∷ m) p h =
      (deliver_each-All f dest (has_id id) vec p h.0, deliver_by_id-AllBounded f id m _ h.1)

  deliver_by_destination-AllBounded :
      (f : Frame) (dest : Bytes) (m : Subscriptions l.frames.Sender) (p : Pass)
      → AllBounded m
      → AllBounded (deliver_by_destination l f dest m p).0
  unfolding deliver_by_destination
  deliver_by_destination-AllBounded f dest m p h = elim (Option-cases (Maps.get dest m)) [
    | inl e ↦ rw (e, deliver_by_destination) h
    | inr (vec, e) ↦
        let kept =
          deliver_each-All f dest (λ e. true) vec p
            (rw e at (AllIn-get (Holds l.frames) dest m h)) in
        rw (e, deliver_by_destination)
          (ground (
            arith,
            AllIn-remove (Holds l.frames) dest m h,
            AllIn-insert (Holds l.frames) dest (deliver_each l f dest (λ e. true) vec p).0 m kept h,
          ))
  ]

  pub deliver_all-AllBounded :
      (f : Frame) (ids : MessageIds) (m : Subscriptions l.frames.Sender) (p : Pass)
      → AllBounded m
      → AllBounded (deliver_all l f ids m p).0
  unfolding deliver_all
  deliver_all-AllBounded f ids m p h = elim (Option-cases ids.subscription) [
    | inr (id, e) ↦
        rw (e, deliver_all)
          (drop_empty-AllEntries (Holds l.frames) _ (deliver_by_id-AllBounded f id m p h))
    | inl e ↦ elim (Option-cases ids.destination) [
      | inl n ↦ rw (e, n, deliver_all) h
      | inr (dest, n) ↦ rw (e, n, deliver_all) (deliver_by_destination-AllBounded f dest m p h)
    ]
  ]

  drain_each-All :
      (id : Bytes) (es : List (Entry l)) (was_closed : Bool)
      → All (Holds l.frames) es
      → All (Holds l.frames) (drain_each l id es was_closed).0
  unfolding drain_each
  drain_each-All id [] was_closed h = tt
  drain_each-All id (e ∷ es) was_closed h = ground (
    arith,
    drain_overflow-IsBounded l.frames e h.0,
    drain_each-All id es true h.1,
    drain_each-All id es false h.1,
    drain_each-All id es was_closed h.1,
  )

  pub drain_all-AllBounded :
      (id : Bytes) (m : Subscriptions l.frames.Sender) (was_closed : Bool)
      → AllBounded m
      → AllBounded (drain_all l id m was_closed).0
  unfolding drain_all
  drain_all-AllBounded id [] was_closed h = tt
  drain_all-AllBounded id ((dest, vec) ∷ m) was_closed h =
      (drain_each-All id vec was_closed h.0, drain_all-AllBounded id m _ h.1)

  pub discard-Holds : (e : Entry l) → Holds l.frames e → Holds l.frames (discard e)
  discard-Holds e h = ground (arith, h.within, h.room, h.marked)
