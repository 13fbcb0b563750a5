-- ===== src/Task/Registered.antt =====
-- How many entries have an id, over the passes of the task over the registry.
pub mod Unique
pub mod Events
use iridium_stomp.Base.{
  ℕ, ◌+◌, ◌≤◌, Bool, true, false, List, [], ◌∷◌, ◌≡◌, refl, inl, inr, arith, Bool-cases, Option,
  none, some, Option-cases,
}
use iridium_stomp.Base.Maps
use iridium_stomp.Base.Text.Utf8.{Bytes}
use iridium_stomp.Client.{Links}
use iridium_stomp.Delivery.{
  Delivery, taken, closed, overflowed, deliver_and_keep, deliver_drained, offer, park,
  drain_overflow,
}
use iridium_stomp.Frame.{Frame}
use iridium_stomp.Registry.{Subscriptions, has_id}
use iridium_stomp.Registry.Copies.{
  one, copies_in, copies, copies-insert, copies-remove_le, copies-drop_empty_le,
}
use iridium_stomp.Task.Delivering.{
  Pass, Entry, after_delivery, deliver_to, keep, deliver_each, deliver_by_id,
  deliver_by_destination, deliver_all,
}
use iridium_stomp.Task.Lifecycle.{drain_each, drain_all}
use iridium_stomp.Task.Message.{MessageIds}

module _ (l : Links) where
  drain_overflow-id : (e : Entry l) → (drain_overflow l.frames e).0.id ≡ e.id
  unfolding drain_overflow
  drain_overflow-id e = refl

  deliver_and_keep-id : (e : Entry l) (f : Frame) → (deliver_and_keep l.frames e f).0.id ≡ e.id
  unfolding deliver_and_keep deliver_drained drain_overflow offer park
  deliver_and_keep-id e f = ground arith

  module _ (id : Bytes) where
    abbrev kept : Option (Entry l) → ℕ
    kept none = 0
    kept (some e) = one id e

    copies_in-keep :
        (o : Option (Entry l)) (es : List (Entry l))
        → copies_in id (keep l o es) ≡ kept o + copies_in id es
    copies_in-keep none es = omega arith
    copies_in-keep (some e) es = refl

    after_delivery_le :
        (dest : Bytes) (r : Entry l × Delivery) (p : Pass)
        → kept (after_delivery l dest r p).0 ≤ one id r.0
    unfolding after_delivery
    after_delivery_le dest (e, taken) p = omega arith
    after_delivery_le dest (e, closed) p = omega arith
    after_delivery_le dest (e, overflowed) p = omega arith

    one-deliver_and_keep :
        (e : Entry l) (f : Frame) → one id (deliver_and_keep l.frames e f).0 ≡ one id e
    one-deliver_and_keep e f = rw (deliver_and_keep-id e f) refl

    deliver_each_le :
        (f : Frame) (dest : Bytes) (test : Entry l → Bool) (es : List (Entry l)) (p : Pass)
        → copies_in id (deliver_each l f dest test es p).0 ≤ copies_in id es
    unfolding deliver_each deliver_to
    deliver_each_le f dest test [] p = omega arith
    deliver_each_le f dest test (e ∷ es) p = elim (Bool-cases (test e)) [
      | inl passes ↦
          let first = after_delivery l dest (deliver_and_keep l.frames e f) p in
          rw (passes, deliver_each)
            (omega (
              arith,
              copies_in-keep first.0 (deliver_each l f dest test es first.1).0,
              after_delivery_le dest (deliver_and_keep l.frames e f) p,
              one-deliver_and_keep e f,
              deliver_each_le f dest test es first.1,
            ))
      | inr fails ↦ rw (fails, deliver_each) (omega (arith, deliver_each_le f dest test es p))
    ]

    deliver_by_id_le :
        (f : Frame) (j : Bytes) (m : Subscriptions l.frames.Sender) (p : Pass)
        → copies id (deliver_by_id l f j m p).0 ≤ copies id m
    unfolding deliver_by_id
    deliver_by_id_le f j [] p = omega arith
    deliver_by_id_le f j ((dest, vec) ∷ m) p = omega (
      arith,
      deliver_each_le f dest (has_id j) vec p,
      deliver_by_id_le f j m (deliver_each l f dest (has_id j) vec p).1,
    )

    deliver_by_destination_le :
        (f : Frame) (dest : Bytes) (m : Subscriptions l.frames.Sender) (p : Pass)
        → copies id (deliver_by_destination l f dest m p).0 ≤ copies id m
    unfolding deliver_by_destination
    deliver_by_destination_le f dest m p = elim (Option-cases (Maps.get dest m)) [
      | inl e ↦ rw (e, deliver_by_destination) (omega arith)
      | inr (vec, e) ↦
          let left = (deliver_each l f dest (λ e. true) vec p).0 in
          rw (e, deliver_by_destination)
            (ground (
              arith,
              rw e at (copies-insert id dest left m),
              copies-remove_le id dest m,
              deliver_each_le f dest (λ e. true) vec p,
            ))
    ]

    pub deliver_all_le :
        (f : Frame) (ids : MessageIds) (m : Subscriptions l.frames.Sender) (p : Pass)
        → copies id (deliver_all l f ids m p).0 ≤ copies id m
    unfolding deliver_all
    deliver_all_le f ids m p = elim (Option-cases ids.subscription) [
      | inr (j, e) ↦
          rw (e, deliver_all)
            (omega (
              arith,
              copies-drop_empty_le id (deliver_by_id l f j m p).0,
              deliver_by_id_le f j m p,
            ))
      | inl e ↦ elim (Option-cases ids.destination) [
        | inl n ↦ rw (e, n, deliver_all) (omega arith)
        | inr (dest, n) ↦ rw (e, n, deliver_all) (deliver_by_destination_le f dest m p)
      ]
    ]

    one-drain_overflow : (e : Entry l) → one id (drain_overflow l.frames e).0 ≡ one id e
    one-drain_overflow e = rw (drain_overflow-id e) refl

    drain_each_le :
        (j : Bytes) (es : List (Entry l)) (was_closed : Bool)
        → copies_in id (drain_each l j es was_closed).0 ≤ copies_in id es
    unfolding drain_each
    drain_each_le j [] was_closed = omega arith
    drain_each_le j (e ∷ es) was_closed = ground (
      arith,
      one-drain_overflow e,
      drain_each_le j es true,
      drain_each_le j es false,
      drain_each_le j es was_closed,
    )

    pub drain_all_le :
        (j : Bytes) (m : Subscriptions l.frames.Sender) (was_closed : Bool)
        → copies id (drain_all l j m was_closed).0 ≤ copies id m
    unfolding drain_all
    drain_all_le j [] was_closed = omega arith
    drain_all_le j ((dest, vec) ∷ m) was_closed =
        omega (
          arith,
          drain_each_le j vec was_closed,
          drain_all_le j m (drain_each l j vec was_closed).1,
        )
