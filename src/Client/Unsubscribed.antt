-- ===== src/Client/Unsubscribed.antt =====
-- What unsubscribing does.
use iridium_stomp.Base.{
  true, false, ◌≡◌, ◌⊎◌, refl, inl, inr, none, some, err, if◌then◌else◌, unwrap_or, Bool-cases,
}
use iridium_stomp.Base.Maps
use iridium_stomp.Base.Maps.Laws.{get-remove}
use iridium_stomp.Base.Text.Utf8.{Bytes, codes, bytes_eq}
use iridium_stomp.Client.{Links, Client, Outcome, enqueue}
use iridium_stomp.Client.Sending.{queued, Queues, enqueue-Queues}
use iridium_stomp.Client.Subscribing.{unsubscribe, unsubscribe_frame}
use iridium_stomp.Codec.{frame}
use iridium_stomp.Outbound.{item}
use iridium_stomp.Registry.{end_subscription, is_registered, remove_subscription}
use iridium_stomp.Registry.Endings.{get-end_subscription}
use iridium_stomp.Registry.Removal.{OnceEach, is_registered-remove_subscription}
use iridium_stomp.ServerError.{protocol}
use iridium_stomp.Subscription.{SubscriptionEnd}

module _ (l : Links) where
  -- The id was registered and the broker is told; or it was not, and the call fails with that.
  abbrev pub Unsubscribes : Bytes → Client l → Outcome l Unit → Type 0
  Unsubscribes id c r =
      ((is_registered id c.subscriptions ≡ true)
        × Queues l (item (frame (unsubscribe_frame id))) c r
        × ((j : Bytes)
            → Maps.get j r.0.pending ≡ (if bytes_eq id j then none else Maps.get j c.pending))
        × ((j : Bytes)
            → Maps.get j r.0.ended ≡ (
                if bytes_eq id j
                then some (unwrap_or (Maps.get j c.ended) SubscriptionEnd.unsubscribed)
                else Maps.get j c.ended)))
      ⊎ ((is_registered id c.subscriptions ≡ false)
          × (r.1 ≡ err (protocol (codes "subscription id not found")))
          × (queued l r.0 ≡ queued l c)
          × (r.0.pending ≡ c.pending)
          × (r.0.ended ≡ c.ended))

  -- Unsubscribing an id that no destination has twice takes it from the registry and leaves the
  -- others there. If it was registered, nothing is pending for it, its handle's reason is
  -- `unsubscribed` unless it had one, and an UNSUBSCRIBE is queued, or the channel to the task is
  -- closed. If it was not, the call fails, and nothing is queued or forgotten.
  pub unsubscribe-Unsubscribes :
      (id : Bytes) (c : Client l)
      → OnceEach id c.subscriptions
      → Unsubscribes id c (unsubscribe l id c)
        × ((j : Bytes)
            → is_registered j (unsubscribe l id c).0.subscriptions
              ≡ (if bytes_eq j id then false else is_registered j c.subscriptions))
  unfolding unsubscribe enqueue
  unsubscribe-Unsubscribes id c once = elim (Bool-cases (is_registered id c.subscriptions)) [
    | inl here ↦
        let left : Client l = record c {
          subscriptions = remove_subscription id c.subscriptions;
          ended = end_subscription id SubscriptionEnd.unsubscribed c.ended;
          pending = Maps.remove id c.pending;
        } in
        rw (here, unsubscribe)
          (
            inl (
              refl,
              enqueue-Queues l (item (frame (unsubscribe_frame id))) left,
              (λ j. get-remove id j c.pending),
              (λ j. get-end_subscription id j SubscriptionEnd.unsubscribed c.ended),
            ),
            (λ j. is_registered-remove_subscription id j c.subscriptions once),
          )
    | inr gone ↦
        rw (gone, unsubscribe)
          (
            inr (refl, refl, refl, refl, refl),
            (λ j. is_registered-remove_subscription id j c.subscriptions once),
          )
  ]
