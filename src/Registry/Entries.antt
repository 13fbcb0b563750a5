-- ===== src/Registry/Entries.antt =====
-- What holds of every registered subscription, over the registry's operations.
use iridium_stomp.Base.{not, List, [], ◌∷◌, arith, All, map}
use iridium_stomp.Base.Maps.Queues.{AllIn, All-retain, AllIn-push}
use iridium_stomp.Base.Text.Utf8.{Bytes}
use iridium_stomp.Delivery.{SubscriptionEntry}
use iridium_stomp.Registry.{
  Subscriptions, add_entry, has_id, drop_empty, remove_first, remove_in_each, retain_in_each,
  remove_subscription, retain_others, discard, discard_parked,
}

module _ {S : Type 0} (P : SubscriptionEntry S → Type 0) where
  -- Every entry of the registry has the property.
  abbrev pub AllEntries : Subscriptions S → Type 0
  AllEntries m = AllIn P m

  pub add_entry-AllEntries :
      (dest : Bytes) (e : SubscriptionEntry S) (m : Subscriptions S)
      → P e
      → AllEntries m
      → AllEntries (add_entry dest e m)
  unfolding add_entry
  add_entry-AllEntries dest e m he h = AllIn-push P dest e m he h

  pub drop_empty-AllEntries : (m : Subscriptions S) → AllEntries m → AllEntries (drop_empty m)
  unfolding drop_empty
  drop_empty-AllEntries [] h = tt
  drop_empty-AllEntries ((dest, vec) ∷ m) h = ground (arith, drop_empty-AllEntries m h.1)

  remove_first-All :
      (id : Bytes) (es : List (SubscriptionEntry S)) → All P es → All P (remove_first id es)
  unfolding remove_first
  remove_first-All id [] h = tt
  remove_first-All id (e ∷ es) h = ground (arith, remove_first-All id es h.1)

  remove_in_each-AllEntries :
      (id : Bytes) (m : Subscriptions S) → AllEntries m → AllEntries (remove_in_each id m)
  unfolding remove_in_each
  remove_in_each-AllEntries id [] h = tt
  remove_in_each-AllEntries id ((dest, vec) ∷ m) h =
      (remove_first-All id vec h.0, remove_in_each-AllEntries id m h.1)

  retain_in_each-AllEntries :
      (id : Bytes) (m : Subscriptions S) → AllEntries m → AllEntries (retain_in_each id m)
  unfolding retain_in_each
  retain_in_each-AllEntries id [] h = tt
  retain_in_each-AllEntries id ((dest, vec) ∷ m) h =
      (All-retain P (λ e. not (has_id id e)) vec h.0, retain_in_each-AllEntries id m h.1)

  pub remove_subscription-AllEntries :
      (id : Bytes) (m : Subscriptions S) → AllEntries m → AllEntries (remove_subscription id m)
  unfolding remove_subscription
  remove_subscription-AllEntries id m h = drop_empty-AllEntries _ (remove_in_each-AllEntries id m h)

  pub retain_others-AllEntries :
      (id : Bytes) (m : Subscriptions S) → AllEntries m → AllEntries (retain_others id m)
  unfolding retain_others
  retain_others-AllEntries id m h = drop_empty-AllEntries _ (retain_in_each-AllEntries id m h)

  discard-All :
      ((e : SubscriptionEntry S) → P e → P (discard e))
      → (es : List (SubscriptionEntry S)) → All P es
      → All P (map discard es)
  discard-All keeps [] h = tt
  discard-All keeps (e ∷ es) h = (keeps e h.0, discard-All keeps es h.1)

  pub discard_parked-AllEntries :
      ((e : SubscriptionEntry S) → P e → P (discard e))
      → (m : Subscriptions S) → AllEntries m
      → AllEntries (discard_parked m)
  unfolding discard_parked
  discard_parked-AllEntries keeps [] h = tt
  discard_parked-AllEntries keeps ((dest, vec) ∷ m) h =
      (discard-All keeps vec h.0, discard_parked-AllEntries keeps m h.1)
