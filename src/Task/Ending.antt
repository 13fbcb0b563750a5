-- ===== src/Task/Ending.antt =====
-- The end of the task.
use iridium_stomp.Base.{
  false, List, [], ◌∷◌, ◌≡◌, refl, ◌∙◌, some, arith, if◌then◌else◌, any, unwrap_or,
}
use iridium_stomp.Base.Maps
use iridium_stomp.Base.Text.Utf8.{Bytes}
use iridium_stomp.Client.{Links}
use iridium_stomp.Delivery.{SubscriptionEntry}
use iridium_stomp.Registry.{Ends, end_subscription, has_id, entries, is_registered}
use iridium_stomp.Registry.Endings.{get-end_subscription}
use iridium_stomp.Subscription.{SubscriptionEnd}
use iridium_stomp.Task.{Task}
use iridium_stomp.Task.Errors.{end_all}
use iridium_stomp.Task.Lifecycle.{finish}

get-end_all :
    {S : Type 0} (j : Bytes) (es : List (SubscriptionEntry S)) (reason : SubscriptionEnd)
    (ends : Ends)
    → Maps.get j (end_all es reason ends)
      ≡ (if any (has_id j) es then some (unwrap_or (Maps.get j ends) reason) else Maps.get j ends)
unfolding end_all
get-end_all j [] reason ends = refl
get-end_all j (e ∷ es) reason ends =
    get-end_all j es reason (end_subscription e.id reason ends)
    ∙ ground (arith, get-end_subscription e.id j reason ends)

module _ (l : Links) where
  -- When the task ends, the handle of every subscription that is still registered finds a reason,
  -- the one it had or that the connection was closed; the other handles' reasons stay as they
  -- were, and nothing is registered any more.
  pub finish-Ends :
      (t : Task l)
      → ((j : Bytes)
          → Maps.get j (finish l t).client.ended ≡ (
              if is_registered j t.client.subscriptions
              then some (unwrap_or (Maps.get j t.client.ended) SubscriptionEnd.connection_closed)
              else Maps.get j t.client.ended))
        × ((j : Bytes) → is_registered j (finish l t).client.subscriptions ≡ false)
  unfolding finish is_registered entries
  finish-Ends t = (
    λ j.
        get-end_all j (entries t.client.subscriptions) SubscriptionEnd.connection_closed
          t.client.ended,
    λ j. refl,
  )
