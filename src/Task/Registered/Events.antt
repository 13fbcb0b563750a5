-- ===== src/Task/Registered/Events.antt =====
-- That no two subscriptions have the same id, over every event of the task.
use iridium_stomp.Base.{
  ℕ, ◌+◌, ◌≤◌, ◌<◌, false, List, ◌≡◌, refl, inl, inr, arith, max, Bool-cases, if◌then◌else◌,
}
use iridium_stomp.Base.Text.Decimal.{u64_size, to_string}
use iridium_stomp.Base.Text.Utf8.{Bytes, bytes_eq}
use iridium_stomp.Client.{Links, Client, enqueue, next_counter}
use iridium_stomp.Client.Subscribing.{subscribe_with_capacity, unsubscribe}
use iridium_stomp.Delivery.{SubscriptionEntry, new_overflow}
use iridium_stomp.Frame.{Header}
use iridium_stomp.Registry.Copies.{
  copies, copies-remove_le, copies-drop_empty_le, copies-remove_subscription_le,
  copies-retain_others_le, copies-discard_parked,
}
use iridium_stomp.Client.Unsubscribed.{unsubscribe-Unsubscribes}
use iridium_stomp.Registry.Removal.{OnceEach-copies}
use iridium_stomp.Registry.{
  Subscriptions, add_entry, is_registered, discard_parked, subscribe_frame,
}
use iridium_stomp.Codec
use iridium_stomp.Outbound.{item}
use iridium_stomp.Subscription.{AckMode}
use iridium_stomp.Task.Keeping.Calls.{
  sending-InClient, transaction-InClient, receipt-InClient, wait-InClient, unsubscribe-InClient,
  best_effort-InClient, acknowledge-InClient,
}
use iridium_stomp.Task.Keeping.Events.{run_branch-InTask, on_attempt-InTask}
use iridium_stomp.Task.Keeping.{Stable}
use iridium_stomp.Task.Lifecycle.{
  start_connection, discard_stale, end_connection, finish, drain_all,
}
use iridium_stomp.Task.Registered.Unique.{Fresh, Fresh-le, Fresh-add_entry}
use iridium_stomp.Task.Registered.{deliver_all_le, drain_all_le}
use iridium_stomp.Task.Steps.{
  Call, sending, transaction, sending_with_receipt, waiting, subscribing, unsubscribing, dropping,
  acknowledging, run_call, Phase, Step, call, turn, lose, try, shut_down, Reachable, start, step,
  spawn, connected_client,
}
use iridium_stomp.Task.{Task}
use mathlib.Core.Path.{subst}

module _ (l : Links) where
  -- The counter stands behind `n` subscriptions, and the ids are fresh.
  abbrev Numbered : ℕ → Subscriptions l.frames.Sender → ℕ → Type 0
  Numbered n m counter = Fresh m counter × (counter ≡ n + 1)

  module _ (n : ℕ) where
    less :
        (m k : Subscriptions l.frames.Sender) (counter : ℕ)
        → ((id : Bytes) → copies id k ≤ copies id m)
        → Numbered n m counter
        → Numbered n k counter
    less m k counter le h = (Fresh-le m k counter le h.0, h.1)

    abbrev numbered : Stable l
    numbered = record {
      Holds = Numbered n;
      delivered = λ f ids m p c h. less m _ c (λ id. deliver_all_le l id f ids m p) h;
      drained = λ j m c h.
          less m _ c
            (λ id. omega (
              arith,
              copies-drop_empty_le id (drain_all l j m false).0,
              drain_all_le l id j m false,
            ))
            h;
      discarded = λ m c h. less m _ c (λ id. omega (arith, copies-discard_parked id m)) h;
      abandoned = λ dest m c h. less m _ c (λ id. copies-remove_le id dest m) h;
      unsubscribed = λ j m c h. less m _ c (λ id. copies-remove_subscription_le id j m) h;
      dropped = λ j m c h. less m _ c (λ id. copies-retain_others_le id j m) h;
    }

  abbrev InTask : ℕ → Task l → Type 0
  InTask n t = Numbered n t.client.subscriptions t.client.sub_id_counter

  -- How often the application has subscribed, when it had `n` times before the call.
  abbrev pub subscribed_after : Call → ℕ → ℕ
  subscribed_after (subscribing dest mode headers size limit) n = n + 1
  subscribed_after x n = n

  subscribed_after_le : (x : Call) (n : ℕ) → n ≤ subscribed_after x n
  subscribed_after_le (subscribing dest mode headers size limit) n = omega arith
  subscribed_after_le x n = ground arith

  subscribe-Numbered :
      (dest : Bytes) (mode : AckMode) (headers : List Header) (size limit n : ℕ) (c : Client l)
      → n + 2 < u64_size
      → Numbered n c.subscriptions c.sub_id_counter
      → let d = (subscribe_with_capacity l dest mode headers size limit c).0 in
        Numbered (n + 1) d.subscriptions d.sub_id_counter
  unfolding subscribe_with_capacity enqueue
  subscribe-Numbered dest mode headers size limit n c small h =
      let e : SubscriptionEntry l.frames.Sender = record {
        id = to_string c.sub_id_counter;
        sender = l.frames.channel (max size 1);
        ack = mode;
        headers = headers;
        overflow = new_overflow limit size;
      } in
      let next : c.sub_id_counter + 1 ≡ next_counter c.sub_id_counter = omega (arith, h.1, small) in
      let fresh = Fresh-add_entry dest e c.subscriptions c.sub_id_counter refl h.0 in
      let numbered : Numbered (n + 1) (add_entry dest e c.subscriptions)
          (next_counter c.sub_id_counter) =
        (subst (Fresh (add_entry dest e c.subscriptions)) next fresh, omega (arith, next, h.1)) in
      elim (Bool-cases
        (l.outbound.send c.outbound (
          item (Codec.frame (subscribe_frame (to_string c.sub_id_counter) dest mode headers)))).1) [
            | inl accepted ↦ rw (accepted, subscribe_with_capacity) numbered
            | inr refused ↦ rw (refused, subscribe_with_capacity) numbered
          ]

  run_call-Numbered :
      (x : Call) (n : ℕ) (c : Client l)
      → subscribed_after x n + 1 < u64_size
      → Numbered n c.subscriptions c.sub_id_counter
      → Numbered
          (subscribed_after x n)
          (run_call l x c).subscriptions
          (run_call l x c).sub_id_counter
  unfolding run_call
  run_call-Numbered (subscribing dest mode headers size limit) n c small h =
      subscribe-Numbered dest mode headers size limit n c (omega arith) h
  run_call-Numbered (sending f) n c small h = sending-InClient l (numbered n) f c h
  run_call-Numbered (transaction command id) n c small h =
      transaction-InClient l (numbered n) command id c h
  run_call-Numbered (sending_with_receipt f) n c small h = receipt-InClient l (numbered n) f c h
  run_call-Numbered (waiting id ending) n c small h = wait-InClient l (numbered n) id ending c h
  run_call-Numbered (unsubscribing id) n c small h = unsubscribe-InClient l (numbered n) id c h
  run_call-Numbered (dropping registry_free pending_free id) n c small h =
      best_effort-InClient l (numbered n) registry_free pending_free id c h
  run_call-Numbered (acknowledging command sub id) n c small h =
      acknowledge-InClient l (numbered n) command sub id c h

  module _ (lowercase : Bytes → Bytes) where
    abbrev pub subscribed_by :
        {p : Phase} {t : Task l} {q : Phase} {u : Task l} → Step l lowercase p t q u → ℕ → ℕ
    subscribed_by (call p t x) n = subscribed_after x n
    subscribed_by (turn t b) n = n
    subscribed_by (lose t stable_ms) n = n
    subscribed_by (try t client_hb a) n = n
    subscribed_by (shut_down p t) n = n

    -- How often the application has subscribed so far.
    abbrev pub subscriptions_made : {p : Phase} {t : Task l} → Reachable l lowercase p t → ℕ
    subscriptions_made (start out receipts inbound sink) = 0
    subscriptions_made (step p q t u r s) = subscribed_by s (subscriptions_made r)

    Step-Numbered :
        {p : Phase} {t : Task l} {q : Phase} {u : Task l} (s : Step l lowercase p t q u) (n : ℕ)
        → subscribed_by s n + 1 < u64_size
        → InTask n t
        → InTask (subscribed_by s n) u
    unfolding end_connection finish
    Step-Numbered (call p t c) n small h = run_call-Numbered c n t.client small h
    Step-Numbered (turn t b) n small h = run_branch-InTask l (numbered n) lowercase b t h
    Step-Numbered (lose t stable_ms) n small h = h
    Step-Numbered (try t client_hb a) n small h = on_attempt-InTask l (numbered n) client_hb a t h
    Step-Numbered (shut_down p t) n small h = (((λ id. omega arith), (λ j. refl)), h.1)

    subscribed_by_le :
        {p : Phase} {t : Task l} {q : Phase} {u : Task l} (s : Step l lowercase p t q u) (n : ℕ)
        → n ≤ subscribed_by s n
    subscribed_by_le (call p t x) n = subscribed_after_le x n
    subscribed_by_le (turn t b) n = omega arith
    subscribed_by_le (lose t stable_ms) n = omega arith
    subscribed_by_le (try t client_hb a) n = omega arith
    subscribed_by_le (shut_down p t) n = omega arith

    Reachable-Numbered :
        {p : Phase} {t : Task l} (r : Reachable l lowercase p t)
        → subscriptions_made r + 1 < u64_size
        → InTask (subscriptions_made r) t
    unfolding start_connection discard_stale spawn connected_client discard_parked
    Reachable-Numbered (start out receipts inbound sink) small =
        (((λ id. omega arith), (λ j. refl)), refl)
    Reachable-Numbered (step p q t u r s) small =
        Step-Numbered s (subscriptions_made r) small
          (Reachable-Numbered r (omega (arith, small, subscribed_by_le s (subscriptions_made r))))

    -- As long as the application has subscribed less than 2^64 - 1 times, no two subscriptions that
    -- are registered have the same id, whatever was called and received, in any order and over any
    -- number of reconnects. So unsubscribing takes exactly the subscription with its id from the
    -- registry.
    pub Reachable-copies_le :
        {p : Phase} {t : Task l} (r : Reachable l lowercase p t)
        → subscriptions_made r + 1 < u64_size
        → (id : Bytes)
        → (copies id t.client.subscriptions ≤ 1)
          × ((j : Bytes)
              → is_registered j (unsubscribe l id t.client).0.subscriptions
                ≡ (if bytes_eq j id then false else is_registered j t.client.subscriptions))
    Reachable-copies_le {p} {t} r small id =
        let unique = (Reachable-Numbered r small).0.0 id in
        (
          unique,
          (unsubscribe-Unsubscribes l id t.client
              (OnceEach-copies id t.client.subscriptions unique)).1,
        )
