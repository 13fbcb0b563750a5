-- ===== src/Task/Queues/Events.antt =====
-- The parked queues, over every event of the task.
use iridium_stomp.Base.{ℕ, false, List, arith, max}
use iridium_stomp.Base.Maps.Queues.{AllIn-remove}
use iridium_stomp.Base.Text.Decimal.{to_string}
use iridium_stomp.Base.Text.Utf8.{Bytes}
use iridium_stomp.Client.{Links, Client, enqueue}
use iridium_stomp.Client.Subscribing.{subscribe_with_capacity}
use iridium_stomp.Delivery.Warnings.{Holds, new_overflow-IsBounded}
use iridium_stomp.Delivery.{SubscriptionEntry, new_overflow}
use iridium_stomp.Frame.{Header}
use iridium_stomp.Registry.Entries.{
  add_entry-AllEntries, drop_empty-AllEntries, discard_parked-AllEntries,
  remove_subscription-AllEntries, retain_others-AllEntries,
}
use iridium_stomp.Registry.{discard_parked}
use iridium_stomp.Subscription.{AckMode}
use iridium_stomp.Task.Keeping.Calls.{
  sending-InClient, transaction-InClient, receipt-InClient, wait-InClient, unsubscribe-InClient,
  best_effort-InClient, acknowledge-InClient,
}
use iridium_stomp.Task.Keeping.Events.{run_branch-InTask, on_attempt-InTask}
use iridium_stomp.Task.Keeping.{Stable}
use iridium_stomp.Task.Lifecycle.{
  start_connection, discard_stale, end_connection, finish, drain_all,
}
use iridium_stomp.Task.Queues.{
  AllBounded, IsBounded, deliver_all-AllBounded, drain_all-AllBounded, discard-Holds,
}
use iridium_stomp.Task.Steps.{
  Call, sending, transaction, sending_with_receipt, waiting, subscribing, unsubscribing, dropping,
  acknowledging, run_call, Phase, Step, call, turn, lose, try, shut_down, Reachable, start, step,
  spawn, connected_client,
}
use iridium_stomp.Task.{Task}

module _ (l : Links) where
  abbrev bounded_queues : Stable l
  bounded_queues = record {
    Holds = λ m n. AllBounded l m;
    delivered = λ f ids m p n h. deliver_all-AllBounded l f ids m p h;
    drained = λ id m n h.
        drop_empty-AllEntries (Holds l.frames) (drain_all l id m false).0
          (drain_all-AllBounded l id m false h);
    discarded = λ m n h. discard_parked-AllEntries (Holds l.frames) (discard-Holds l) m h;
    abandoned = λ dest m n h. AllIn-remove (Holds l.frames) dest m h;
    unsubscribed = λ id m n h. remove_subscription-AllEntries (Holds l.frames) id m h;
    dropped = λ id m n h. retain_others-AllEntries (Holds l.frames) id m h;
  }

  subscribe-Bounded :
      (dest : Bytes) (mode : AckMode) (headers : List Header) (size limit : ℕ) (c : Client l)
      → AllBounded l c.subscriptions
      → AllBounded l (subscribe_with_capacity l dest mode headers size limit c).0.subscriptions
  unfolding subscribe_with_capacity enqueue
  subscribe-Bounded dest mode headers size limit c h =
      let e : SubscriptionEntry l.frames.Sender = record {
        id = to_string c.sub_id_counter;
        sender = l.frames.channel (max size 1);
        ack = mode;
        headers = headers;
        overflow = new_overflow limit size;
      } in
      ground (
        arith,
        add_entry-AllEntries (Holds l.frames) dest e c.subscriptions
            (new_overflow-IsBounded limit size) h,
      )

  run_call-Bounded :
      (x : Call) (c : Client l)
      → AllBounded l c.subscriptions
      → AllBounded l (run_call l x c).subscriptions
  unfolding run_call
  run_call-Bounded (sending f) c h = sending-InClient l bounded_queues f c h
  run_call-Bounded (transaction command id) c h =
      transaction-InClient l bounded_queues command id c h
  run_call-Bounded (sending_with_receipt f) c h = receipt-InClient l bounded_queues f c h
  run_call-Bounded (waiting id ending) c h = wait-InClient l bounded_queues id ending c h
  run_call-Bounded (subscribing dest mode headers size limit) c h =
      subscribe-Bounded dest mode headers size limit c h
  run_call-Bounded (unsubscribing id) c h = unsubscribe-InClient l bounded_queues id c h
  run_call-Bounded (dropping registry_free pending_free id) c h =
      best_effort-InClient l bounded_queues registry_free pending_free id c h
  run_call-Bounded (acknowledging command sub id) c h =
      acknowledge-InClient l bounded_queues command sub id c h

  Step-IsBounded :
      (lowercase : Bytes → Bytes) {p : Phase} {t : Task l} {q : Phase} {u : Task l}
      → Step l lowercase p t q u
      → IsBounded l t
      → IsBounded l u
  unfolding end_connection finish
  Step-IsBounded lowercase (call p t c) h = run_call-Bounded c t.client h
  Step-IsBounded lowercase (turn t b) h = run_branch-InTask l bounded_queues lowercase b t h
  Step-IsBounded lowercase (lose t stable_ms) h = h
  Step-IsBounded lowercase (try t client_hb a) h =
      on_attempt-InTask l bounded_queues client_hb a t h
  Step-IsBounded lowercase (shut_down p t) h = tt

  -- Whatever the application calls and the broker sends, in any order and over any number of
  -- reconnects, no registered subscription has more frames parked than its overflow limit, and once
  -- one has warned, the mark of its next warning is beyond the depth of its queue.
  pub Reachable-IsBounded :
      (lowercase : Bytes → Bytes) {p : Phase} {t : Task l}
      → Reachable l lowercase p t
      → IsBounded l t
  unfolding start_connection discard_stale spawn connected_client discard_parked
  Reachable-IsBounded lowercase (start out receipts inbound sink) = tt
  Reachable-IsBounded lowercase (step p q t u r s) =
      Step-IsBounded lowercase s (Reachable-IsBounded lowercase r)
