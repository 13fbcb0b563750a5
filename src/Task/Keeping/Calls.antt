-- ===== src/Task/Keeping/Calls.antt =====
-- What the application's calls but `subscribe` do to the registry.
use iridium_stomp.Base.{Bool, arith}
use iridium_stomp.Base.Text.Utf8.{Bytes}
use iridium_stomp.Client.{
  Links, Client, enqueue, send_frame, send_transaction_frame, send_frame_with_receipt, wait, Ending,
  generate_receipt_id,
}
use iridium_stomp.Client.Acknowledging.{acknowledge}
use iridium_stomp.Client.Subscribing.{unsubscribe, unsubscribe_best_effort}
use iridium_stomp.Frame.{Frame}
use iridium_stomp.Task.Keeping.{Stable, InClient}

module _ (l : Links) (k : Stable l) where
  pub sending-InClient :
      (f : Frame) (c : Client l) → InClient l k c → InClient l k (send_frame l f c).0
  unfolding send_frame enqueue
  sending-InClient f c h = h

  pub transaction-InClient :
      (command id : Bytes) (c : Client l)
      → InClient l k c
      → InClient l k (send_transaction_frame l command id c).0
  unfolding send_transaction_frame enqueue
  transaction-InClient command id c h = h

  pub receipt-InClient :
      (f : Frame) (c : Client l) → InClient l k c → InClient l k (send_frame_with_receipt l f c).0
  unfolding send_frame_with_receipt send_frame enqueue generate_receipt_id
  receipt-InClient f c h = ground arith

  pub wait-InClient :
      (id : Bytes) (ending : Ending) (c : Client l)
      → InClient l k c
      → InClient l k (wait l id ending c).0
  unfolding wait
  wait-InClient id ending c h = ground arith

  pub unsubscribe-InClient :
      (id : Bytes) (c : Client l) → InClient l k c → InClient l k (unsubscribe l id c).0
  unfolding unsubscribe enqueue
  unsubscribe-InClient id c h = ground (arith, k.unsubscribed id c.subscriptions c.sub_id_counter h)

  pub best_effort-InClient :
      (registry_free pending_free : Bool) (id : Bytes) (c : Client l)
      → InClient l k c
      → InClient l k (unsubscribe_best_effort l registry_free pending_free id c)
  unfolding unsubscribe_best_effort
  best_effort-InClient registry_free pending_free id c h =
      ground (arith, k.dropped id c.subscriptions c.sub_id_counter h)

  pub acknowledge-InClient :
      (command sub id : Bytes) (c : Client l)
      → InClient l k c
      → InClient l k (acknowledge l command sub id c).0
  unfolding acknowledge enqueue
  acknowledge-InClient command sub id c h = ground arith
