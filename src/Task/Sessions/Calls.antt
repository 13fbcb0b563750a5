-- ===== src/Task/Sessions/Calls.antt =====
-- What the application's calls do to the pending messages.
use iridium_stomp.Base.{ℕ, Bool, List, arith, unwrap_or}
use iridium_stomp.Base.Maps.Queues.{AllIn-remove}
use iridium_stomp.Base.Text.Utf8.{Bytes}
use iridium_stomp.Client.{
  Links, Client, enqueue, send_frame, send_transaction_frame, send_frame_with_receipt, wait, Ending,
  generate_receipt_id,
}
use iridium_stomp.Client.Acknowledging.{acknowledge}
use iridium_stomp.Client.Subscribing.{subscribe_with_capacity, unsubscribe, unsubscribe_best_effort}
use iridium_stomp.Frame.{Frame, Header}
use iridium_stomp.Pending.Sessions.{IsFrom, AllFrom, settle-AllFrom}
use iridium_stomp.Registry.{managed_mode}
use iridium_stomp.Subscription.{AckMode, client}
use iridium_stomp.Task.Steps.{
  Call, sending, transaction, sending_with_receipt, waiting, subscribing, unsubscribing, dropping,
  acknowledging, run_call,
}

module _ (l : Links) (session : ℕ) where
  abbrev Holds : Client l → Type 0
  Holds c = AllFrom session c.pending

  receipt-AllFrom : (f : Frame) (c : Client l) → Holds c → Holds (send_frame_with_receipt l f c).0
  unfolding send_frame_with_receipt send_frame enqueue generate_receipt_id
  receipt-AllFrom f c h = ground arith

  wait-AllFrom :
      (id : Bytes) (ending : Ending) (c : Client l) → Holds c → Holds (wait l id ending c).0
  unfolding wait
  wait-AllFrom id ending c h = ground arith

  subscribe-AllFrom :
      (dest : Bytes) (mode : AckMode) (headers : List Header) (size limit : ℕ) (c : Client l)
      → Holds c
      → Holds (subscribe_with_capacity l dest mode headers size limit c).0
  unfolding subscribe_with_capacity enqueue
  subscribe-AllFrom dest mode headers size limit c h = ground arith

  unsubscribe-AllFrom : (id : Bytes) (c : Client l) → Holds c → Holds (unsubscribe l id c).0
  unfolding unsubscribe enqueue
  unsubscribe-AllFrom id c h = ground (arith, AllIn-remove (IsFrom session) id c.pending h)

  best_effort-AllFrom :
      (registry_free pending_free : Bool) (id : Bytes) (c : Client l)
      → Holds c
      → Holds (unsubscribe_best_effort l registry_free pending_free id c)
  unfolding unsubscribe_best_effort
  best_effort-AllFrom registry_free pending_free id c h =
      ground (arith, AllIn-remove (IsFrom session) id c.pending h)

  acknowledge-AllFrom :
      (command sub id : Bytes) (c : Client l) → Holds c → Holds (acknowledge l command sub id c).0
  unfolding acknowledge enqueue
  acknowledge-AllFrom command sub id c h = ground (
    arith,
    settle-AllFrom session (unwrap_or (managed_mode sub c.subscriptions) client) sub id c.pending h,
  )

  pub run_call-AllFrom : (x : Call) (c : Client l) → Holds c → Holds (run_call l x c)
  unfolding run_call
  run_call-AllFrom (sending f) c h = unfold send_frame in unfold enqueue in h
  run_call-AllFrom (transaction command id) c h =
      unfold send_transaction_frame in unfold enqueue in h
  run_call-AllFrom (sending_with_receipt f) c h = receipt-AllFrom f c h
  run_call-AllFrom (waiting id ending) c h = wait-AllFrom id ending c h
  run_call-AllFrom (subscribing dest mode headers size limit) c h =
      subscribe-AllFrom dest mode headers size limit c h
  run_call-AllFrom (unsubscribing id) c h = unsubscribe-AllFrom id c h
  run_call-AllFrom (dropping registry_free pending_free id) c h =
      best_effort-AllFrom registry_free pending_free id c h
  run_call-AllFrom (acknowledging command sub id) c h = acknowledge-AllFrom command sub id c h
