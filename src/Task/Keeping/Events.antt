-- ===== src/Task/Keeping/Events.antt =====
-- The registry, over every event of the task.
use iridium_stomp.Base.{
  ℕ, Bool, true, false, List, [], ◌∷◌, Option, none, some, inl, inr, arith, Option-cases, unwrap_or,
  Result, ok, err, Result-cases, ◌+◌, ◌%◌, ◌^◌,
}
use iridium_stomp.Base.Maps
use iridium_stomp.Base.Text.Utf8.{Bytes, codes}
use iridium_stomp.Client.{Links, settle_receipt}
use iridium_stomp.Codec.{StompItem, heartbeat, frame}
use iridium_stomp.Frame.{Frame, get_header}
use iridium_stomp.Handshake.{Incoming, item, failed, Attempt, attempt_result}
use iridium_stomp.Registry.{resubscribe_frames}
use iridium_stomp.ServerError.{ReceiptOutcome, refused, from_frame}
use iridium_stomp.Task.{Task, forward_inbound, write, on_outbound}
use iridium_stomp.Task.Errors.{
  Panic, abandon, count_error, note_error, error_destination, after_refusal, on_error, on_receipt,
  on_client, extract_subscription_id_from_error,
}
use iridium_stomp.Task.Lifecycle.{
  replay, start_connection, discard_stale, on_attempt, on_frame, on_incoming, on_capacity, on_tick,
  on_watchdog,
}
use iridium_stomp.Task.Steps.{Branch, outbound, incoming, capacity, tick, watchdog, run_branch}
use iridium_stomp.Outbound.{Outbound, writable_in}
use iridium_stomp.Task.Keeping.Messages.{on_message-InTask}
use iridium_stomp.Task.Keeping.{Stable, InTask}

module _ (l : Links) (k : Stable l) where
  settle_receipt-InTask :
      (f : Frame) (o : ReceiptOutcome) (t : Task l)
      → InTask l k t
      → InTask l k (on_client l (settle_receipt l f o) t)
  unfolding settle_receipt
  settle_receipt-InTask f o t h = elim (Option-cases (get_header f (codes "receipt-id"))) [
    | inl e ↦ rw (e, settle_receipt) h
    | inr (id, e) ↦ rw (e, settle_receipt) (ground arith)
  ]

  abandon-InTask :
      (f : Frame) (sub_id : Option Bytes) (dest : Bytes) (count : ℕ) (t : Task l)
      → InTask l k t
      → InTask l k (abandon l f sub_id dest count t)
  unfolding abandon forward_inbound
  abandon-InTask f sub_id dest count t h =
      elim (Option-cases (Maps.get dest t.client.subscriptions)) [
        | inl e ↦ rw (e, abandon) h
        | inr (vec, e) ↦
            rw (e, abandon) (k.abandoned dest t.client.subscriptions t.client.sub_id_counter h)
      ]

  count_error-InTask :
      (f : Frame) (sub_id : Option Bytes) (dest : Bytes) (t : Task l)
      → InTask l k t
      → InTask l k (count_error l f sub_id dest t)
  unfolding count_error
  count_error-InTask f sub_id dest t h =
      let count = (unwrap_or (Maps.get dest t.subscription_errors) 0 + 1) % 2 ^ 32 in
      let u : Task l = record t {
        subscription_errors = Maps.insert dest count t.subscription_errors;
      } in
      ground (arith, abandon-InTask f sub_id dest count u h)

  note_error-InTask :
      (f : Frame) (sub_id : Option Bytes) (t : Task l)
      → InTask l k t
      → InTask l k (note_error l f sub_id t)
  unfolding note_error
  note_error-InTask f sub_id t h = elim (Option-cases (error_destination l f sub_id t)) [
    | inl e ↦ rw (e, note_error) h
    | inr (dest, e) ↦ rw (e, note_error) (count_error-InTask f sub_id dest t h)
  ]

  after_refusal-InTask :
      (f : Frame) (r : Result (Option Bytes) Panic) (t : Task l)
      → InTask l k t
      → InTask l k (after_refusal l f r t).0
  unfolding after_refusal forward_inbound
  after_refusal-InTask f (err p) t h = h
  after_refusal-InTask f (ok sub_id) t h = ground (arith, note_error-InTask f sub_id t h)

  on_error-InTask :
      (lowercase : Bytes → Bytes) (f : Frame) (t : Task l)
      → InTask l k t
      → InTask l k (on_error l lowercase f t).0
  unfolding on_error
  on_error-InTask lowercase f t h =
      after_refusal-InTask f (extract_subscription_id_from_error lowercase f) _
        (settle_receipt-InTask f (refused (from_frame f)) t h)

  on_outbound-InTask : (o : Outbound) (t : Task l) → InTask l k t → InTask l k (on_outbound l o t).0
  unfolding on_outbound write
  on_outbound-InTask o t h = elim (Option-cases (writable_in o t.session)) [
    | inl e ↦ rw (e, on_outbound) h
    | inr (i, e) ↦ rw (e, on_outbound) h
  ]

  write-InTask : (i : StompItem) (t : Task l) → InTask l k t → InTask l k (write l i t).0
  unfolding write
  write-InTask i t h = h

  on_frame-InTask :
      (lowercase : Bytes → Bytes) (f : Frame) (t : Task l)
      → InTask l k t
      → InTask l k (on_frame l lowercase f t).0
  unfolding on_frame on_receipt forward_inbound
  on_frame-InTask lowercase f t h = ground (
    arith,
    on_message-InTask l k f t h,
    on_error-InTask lowercase f t h,
    settle_receipt-InTask f ReceiptOutcome.confirmed t h,
  )

  on_incoming-InTask :
      (lowercase : Bytes → Bytes) (i : Option Incoming) (t : Task l)
      → InTask l k t
      → InTask l k (on_incoming l lowercase i t).0
  unfolding on_incoming
  on_incoming-InTask lowercase none t h = h
  on_incoming-InTask lowercase (some (failed e)) t h = h
  on_incoming-InTask lowercase (some (item heartbeat)) t h = h
  on_incoming-InTask lowercase (some (item (frame f))) t h = on_frame-InTask lowercase f t h

  on_capacity-InTask : (id : Bytes) (t : Task l) → InTask l k t → InTask l k (on_capacity l id t).0
  unfolding on_capacity
  on_capacity-InTask id t h =
      ground (arith, k.drained id t.client.subscriptions t.client.sub_id_counter h)

  pub run_branch-InTask :
      (lowercase : Bytes → Bytes) (b : Branch) (t : Task l)
      → InTask l k t
      → InTask l k (run_branch l lowercase b t).0
  unfolding run_branch on_tick on_watchdog
  run_branch-InTask lowercase (outbound o) t h = on_outbound-InTask o t h
  run_branch-InTask lowercase (incoming i) t h = on_incoming-InTask lowercase i t h
  run_branch-InTask lowercase (capacity id) t h = on_capacity-InTask id t h
  run_branch-InTask lowercase (tick none idle) t h = h
  run_branch-InTask lowercase (tick (some interval) idle) t h =
      ground (arith, write-InTask heartbeat t h)
  run_branch-InTask lowercase (watchdog none silence) t h = h
  run_branch-InTask lowercase (watchdog (some interval) silence) t h = ground arith

  replay-InTask : (fs : List Frame) (t : Task l) → InTask l k t → InTask l k (replay l fs t)
  unfolding replay
  replay-InTask [] t h = h
  replay-InTask (f ∷ fs) t h = replay-InTask fs _ (write-InTask (frame f) t h)

  pub start_connection-InTask :
      (again : Bool) (t : Task l) → InTask l k t → InTask l k (start_connection l again t)
  unfolding start_connection discard_stale
  start_connection-InTask true t h =
      replay-InTask (resubscribe_frames (discard_stale l t).client.subscriptions)
        (discard_stale l t) (k.discarded t.client.subscriptions t.client.sub_id_counter h)
  start_connection-InTask false t h = k.discarded t.client.subscriptions t.client.sub_id_counter h

  pub on_attempt-InTask :
      (client_hb : Bytes) (a : Attempt) (t : Task l)
      → InTask l k t
      → InTask l k (on_attempt l client_hb a t).0
  unfolding on_attempt
  on_attempt-InTask client_hb a t h = elim (Result-cases (attempt_result a)) [
    | inl (server_hb, e) ↦ rw (e, on_attempt) (start_connection-InTask true t h)
    | inr (x, e) ↦ rw (e, on_attempt) h
  ]
