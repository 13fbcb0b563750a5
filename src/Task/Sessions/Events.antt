-- ===== src/Task/Sessions/Events.antt =====
-- The same for the other events of the task, and for the calls of the application.
use iridium_stomp.Base.{
  ℕ, Bool, true, false, List, [], ◌∷◌, Option, none, some, inl, inr, arith, Option-cases, unwrap_or,
  Result, ok, err, Result-cases, ◌+◌, ◌%◌, ◌^◌,
}
use iridium_stomp.Base.Maps
use iridium_stomp.Base.Maps.Queues.{AllIn-remove}
use iridium_stomp.Base.Text.Utf8.{Bytes, codes}
use iridium_stomp.Client.{Links, settle_receipt}
use iridium_stomp.Codec.{heartbeat, frame}
use iridium_stomp.Frame.{Frame, get_header}
use iridium_stomp.Handshake.{Incoming, item, failed, Attempt, attempt_result}
use iridium_stomp.Pending.Sessions.{IsFrom}
use iridium_stomp.Registry.{resubscribe_frames}
use iridium_stomp.ServerError.{ReceiptOutcome, refused, from_frame}
use iridium_stomp.Task.{Task, forward_inbound}
use iridium_stomp.Task.Errors.{
  Panic, abandon, count_error, note_error, error_destination, after_refusal, on_error, on_receipt,
  on_client, extract_subscription_id_from_error,
}
use iridium_stomp.Task.Lifecycle.{
  replay, start_connection, discard_stale, on_attempt, on_frame, on_incoming, on_capacity, on_tick,
  on_watchdog, end_connection, finish,
}
use iridium_stomp.Task.Sessions.{
  IsCurrent, write-IsCurrent, on_outbound-IsCurrent, on_message-IsCurrent,
}
use iridium_stomp.Task.Sessions.Calls.{run_call-AllFrom}
use iridium_stomp.Task.Steps.{
  Branch, outbound, incoming, capacity, tick, watchdog, Phase, run_branch, Step, call, turn, lose,
  try, shut_down, Reachable, start, step, spawn, connected_client,
}

module _ (l : Links) where
  settle_receipt-IsCurrent :
      (f : Frame) (o : ReceiptOutcome) (t : Task l)
      → IsCurrent l t
      → IsCurrent l (on_client l (settle_receipt l f o) t)
  unfolding settle_receipt
  settle_receipt-IsCurrent f o t h = elim (Option-cases (get_header f (codes "receipt-id"))) [
    | inl e ↦ rw (e, settle_receipt) h
    | inr (id, e) ↦ rw (e, settle_receipt) (ground arith)
  ]

  abandon-IsCurrent :
      (f : Frame) (sub_id : Option Bytes) (dest : Bytes) (count : ℕ) (t : Task l)
      → IsCurrent l t
      → IsCurrent l (abandon l f sub_id dest count t)
  unfolding abandon forward_inbound
  abandon-IsCurrent f sub_id dest count t h =
      elim (Option-cases (Maps.get dest t.client.subscriptions)) [
        | inl e ↦ rw (e, abandon) h
        | inr (vec, e) ↦ rw (e, abandon) h
      ]

  count_error-IsCurrent :
      (f : Frame) (sub_id : Option Bytes) (dest : Bytes) (t : Task l)
      → IsCurrent l t
      → IsCurrent l (count_error l f sub_id dest t)
  unfolding count_error
  count_error-IsCurrent f sub_id dest t h =
      let count = (unwrap_or (Maps.get dest t.subscription_errors) 0 + 1) % 2 ^ 32 in
      let u : Task l = record t {
        subscription_errors = Maps.insert dest count t.subscription_errors;
      } in
      ground (arith, abandon-IsCurrent f sub_id dest count u h)

  note_error-IsCurrent :
      (f : Frame) (sub_id : Option Bytes) (t : Task l)
      → IsCurrent l t
      → IsCurrent l (note_error l f sub_id t)
  unfolding note_error
  note_error-IsCurrent f sub_id t h = elim (Option-cases (error_destination l f sub_id t)) [
    | inl e ↦ rw (e, note_error) h
    | inr (dest, e) ↦ rw (e, note_error) (count_error-IsCurrent f sub_id dest t h)
  ]

  after_refusal-IsCurrent :
      (f : Frame) (r : Result (Option Bytes) Panic) (t : Task l)
      → IsCurrent l t
      → IsCurrent l (after_refusal l f r t).0
  unfolding after_refusal forward_inbound
  after_refusal-IsCurrent f (err p) t h = h
  after_refusal-IsCurrent f (ok sub_id) t h = ground (arith, note_error-IsCurrent f sub_id t h)

  on_error-IsCurrent :
      (lowercase : Bytes → Bytes) (f : Frame) (t : Task l)
      → IsCurrent l t
      → IsCurrent l (on_error l lowercase f t).0
  unfolding on_error
  on_error-IsCurrent lowercase f t h =
      after_refusal-IsCurrent f (extract_subscription_id_from_error lowercase f) _
        (settle_receipt-IsCurrent f (refused (from_frame f)) t h)

  on_frame-IsCurrent :
      (lowercase : Bytes → Bytes) (f : Frame) (t : Task l)
      → IsCurrent l t
      → IsCurrent l (on_frame l lowercase f t).0
  unfolding on_frame on_receipt forward_inbound
  on_frame-IsCurrent lowercase f t h = ground (
    arith,
    on_message-IsCurrent l f t h,
    on_error-IsCurrent lowercase f t h,
    settle_receipt-IsCurrent f ReceiptOutcome.confirmed t h,
  )

  on_incoming-IsCurrent :
      (lowercase : Bytes → Bytes) (i : Option Incoming) (t : Task l)
      → IsCurrent l t
      → IsCurrent l (on_incoming l lowercase i t).0
  unfolding on_incoming
  on_incoming-IsCurrent lowercase none t h = h
  on_incoming-IsCurrent lowercase (some (failed e)) t h = h
  on_incoming-IsCurrent lowercase (some (item heartbeat)) t h = h
  on_incoming-IsCurrent lowercase (some (item (frame f))) t h = on_frame-IsCurrent lowercase f t h

  on_capacity-IsCurrent :
      (id : Bytes) (t : Task l) → IsCurrent l t → IsCurrent l (on_capacity l id t).0
  unfolding on_capacity
  on_capacity-IsCurrent id t h =
      ground (arith, AllIn-remove (IsFrom t.session) id t.client.pending h)

  run_branch-IsCurrent :
      (lowercase : Bytes → Bytes) (b : Branch) (t : Task l)
      → IsCurrent l t
      → IsCurrent l (run_branch l lowercase b t).0
  unfolding run_branch on_tick on_watchdog
  run_branch-IsCurrent lowercase (outbound o) t h = on_outbound-IsCurrent l o t h
  run_branch-IsCurrent lowercase (incoming i) t h = on_incoming-IsCurrent lowercase i t h
  run_branch-IsCurrent lowercase (capacity id) t h = on_capacity-IsCurrent id t h
  run_branch-IsCurrent lowercase (tick none idle) t h = h
  run_branch-IsCurrent lowercase (tick (some interval) idle) t h =
      ground (arith, write-IsCurrent l heartbeat t h)
  run_branch-IsCurrent lowercase (watchdog none silence) t h = h
  run_branch-IsCurrent lowercase (watchdog (some interval) silence) t h = ground arith

  replay-IsCurrent : (fs : List Frame) (t : Task l) → IsCurrent l t → IsCurrent l (replay l fs t)
  unfolding replay
  replay-IsCurrent [] t h = h
  replay-IsCurrent (f ∷ fs) t h = replay-IsCurrent fs _ (write-IsCurrent l (frame f) t h)

  start_connection-IsCurrent :
      (again : Bool) (t : Task l) → IsCurrent l t → IsCurrent l (start_connection l again t)
  unfolding start_connection discard_stale
  start_connection-IsCurrent true t h =
      replay-IsCurrent (resubscribe_frames (discard_stale l t).client.subscriptions)
        (discard_stale l t) h
  start_connection-IsCurrent false t h = h

  on_attempt-IsCurrent :
      (client_hb : Bytes) (a : Attempt) (t : Task l)
      → IsCurrent l t
      → IsCurrent l (on_attempt l client_hb a t).0
  unfolding on_attempt
  on_attempt-IsCurrent client_hb a t h = elim (Result-cases (attempt_result a)) [
    | inl (server_hb, e) ↦ rw (e, on_attempt) (start_connection-IsCurrent true t h)
    | inr (x, e) ↦ rw (e, on_attempt) h
  ]

  Step-IsCurrent :
      (lowercase : Bytes → Bytes) {p : Phase} {t : Task l} {q : Phase} {u : Task l}
      → Step l lowercase p t q u
      → IsCurrent l t
      → IsCurrent l u
  unfolding end_connection finish
  Step-IsCurrent lowercase (call p t c) h = run_call-AllFrom l t.session c t.client h
  Step-IsCurrent lowercase (turn t b) h = run_branch-IsCurrent lowercase b t h
  Step-IsCurrent lowercase (lose t stable_ms) h = tt
  Step-IsCurrent lowercase (try t client_hb a) h = on_attempt-IsCurrent client_hb a t h
  Step-IsCurrent lowercase (shut_down p t) h = h

  -- Whatever the application calls and the broker sends, in any order and over any number of
  -- reconnects, a message is pending only while the connection that delivered it is the task's.
  pub Reachable-IsCurrent :
      (lowercase : Bytes → Bytes) {p : Phase} {t : Task l}
      → Reachable l lowercase p t
      → IsCurrent l t
  unfolding start_connection discard_stale spawn connected_client
  Reachable-IsCurrent lowercase (start out receipts inbound sink) = tt
  Reachable-IsCurrent lowercase (step p q t u r s) =
      Step-IsCurrent lowercase s (Reachable-IsCurrent lowercase r)
