-- ===== src/Task/Sessions.antt =====
-- Which connection the pending messages were delivered on.
pub mod Acks
pub mod Calls
pub mod Events
use iridium_stomp.Base.{
  ℕ, Bool, true, false, List, [], ◌∷◌, Option, none, some, ◌≡◌, ◌≢◌, refl, inl, inr, arith,
  if◌then◌else◌, Bool-cases, Option-cases, ◌==◌, is_some, unwrap_or, Result, ok, err,
}
use iridium_stomp.Base.Maps
use iridium_stomp.Base.Maps.Queues.{AllIn-remove, AllIn-retain}
use iridium_stomp.Base.Text.Utf8.{Bytes, codes}
use iridium_stomp.Client.{
  Links, Client, send_frame_with_receipt, wait, Ending, dropped, elapsed, settle_receipt,
}
use iridium_stomp.Client.Acknowledging.{acknowledge, is_stale}
use iridium_stomp.Client.Subscribing.{subscribe_with_capacity, unsubscribe, unsubscribe_best_effort}
use iridium_stomp.Codec.{StompItem, heartbeat, frame}
use iridium_stomp.Frame.{Frame, get_header}
use iridium_stomp.Handshake.{Incoming, item, failed, Attempt, attempt_result}
use iridium_stomp.Outbound.{Outbound, writable_in}
use iridium_stomp.Pending
use iridium_stomp.Pending.{PendingMessage, PendingMap, settle}
use iridium_stomp.Pending.Sessions.{IsFrom, AllFrom, push_back-AllFrom, settle-AllFrom}
use iridium_stomp.Registry.{is_registered, managed_mode}
use iridium_stomp.ServerError.{has_command, ReceiptOutcome}
use iridium_stomp.Subscription.{client}
use iridium_stomp.Task.{
  Flow-cases, Task, Flow, next, broken, panicked, Turn, write, on_outbound, forget_unsubscribed,
  forward_inbound,
}
use iridium_stomp.Task.Delivering.{Pass}
use iridium_stomp.Task.Dispatch.{
  dispatch, sweep, sweep_pending, fail_overflowed, fail_subscription, is_overflowed,
  forward_untaken, on_message, overflow_frame,
}
use iridium_stomp.Task.Errors.{
  Panic, abandon, count_error, note_error, error_destination, is_abandoned, after_refusal, on_error,
  on_receipt, on_client, extract_subscription_id_from_error,
}
use iridium_stomp.Task.Lifecycle.{
  replay, start_connection, discard_stale, on_attempt, on_frame, on_incoming, on_capacity, on_tick,
  on_watchdog, end_connection, finish,
}
use iridium_stomp.Task.Message.{
  push_all, track, needs_pending, pending_ids, MessageIds, no_ids, scan_headers,
}
use iridium_stomp.Task.Steps.{
  Call, sending, transaction, sending_with_receipt, waiting, subscribing, unsubscribing, dropping,
  acknowledging, Branch, outbound, incoming, capacity, tick, watchdog, Phase, run_call, run_branch,
  Step, call, turn, lose, try, shut_down, Reachable, start, step, spawn,
}

forget_unsubscribed-AllFrom :
    (session : ℕ) (i : StompItem) (p : PendingMap)
    → AllFrom session p
    → AllFrom session (forget_unsubscribed i p)
unfolding forget_unsubscribed
forget_unsubscribed-AllFrom session heartbeat p h = h
forget_unsubscribed-AllFrom session (frame f) p h =
    elim (Option-cases (get_header f (codes "id"))) [
      | inl e ↦ rw (e, forget_unsubscribed) (ground arith)
      | inr (id, e) ↦
          rw (e, forget_unsubscribed) (ground (arith, AllIn-remove (IsFrom session) id p h))
    ]

push_all-AllFrom :
    (session : ℕ) (ids : List Bytes) (m : PendingMessage) (p : PendingMap)
    → IsFrom session m
    → AllFrom session p
    → AllFrom session (push_all ids m p)
unfolding push_all
push_all-AllFrom session [] m p hm h = h
push_all-AllFrom session (id ∷ ids) m p hm h =
    push_all-AllFrom session ids m _ hm (push_back-AllFrom session id m p hm h)

module _ (l : Links) where
  -- Every pending message was delivered on the connection that the task is at.
  abbrev pub IsCurrent : Task l → Type 0
  IsCurrent t = AllFrom t.session t.client.pending

  track-IsCurrent :
      (f : Frame) (ids : MessageIds) (t : Task l) → IsCurrent t → IsCurrent (track l f ids t)
  unfolding track
  track-IsCurrent f ids t h = elim (Option-cases ids.message_id) [
    | inl e ↦ rw (e, track) h
    | inr (message_id, e) ↦
        rw (e, track)
          (ground (
            arith,
            push_all-AllFrom t.session (pending_ids ids t.client.subscriptions)
                (Pending.new ids.ack_id message_id f t.session) t.client.pending refl h,
          ))
  ]

  pub write-IsCurrent : (i : StompItem) (t : Task l) → IsCurrent t → IsCurrent (write l i t).0
  unfolding write
  write-IsCurrent i t h = h

  pub on_outbound-IsCurrent :
      (o : Outbound) (t : Task l) → IsCurrent t → IsCurrent (on_outbound l o t).0
  unfolding on_outbound write
  on_outbound-IsCurrent o t h = elim (Option-cases (writable_in o t.session)) [
    | inl e ↦ rw (e, on_outbound) h
    | inr (i, e) ↦ rw (e, on_outbound) (forget_unsubscribed-AllFrom t.session i t.client.pending h)
  ]

  fail_overflowed-IsCurrent :
      (failing : List (Bytes × Bytes × ℕ)) (t : Task l)
      → IsCurrent t
      → IsCurrent (fail_overflowed l failing t).0
  unfolding fail_overflowed
  fail_overflowed-IsCurrent [] t h = h
  fail_overflowed-IsCurrent ((id, dest, limit) ∷ rest) t h =
      let failed = fail_subscription l id dest limit t in
      let kept : IsCurrent failed.0 =
        unfold fail_subscription in unfold forward_inbound in unfold write in h in
      elim (Flow-cases failed.1) [
        | inl e ↦ rw (e, fail_overflowed) (fail_overflowed-IsCurrent rest failed.0 kept)
        | inr (inl e) ↦ rw (e, fail_overflowed) kept
        | inr (inr e) ↦ rw (e, fail_overflowed) kept
      ]

  sweep_pending-IsCurrent :
      (ids : MessageIds) (t : Task l) → IsCurrent t → IsCurrent (sweep_pending l ids t)
  unfolding sweep_pending sweep
  sweep_pending-IsCurrent ids t h = ground (
    arith,
    AllIn-retain (IsFrom t.session) (λ q. is_registered q.0 t.client.subscriptions) t.client.pending
        h,
  )

  dispatch-IsCurrent :
      (f : Frame) (ids : MessageIds) (t : Task l) → IsCurrent t → IsCurrent (dispatch l f ids t).0
  unfolding dispatch
  dispatch-IsCurrent f ids t h = h

  forward_untaken-IsCurrent :
      (f : Frame) (p : Pass) (r : Turn l) → IsCurrent r.0 → IsCurrent (forward_untaken l f p r).0
  unfolding forward_inbound
  forward_untaken-IsCurrent f p (t, next) h = ground arith
  forward_untaken-IsCurrent f p (t, broken) h = h
  forward_untaken-IsCurrent f p (t, panicked) h = h

  pub on_message-IsCurrent : (f : Frame) (t : Task l) → IsCurrent t → IsCurrent (on_message l f t).0
  unfolding on_message
  on_message-IsCurrent f t h =
      let ids = scan_headers f.headers no_ids in
      let tracked = track l f ids t in
      let delivered = dispatch l f ids tracked in
      let swept = sweep_pending l ids delivered.0 in
      let failed = fail_overflowed l delivered.1.overflowed swept in
      let kept : IsCurrent failed.0 = fail_overflowed-IsCurrent delivered.1.overflowed swept (
        sweep_pending-IsCurrent ids delivered.0
          (dispatch-IsCurrent f ids tracked (track-IsCurrent f ids t h))) in
      ground (arith, forward_untaken-IsCurrent f delivered.1 failed kept)
