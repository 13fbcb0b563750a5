-- ===== src/Task/Waiting.antt =====
-- connection.rs: no frame from the broker changes the back-off.
pub mod Events
use iridium_stomp.Base.{
  ℕ, ◌≤◌, Bool, true, false, List, [], ◌∷◌, Option, none, some, inl, inr, ◌≡◌, refl, ◌∙◌, arith,
  Option-cases, Result, ok, err, Result-cases, unwrap_or, ◌+◌, ◌%◌, ◌^◌,
}
use iridium_stomp.Base.Maps
use iridium_stomp.Base.Text.Utf8.{Bytes}
use iridium_stomp.Client.{Links, settle_receipt}
use iridium_stomp.Codec.{StompItem, heartbeat, frame}
use iridium_stomp.Frame.{Frame}
use iridium_stomp.Handshake.{Incoming, item, failed, Attempt, attempt_result}
use iridium_stomp.Outbound.{Outbound, writable_in}
use iridium_stomp.Registry.{resubscribe_frames}
use iridium_stomp.ServerError.{refused, from_frame}
use iridium_stomp.Task.{
  Task, next, broken, panicked, Flow-cases, Turn, write, forward_inbound, on_outbound,
}
use iridium_stomp.Task.Delivering.{Pass}
use iridium_stomp.Task.Dispatch.{
  dispatch, sweep_pending, fail_subscription, fail_overflowed, forward_untaken, on_message,
}
use iridium_stomp.Task.Errors.{
  Panic, abandon, count_error, note_error, error_destination, after_refusal, on_error, on_receipt,
  on_client, extract_subscription_id_from_error,
}
use iridium_stomp.Task.Lifecycle.{
  replay, start_connection, discard_stale, on_attempt, on_frame, on_incoming, on_capacity, on_tick,
  on_watchdog, end_connection, finish,
}
use iridium_stomp.Task.Message.{MessageIds, no_ids, scan_headers, track}
use iridium_stomp.Task.Steps.{
  Branch, outbound, incoming, capacity, tick, watchdog, Phase, run_branch, Step, call, turn, lose,
  try, shut_down, Reachable, start, step, spawn, connected_client,
}

module _ (l : Links) where
  fail_overflowed-backoff :
      (failing : List (Bytes × Bytes × ℕ)) (t : Task l)
      → (fail_overflowed l failing t).0.backoff_secs ≡ t.backoff_secs
  unfolding fail_overflowed
  fail_overflowed-backoff [] t = refl
  fail_overflowed-backoff ((id, dest, limit) ∷ rest) t =
      let failed = fail_subscription l id dest limit t in
      let same : failed.0.backoff_secs ≡ t.backoff_secs =
        unfold fail_subscription in unfold forward_inbound in unfold write in refl in
      elim (Flow-cases failed.1) [
        | inl e ↦ rw (e, fail_overflowed) (fail_overflowed-backoff rest failed.0 ∙ same)
        | inr (inl e) ↦ rw (e, fail_overflowed) same
        | inr (inr e) ↦ rw (e, fail_overflowed) same
      ]

  track-backoff :
      (f : Frame) (ids : MessageIds) (t : Task l) → (track l f ids t).backoff_secs ≡ t.backoff_secs
  unfolding track
  track-backoff f ids t = elim (Option-cases ids.message_id) [
    | inl e ↦ rw (e, track) refl
    | inr (message_id, e) ↦ rw (e, track) (ground arith)
  ]

  forward_untaken-backoff :
      (f : Frame) (p : Pass) (r : Turn l)
      → (forward_untaken l f p r).0.backoff_secs ≡ r.0.backoff_secs
  unfolding forward_inbound
  forward_untaken-backoff f p (t, next) = ground arith
  forward_untaken-backoff f p (t, broken) = refl
  forward_untaken-backoff f p (t, panicked) = refl

  sweep_pending-backoff :
      (ids : MessageIds) (t : Task l) → (sweep_pending l ids t).backoff_secs ≡ t.backoff_secs
  unfolding sweep_pending
  sweep_pending-backoff ids t = ground arith

  on_message-backoff : (f : Frame) (t : Task l) → (on_message l f t).0.backoff_secs ≡ t.backoff_secs
  unfolding on_message dispatch
  on_message-backoff f t =
      let ids = scan_headers f.headers no_ids in
      let tracked = track l f ids t in
      let delivered = dispatch l f ids tracked in
      let swept = sweep_pending l ids delivered.0 in
      let failed = fail_overflowed l delivered.1.overflowed swept in
      let same : (forward_untaken l f delivered.1 failed).0.backoff_secs ≡ t.backoff_secs =
        forward_untaken-backoff f delivered.1 failed
        ∙ (fail_overflowed-backoff delivered.1.overflowed swept
            ∙ (sweep_pending-backoff ids delivered.0 ∙ track-backoff f ids t)) in
      ground (arith, same)

  abandon-backoff :
      (f : Frame) (sub_id : Option Bytes) (dest : Bytes) (count : ℕ) (t : Task l)
      → (abandon l f sub_id dest count t).backoff_secs ≡ t.backoff_secs
  unfolding abandon forward_inbound
  abandon-backoff f sub_id dest count t =
      elim (Option-cases (Maps.get dest t.client.subscriptions)) [
        | inl e ↦ rw (e, abandon) refl
        | inr (vec, e) ↦ rw (e, abandon) refl
      ]

  count_error-backoff :
      (f : Frame) (sub_id : Option Bytes) (dest : Bytes) (t : Task l)
      → (count_error l f sub_id dest t).backoff_secs ≡ t.backoff_secs
  unfolding count_error
  count_error-backoff f sub_id dest t =
      let count = (unwrap_or (Maps.get dest t.subscription_errors) 0 + 1) % 2 ^ 32 in
      let u : Task l = record t {
        subscription_errors = Maps.insert dest count t.subscription_errors;
      } in
      ground (arith, abandon-backoff f sub_id dest count u)

  note_error-backoff :
      (f : Frame) (sub_id : Option Bytes) (t : Task l)
      → (note_error l f sub_id t).backoff_secs ≡ t.backoff_secs
  unfolding note_error
  note_error-backoff f sub_id t = elim (Option-cases (error_destination l f sub_id t)) [
    | inl e ↦ rw (e, note_error) refl
    | inr (dest, e) ↦ rw (e, note_error) (count_error-backoff f sub_id dest t)
  ]

  after_refusal-backoff :
      (f : Frame) (r : Result (Option Bytes) Panic) (t : Task l)
      → (after_refusal l f r t).0.backoff_secs ≡ t.backoff_secs
  unfolding after_refusal forward_inbound
  after_refusal-backoff f (err p) t = refl
  after_refusal-backoff f (ok sub_id) t = ground (arith, note_error-backoff f sub_id t)

  pub on_frame-backoff :
      (lowercase : Bytes → Bytes) (f : Frame) (t : Task l)
      → (on_frame l lowercase f t).0.backoff_secs ≡ t.backoff_secs
  unfolding on_frame on_receipt on_error forward_inbound
  on_frame-backoff lowercase f t = ground (
    arith,
    on_message-backoff f t,
    after_refusal-backoff f (extract_subscription_id_from_error lowercase f)
        (on_client l (settle_receipt l f (refused (from_frame f))) t),
  )
