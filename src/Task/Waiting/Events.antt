-- ===== src/Task/Waiting/Events.antt =====
-- The back-off between the attempts to reconnect, over every event of the task.
use iridium_stomp.Base.{
  ◌≤◌, Bool, true, false, List, [], ◌∷◌, Option, none, some, inl, inr, ◌≡◌, refl, arith,
  Option-cases, Result-cases,
}
use iridium_stomp.Base.Text.Utf8.{Bytes}
use iridium_stomp.Client.{Links}
use iridium_stomp.Codec.{heartbeat, frame}
use iridium_stomp.Frame.{Frame}
use iridium_stomp.Handshake.{Incoming, item, failed, Attempt, attempt_result}
use iridium_stomp.Outbound.{Outbound, writable_in}
use iridium_stomp.Registry.{resubscribe_frames}
use iridium_stomp.Task.{Task, write, on_outbound}
use iridium_stomp.Task.Lifecycle.{
  replay, start_connection, discard_stale, on_attempt, on_incoming, on_capacity, on_tick,
  on_watchdog, end_connection, finish,
}
use iridium_stomp.Task.Steps.{
  Branch, outbound, incoming, capacity, tick, watchdog, Phase, run_branch, Step, call, turn, lose,
  try, shut_down, Reachable, start, step, spawn, connected_client,
}
use iridium_stomp.Task.Waiting.{on_frame-backoff}

module _ (l : Links) where
  -- The wait before the next attempt is between one second and 30.
  abbrev pub IsPaced : Task l → Type 0
  IsPaced t = (1 ≤ t.backoff_secs) × (t.backoff_secs ≤ 30)

  on_incoming-backoff :
      (lowercase : Bytes → Bytes) (i : Option Incoming) (t : Task l)
      → (on_incoming l lowercase i t).0.backoff_secs ≡ t.backoff_secs
  unfolding on_incoming
  on_incoming-backoff lowercase none t = refl
  on_incoming-backoff lowercase (some (failed e)) t = refl
  on_incoming-backoff lowercase (some (item heartbeat)) t = refl
  on_incoming-backoff lowercase (some (item (frame f))) t = on_frame-backoff l lowercase f t

  on_outbound-backoff :
      (o : Outbound) (t : Task l) → (on_outbound l o t).0.backoff_secs ≡ t.backoff_secs
  unfolding on_outbound write
  on_outbound-backoff o t = elim (Option-cases (writable_in o t.session)) [
    | inl e ↦ rw (e, on_outbound) refl
    | inr (i, e) ↦ rw (e, on_outbound) refl
  ]

  run_branch-backoff :
      (lowercase : Bytes → Bytes) (b : Branch) (t : Task l)
      → (run_branch l lowercase b t).0.backoff_secs ≡ t.backoff_secs
  unfolding run_branch on_capacity on_tick on_watchdog write
  run_branch-backoff lowercase (outbound o) t = on_outbound-backoff o t
  run_branch-backoff lowercase (incoming i) t = on_incoming-backoff lowercase i t
  run_branch-backoff lowercase (capacity id) t = ground arith
  run_branch-backoff lowercase (tick none idle) t = refl
  run_branch-backoff lowercase (tick (some interval) idle) t = ground arith
  run_branch-backoff lowercase (watchdog none silence) t = refl
  run_branch-backoff lowercase (watchdog (some interval) silence) t = ground arith

  replay-backoff : (fs : List Frame) (t : Task l) → (replay l fs t).backoff_secs ≡ t.backoff_secs
  unfolding replay write
  replay-backoff [] t = refl
  replay-backoff (f ∷ fs) t = replay-backoff fs (write l (frame f) t).0

  start_connection-backoff :
      (again : Bool) (t : Task l) → (start_connection l again t).backoff_secs ≡ t.backoff_secs
  unfolding start_connection discard_stale
  start_connection-backoff true t =
      replay-backoff (resubscribe_frames (discard_stale l t).client.subscriptions)
        (discard_stale l t)
  start_connection-backoff false t = refl

  on_attempt-IsPaced :
      (client_hb : Bytes) (a : Attempt) (t : Task l)
      → IsPaced t
      → IsPaced (on_attempt l client_hb a t).0
  unfolding on_attempt
  on_attempt-IsPaced client_hb a t h = elim (Result-cases (attempt_result a)) [
    | inl (server_hb, e) ↦ rw (e, on_attempt, start_connection-backoff true t) h
    | inr (x, e) ↦ rw (e, on_attempt) (ground arith)
  ]

  Step-IsPaced :
      (lowercase : Bytes → Bytes) {p : Phase} {t : Task l} {q : Phase} {u : Task l}
      → Step l lowercase p t q u
      → IsPaced t
      → IsPaced u
  unfolding end_connection finish
  Step-IsPaced lowercase (call p t c) h = h
  Step-IsPaced lowercase (turn t b) h = rw (run_branch-backoff lowercase b t) h
  Step-IsPaced lowercase (lose t stable_ms) h = ground arith
  Step-IsPaced lowercase (try t client_hb a) h = on_attempt-IsPaced client_hb a t h
  Step-IsPaced lowercase (shut_down p t) h = h

  -- Whatever the application calls and the broker sends, in any order and over any number of
  -- reconnects, the wait before the next attempt to reconnect is at least one second and at most 30.
  pub Reachable-IsPaced :
      (lowercase : Bytes → Bytes) {p : Phase} {t : Task l} → Reachable l lowercase p t → IsPaced t
  unfolding start_connection discard_stale spawn connected_client
  Reachable-IsPaced lowercase (start out receipts inbound sink) = (omega arith, omega arith)
  Reachable-IsPaced lowercase (step p q t u r s) =
      Step-IsPaced lowercase s (Reachable-IsPaced lowercase r)
