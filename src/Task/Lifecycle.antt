-- ===== src/Task/Lifecycle.antt =====
-- connection.rs: the life of a connection in the background task, from its start to the back-off
-- behind it, and the end of the task.
use iridium_stomp.Base.{
  ℕ, ◌+◌, ◌*◌, max, Bool, true, false, not, List, [], ◌∷◌, Option, none, some, ok, err, leb, ltb,
  if◌then◌else◌,
}
use iridium_stomp.Base.Maps
use iridium_stomp.Base.Text.Utf8.{Bytes, codes}
use iridium_stomp.Client.{Links}
use iridium_stomp.Codec.{StompItem, heartbeat}
use iridium_stomp.Codec
use iridium_stomp.Delivery.{SubscriptionEntry, drain_overflow}
use iridium_stomp.Frame.{Frame}
use iridium_stomp.Handshake.{
  Incoming, item, failed, next_backoff, Attempt, attempt_result, agreed_intervals, Intervals,
}
use iridium_stomp.Registry.{
  Subscriptions, has_id, entries, drop_empty, prune_parked, discard_parked, resubscribe_frames,
}
use iridium_stomp.ServerError.{has_command}
use iridium_stomp.Subscription.{SubscriptionEnd}
use iridium_stomp.Task.Dispatch.{on_message}
use iridium_stomp.Task.Errors.{end_all, on_receipt, on_error}
use iridium_stomp.Task.{Task, next, broken, Turn, set_pending, write, forward_inbound}

module _ (l : Links) where
  abbrev pub Entry : Type 0
  Entry = SubscriptionEntry l.frames.Sender

  -- Frames parked on the connection before are discarded where the broker redelivers them.
  unfoldable pub discard_stale : Task l → Task l
  discard_stale t =
      let m = discard_parked t.client.subscriptions in
      record t { client = record t.client { subscriptions = m }; parked = prune_parked t.parked m }

  -- A frame that cannot be sent is logged, and the next one is tried.
  unfoldable pub replay : List Frame → Task l → Task l
  replay [] t = t
  replay (f ∷ fs) t = replay fs (write l (Codec.frame f) t).0

  -- The start of a connection: only a reconnect replays the subscriptions.
  unfoldable pub start_connection : Bool → Task l → Task l
  unfolding discard_stale replay
  start_connection just_reconnected t =
      let d = discard_stale t in
      if just_reconnected then replay (resubscribe_frames d.client.subscriptions) d else d

  -- An attempt to reconnect: the new connection's intervals, or a longer back-off. A refusal by the
  -- server is retried like any other failure.
  unfoldable pub on_attempt : Bytes → Attempt → Task l → Task l × Option Intervals
  unfolding start_connection
  on_attempt client_hb a t = elim (attempt_result a) [
    | ok server_hb ↦ (start_connection true t, some (agreed_intervals client_hb server_hb))
    | err e ↦ (record t { backoff_secs = next_backoff t.backoff_secs }, none)
  ]

  -- The dispatch of a frame by its command.
  unfoldable pub on_frame : (Bytes → Bytes) → Frame → Task l → Turn l
  on_frame lowercase f t =
      if has_command f (codes "MESSAGE")
      then on_message l f t
      else if has_command f (codes "RECEIPT")
      then on_receipt l f t
      else if has_command f (codes "ERROR")
      then on_error l lowercase f t
      else (forward_inbound l f t, next)

  -- `stream.next()`; `none` is the end of the stream.
  unfoldable pub on_incoming : (Bytes → Bytes) → Option Incoming → Task l → Turn l
  unfolding on_frame
  on_incoming lowercase none t = (t, broken)
  on_incoming lowercase (some (failed e)) t = (t, broken)
  on_incoming lowercase (some (item heartbeat)) t = (t, next)
  on_incoming lowercase (some (item (Codec.frame f))) t = on_frame lowercase f t

  -- The subscription's parked frames move into its channel. The flag is that of the last entry.
  unfoldable pub drain_each : Bytes → List Entry → Bool → List Entry × Bool
  drain_each id [] was_closed = ([], was_closed)
  drain_each id (e ∷ es) was_closed =
      let (d, live) = drain_overflow l.frames e in
      let (rest, c) = drain_each id es (if has_id id e then not live else was_closed) in
      (if has_id id e then (if live then d ∷ rest else rest) else e ∷ rest, c)

  unfoldable pub drain_all :
      Bytes → Subscriptions l.frames.Sender → Bool → Subscriptions l.frames.Sender × Bool
  unfolding drain_each
  drain_all id [] was_closed = ([], was_closed)
  drain_all id ((dest, vec) ∷ m) was_closed =
      let (kept, c) = drain_each id vec was_closed in
      let (rest, d) = drain_all id m c in ((dest, kept) ∷ rest, d)

  unfoldable pub on_capacity : Bytes → Task l → Turn l
  unfolding drain_all
  on_capacity id t0 =
      let (drained, was_closed) = drain_all id t0.client.subscriptions false in
      let m = drop_empty drained in
      let t1 : Task l = record t0 {
        client = record t0.client { subscriptions = m };
        parked = prune_parked t0.parked m;
      } in
      (if was_closed then set_pending l (Maps.remove id t1.client.pending) t1 else t1, next)

  -- The heart-beat timer: `idle` is the time since the last write.
  unfoldable pub on_tick : Option ℕ → ℕ → Task l → Turn l
  on_tick none idle t = (t, next)
  on_tick (some interval) idle t = if leb interval idle then write l heartbeat t else (t, next)

  -- The watchdog: `silence` is the time since the last item was received.
  unfoldable pub on_watchdog : Option ℕ → ℕ → Task l → Turn l
  on_watchdog none silence t = (t, next)
  on_watchdog (some interval) silence t =
      if ltb (interval * 2) silence then (t, broken) else (t, next)

  -- The connection is gone: its ids mean nothing to the next one. The back-off starts anew if the
  -- connection lasted `stable_ms`, at least the back-off or five seconds.
  unfoldable pub end_connection : ℕ → Task l → Task l
  end_connection stable_ms t = record t {
    session = t.session + 1;
    client = record t.client { pending = [] };
    backoff_secs =
        if leb (max t.backoff_secs 5 * 1000) stable_ms then 1 else next_backoff t.backoff_secs;
  }

  -- The end of the task: the handles are told, and then the entries go.
  unfoldable pub finish : Task l → Task l
  unfolding end_all
  finish t = record t {
    client = record t.client {
      ended =
          end_all (entries t.client.subscriptions) SubscriptionEnd.connection_closed t.client.ended;
      subscriptions = [];
    };
  }
