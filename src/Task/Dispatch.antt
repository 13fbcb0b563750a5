-- ===== src/Task/Dispatch.antt =====
-- connection.rs: the handling of a MESSAGE frame, from its headers to the subscriptions that it
-- fails.
use iridium_stomp.Base.{
  ℕ, Bool, false, not, ◌||◌, List, [], ◌∷◌, ◌++◌, Option, none, some, if◌then◌else◌, retain,
  is_empty, is_some,
}
use iridium_stomp.Base.Text.Decimal.{to_string}
use iridium_stomp.Base.Text.Utf8.{Bytes, codes, bytes_eq}
use iridium_stomp.Client.{Links}
use iridium_stomp.Client.Subscribing.{unsubscribe_frame}
use iridium_stomp.Codec
use iridium_stomp.Frame.{Frame, Header, header}
use iridium_stomp.Frame
use iridium_stomp.Pending.{PendingMap}
use iridium_stomp.Registry.{Subscriptions, is_registered}
use iridium_stomp.Task.{
  Task, next, broken, panicked, contains, Turn, set_pending, write, forward_inbound,
}
use iridium_stomp.Task.Delivering.{Pass, deliver_all}
use iridium_stomp.Task.Message.{MessageIds, no_ids, scan_headers, track}

abbrev pub overflow_message : ℕ → Bytes → Bytes
overflow_message limit dest =
    codes "Subscription failed: more than "
    ++ (to_string limit ++ (codes " messages parked for " ++ dest))

-- The ERROR frame that tells the application of an overflow.
abbrev pub overflow_frame : Bytes → Bytes → ℕ → Frame
overflow_frame id dest limit =
    header
      (header
        (header (header (Frame.new (codes "ERROR")) (codes "message") (overflow_message limit dest))
          (codes "destination") dest)
        (codes "subscription") id)
      (codes "x-overflow") (codes "true")

-- The pending queues of the subscriptions that are still registered.
unfoldable pub sweep : {S : Type 0} → Subscriptions S → PendingMap → PendingMap
sweep m p = retain (λ q. is_registered q.0 m) p

module _ (l : Links) where
  -- The pass, on the task's state.
  unfoldable pub dispatch : Frame → MessageIds → Task l → Task l × Pass
  unfolding deliver_all
  dispatch f ids t =
      let start : Pass = record {
        delivered = false;
        overflowed = [];
        ended = t.client.ended;
        parked = t.parked;
      } in
      let (m, p) = deliver_all l f ids t.client.subscriptions start in
      (
        record t {
          client = record t.client { subscriptions = m; ended = p.ended };
          parked = p.parked;
        },
        p,
      )

  -- Nothing can acknowledge for a subscription that is no longer registered.
  unfoldable pub sweep_pending : MessageIds → Task l → Task l
  unfolding sweep
  sweep_pending ids t =
      if is_some ids.subscription || is_some ids.destination
      then set_pending l (sweep t.client.subscriptions t.client.pending) t
      else t

  -- Fail one subscription: the application gets an ERROR, and the broker an UNSUBSCRIBE.
  unfoldable pub fail_subscription : Bytes → Bytes → ℕ → Task l → Turn l
  fail_subscription id dest limit t0 =
      let t1 =
        forward_inbound l (overflow_frame id dest limit)
          (record t0 { parked = retain (λ j. not (bytes_eq j id)) t0.parked }) in
      write l (Codec.frame (unsubscribe_frame id))
        (record t1 { overflowed_sub_ids = id ∷ t1.overflowed_sub_ids })

  -- Fail the subscriptions that hit their limit, until the sink fails.
  unfoldable pub fail_overflowed : List (Bytes × Bytes × ℕ) → Task l → Turn l
  unfolding fail_subscription
  fail_overflowed [] t = (t, next)
  fail_overflowed ((id, dest, limit) ∷ rest) t0 =
      let (t1, flow) = fail_subscription id dest limit t0 in
      elim flow [
        | next ↦ fail_overflowed rest t1
        | broken ↦ (t1, broken)
        | panicked ↦ (t1, panicked)
      ]

  abbrev pub is_overflowed : Option Bytes → Task l → Bool
  is_overflowed none t = false
  is_overflowed (some id) t = contains id t.overflowed_sub_ids

  -- A message that a subscription took, or that failed one, goes nowhere else.
  abbrev pub forward_untaken : Frame → Pass → Turn l → Turn l
  forward_untaken f p (t, next) =
      if p.delivered || not (is_empty p.overflowed)
      then (t, next)
      else (forward_inbound l f t, next)
  forward_untaken f p (t, broken) = (t, broken)
  forward_untaken f p (t, panicked) = (t, panicked)

  unfoldable pub on_message : Frame → Task l → Turn l
  unfolding track dispatch sweep_pending fail_overflowed
  on_message f t =
      let ids = scan_headers f.headers no_ids in
      let (delivered, p) = dispatch f ids (track l f ids t) in
      let failed = fail_overflowed p.overflowed (sweep_pending ids delivered) in
      if is_overflowed ids.subscription t then (t, next) else forward_untaken f p failed
