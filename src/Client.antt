-- ===== src/Client.antt =====
-- connection.rs: the state that the `Connection` handles share with the background task, and the
-- calls that the application makes. A call that awaits runs to its end here; what it waits for
-- (a channel that is closed, a timeout) is an argument or the channel's answer.
pub mod Subscribing
pub mod Acknowledging
pub mod Sending
pub mod Acks
pub mod Receipts
pub mod Confirming
pub mod Dropping
pub mod Unsubscribed
pub mod Subscribed
use iridium_stomp.Base.{
  ℕ, ◌+◌, ◌%◌, max, Bool, true, false, not, ◌&&◌, List, [], ◌∷◌, ◌++◌, Option, none, some, Result,
  ok, err, unwrap_or, or_else, is_some, if◌then◌else◌, retain, any,
}
use iridium_stomp.Base.Maps
use iridium_stomp.Base.Maps.{Map}
use iridium_stomp.Base.Text.Ascii.{eq_ignore_ascii_case}
use iridium_stomp.Base.Text.Decimal.{u64_size, to_string}
use iridium_stomp.Base.Text.Utf8.{Bytes, codes, bytes_eq}
use iridium_stomp.Channel.{Mpsc}
use iridium_stomp.Codec.{StompItem}
use iridium_stomp.Codec
use iridium_stomp.Delivery.{SubscriptionEntry, new_overflow}
use iridium_stomp.Frame.{Frame, Header, header, set_body, receipt, get_header}
use iridium_stomp.Frame
use iridium_stomp.Outbound.{Outbound, item, ack}
use iridium_stomp.Pending.{PendingMessage, PendingMap, settle}
use iridium_stomp.Registry.{
  Ends, end_subscription, Subscriptions, add_entry, managed_mode, is_registered,
  remove_subscription, retain_others, subscribe_frame,
}
use iridium_stomp.ServerError.{
  ReceiptOutcome, confirmed, refused, ConnError, protocol, receipt_timeout, frame_rejected,
  missing_ack_id,
}
use iridium_stomp.Subscription.{
  AckMode, client, acknowledges, SubscriptionOptions, default_channel_capacity,
  default_overflow_limit, SubscriptionEnd, unsubscribed,
}

-- The channels to the subscriptions and to the background task, and the sink to the broker.
pub record Links : Type 1 where
  pub frames : Mpsc Frame
  pub outbound : Mpsc Outbound
  pub sink : Mpsc StompItem

-- The shared state. `ended` holds the cells of the handles, `awaited` the receipts that a sender is
-- registered for, and `answers` what was sent to their handles.
pub record Client (l : Links) : Type 0 where
  pub outbound : l.outbound.Sender
  pub subscriptions : Subscriptions l.frames.Sender
  pub ended : Ends
  pub sub_id_counter : ℕ
  pub pending : PendingMap
  pub awaited : List Bytes
  pub answers : Map ReceiptOutcome
  pub receipt_counter : ℕ
  pub shutdown : Bool

-- A handle of a subscription.
pub record Subscription : Type 0 where
  pub id : Bytes
  pub destination : Bytes
  pub unsubscribed : Bool

-- `fetch_add(1)` on an `AtomicU64`.
abbrev pub next_counter : ℕ → ℕ
next_counter n = (n + 1) % u64_size

-- How a wait ends that no answer ends: the sender was dropped, or the time is up.
pub data Ending : Type 0 where
  dropped elapsed : Ending

abbrev pub channel_closed : ConnError
channel_closed = protocol (codes "send channel closed")

-- The headers without those that ask for a receipt.
unfoldable pub without_receipt : Frame → Frame
without_receipt f = record f {
  headers = retain (λ h. not (eq_ignore_ascii_case h.0 (codes "receipt"))) f.headers;
}

abbrev pub receipt_id_of : ℕ → Bytes
receipt_id_of n = codes "rcpt-" ++ to_string n

abbrev pub is_awaited : Bytes → List Bytes → Bool
is_awaited id = any (λ j. bytes_eq j id)

module _ (l : Links) where
  abbrev pub Outcome : Type 0 → Type 0
  Outcome A = Client l × Result A ConnError

  -- `outbound_tx.send(…).await`
  unfoldable pub enqueue : Outbound → Client l → Outcome Unit
  enqueue o c =
      let (t, accepted) = l.outbound.send c.outbound o in
      (record c { outbound = t }, if accepted then ok tt else err channel_closed)

  unfoldable pub send_frame : Frame → Client l → Outcome Unit
  unfolding enqueue
  send_frame f c = enqueue (item (Codec.frame f)) c

  unfoldable pub send : Bytes → Bytes → Client l → Outcome Unit
  unfolding send_frame
  send destination body c =
      send_frame
        (set_body (header (Frame.new (codes "SEND")) (codes "destination") destination) body) c

  unfoldable pub send_transaction_frame : Bytes → Bytes → Client l → Outcome Unit
  unfolding enqueue
  send_transaction_frame command transaction_id c =
      enqueue (item (Codec.frame (header (Frame.new command) (codes "transaction") transaction_id)))
        c

  unfoldable pub begin : Bytes → Client l → Outcome Unit
  unfolding send_transaction_frame
  begin = send_transaction_frame (codes "BEGIN")

  unfoldable pub commit : Bytes → Client l → Outcome Unit
  unfolding send_transaction_frame
  commit = send_transaction_frame (codes "COMMIT")

  unfoldable pub abort : Bytes → Client l → Outcome Unit
  unfolding send_transaction_frame
  abort = send_transaction_frame (codes "ABORT")

  unfoldable pub generate_receipt_id : Client l → Client l × Bytes
  generate_receipt_id c = (
    record c { receipt_counter = next_counter c.receipt_counter },
    receipt_id_of c.receipt_counter,
  )

  abbrev pub deregister : Bytes → Client l → Client l
  deregister id c = record c { awaited = retain (λ j. not (bytes_eq j id)) c.awaited }

  -- The handle that is returned is known by its receipt id.
  unfoldable pub send_frame_with_receipt : Frame → Client l → Outcome Bytes
  unfolding generate_receipt_id send_frame without_receipt
  send_frame_with_receipt f c0 =
      let (c1, id) = generate_receipt_id c0 in
      let c2 : Client l = record c1 { awaited = id ∷ c1.awaited } in
      let (c3, outcome) = send_frame (receipt (without_receipt f) id) c2 in
      elim outcome [ ok _ ↦ (c3, ok id) | err e ↦ (deregister id c3, err e) ]

  -- `ReceiptHandle::wait`; the ending is that of a wait with no answer.
  unfoldable pub wait : Bytes → Ending → Client l → Outcome Unit
  wait id ending c = elim (Maps.get id c.answers) [
    | some outcome ↦ (c, elim outcome [ confirmed ↦ ok tt | refused e ↦ err (frame_rejected e) ])
    | none ↦ elim ending [
      | dropped ↦ (c, err (protocol (codes "receipt channel closed unexpectedly")))
      | elapsed ↦ (deregister id c, err (receipt_timeout id))
    ]
  ]

  -- Deliver the outcome to the handle that waits on the frame's `receipt-id`, if one does.
  unfoldable pub settle_receipt : Frame → ReceiptOutcome → Client l → Client l
  settle_receipt f outcome c = elim (get_header f (codes "receipt-id")) [
    | none ↦ c
    | some id ↦
        if is_awaited id c.awaited
        then record (deregister id c) { answers = Maps.insert id outcome c.answers }
        else c
  ]
