-- ===== src/Task/Message.antt =====
-- connection.rs: which subscriptions a MESSAGE frame is for, and which of them will acknowledge it.
use iridium_stomp.Base.{
  Bool, false, not, ◌&&◌, List, [], ◌∷◌, Option, none, some, unwrap_or, if◌then◌else◌, map, any,
  retain, is_some,
}
use iridium_stomp.Base.Maps
use iridium_stomp.Base.Text.Ascii.{lowercase_is}
use iridium_stomp.Base.Text.Utf8.{Bytes, codes}
use iridium_stomp.Client.{Links}
use iridium_stomp.Delivery.{SubscriptionEntry}
use iridium_stomp.Frame.{Frame, Header}
use iridium_stomp.Pending.{PendingMap, push_back}
use iridium_stomp.Pending
use iridium_stomp.Registry.{Subscriptions, has_id, entries}
use iridium_stomp.Subscription.{acknowledges}
use iridium_stomp.Task.{Task, set_pending}

-- The headers that a MESSAGE is dispatched by. Of a repeated one the last counts, but for `ack`.
pub record MessageIds : Type 0 where
  pub destination : Option Bytes
  pub subscription : Option Bytes
  pub message_id : Option Bytes
  pub ack_id : Option Bytes

abbrev pub no_ids : MessageIds
no_ids = record { destination = none; subscription = none; message_id = none; ack_id = none }

unfoldable pub scan_header : Header → MessageIds → MessageIds
scan_header (k, v) ids =
    if lowercase_is k (codes "destination")
    then record ids { destination = some v }
    else if lowercase_is k (codes "subscription")
    then record ids { subscription = some v }
    else if lowercase_is k (codes "message-id")
    then record ids { message_id = some v }
    else if lowercase_is k (codes "ack") && not (is_some ids.ack_id)
    then record ids { ack_id = some v }
    else ids

unfoldable pub scan_headers : List Header → MessageIds → MessageIds
unfolding scan_header
scan_headers [] ids = ids
scan_headers (h ∷ hs) ids = scan_headers hs (scan_header h ids)

-- The entries under a destination.
abbrev pub entries_at : {S : Type 0} → Bytes → Subscriptions S → List (SubscriptionEntry S)
entries_at dest m = unwrap_or (Maps.get dest m) []

-- Whether a message is to be acknowledged.
unfoldable pub needs_pending : {S : Type 0} → MessageIds → Subscriptions S → Bool
needs_pending ids m = elim ids.subscription [
  | some sub ↦ any (λ e. has_id sub e && acknowledges e.ack) (entries m)
  | none ↦ elim ids.destination [
    | some dest ↦ any (λ e. acknowledges e.ack) (entries_at dest m)
    | none ↦ false
  ]
]

-- The subscriptions whose pending queues a message joins.
unfoldable pub pending_ids : {S : Type 0} → MessageIds → Subscriptions S → List Bytes
pending_ids ids m = elim ids.subscription [
  | some sub ↦ sub ∷ []
  | none ↦ elim ids.destination [
    | some dest ↦ map (λ e. e.id) (retain (λ e. acknowledges e.ack) (entries_at dest m))
    | none ↦ []
  ]
]

unfoldable pub push_all : List Bytes → Pending.PendingMessage → PendingMap → PendingMap
push_all [] message p = p
push_all (id ∷ ids) message p = push_all ids message (push_back id message p)

module _ (l : Links) where
  -- Record the message for the subscriptions that will acknowledge it.
  unfoldable pub track : Frame → MessageIds → Task l → Task l
  unfolding needs_pending pending_ids push_all
  track f ids t = elim ids.message_id [
    | none ↦ t
    | some message_id ↦
        if needs_pending ids t.client.subscriptions
        then set_pending l
            (push_all (pending_ids ids t.client.subscriptions)
              (Pending.new ids.ack_id message_id f t.session) t.client.pending)
            t
        else t
  ]
