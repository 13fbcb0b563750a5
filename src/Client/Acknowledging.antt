-- ===== src/Client/Acknowledging.antt =====
-- connection.rs and subscription.rs: acknowledging a delivered message.
use iridium_stomp.Base.{
  Bool, false, Option, none, some, Result, ok, err, unwrap_or, or_else, if◌then◌else◌,
}
use iridium_stomp.Base.Text.Utf8.{Bytes, codes}
use iridium_stomp.Client.{Links, Client, Subscription, Outcome, enqueue}
use iridium_stomp.Codec
use iridium_stomp.Frame.{Frame, header, get_header}
use iridium_stomp.Frame
use iridium_stomp.Outbound.{Outbound, item, ack}
use iridium_stomp.Pending.{PendingMessage, settle}
use iridium_stomp.Registry.{managed_mode}
use iridium_stomp.ServerError.{ConnError, missing_ack_id}
use iridium_stomp.Subscription.{AckMode, client, acknowledges}

-- The id to acknowledge a frame with.
unfoldable pub ack_id_of : Frame → Result Bytes ConnError
ack_id_of f = elim (or_else (get_header f (codes "ack")) (get_header f (codes "message-id"))) [
  | none ↦ err missing_ack_id
  | some id ↦ ok id
]

unfoldable pub ack_frame_for : Bytes → Bytes → Bytes → Frame
ack_frame_for command id subscription_id =
    header (header (Frame.new command) (codes "id") id) (codes "subscription") subscription_id

-- What `acknowledge` queues: an acknowledgement bound to the connection of the message it found.
unfoldable pub acknowledgement : Bytes → Bytes → Bytes → Option PendingMessage → Outbound
unfolding ack_frame_for
acknowledgement command subscription_id id (some m) =
    ack (ack_frame_for command m.ack_id subscription_id) m.session
acknowledgement command subscription_id id none =
    item (Codec.frame (ack_frame_for command id subscription_id))

-- The library records every message of such a subscription, so an id that it did not find is not sent.
abbrev pub is_stale : Option AckMode → Option PendingMessage → Bool
is_stale (some mode) none = acknowledges mode
is_stale _ _ = false

module _ (l : Links) where
  unfoldable pub acknowledge : Bytes → Bytes → Bytes → Client l → Outcome l Unit
  unfolding acknowledgement enqueue
  acknowledge command subscription_id id c0 =
      let managed = managed_mode subscription_id c0.subscriptions in
      let (p, found) = settle (unwrap_or managed client) subscription_id id c0.pending in
      let c1 : Client l = record c0 { pending = p } in
      if is_stale managed found
      then (c1, ok tt)
      else enqueue l (acknowledgement command subscription_id id found) c1

  unfoldable pub ack_message : Bytes → Bytes → Client l → Outcome l Unit
  unfolding acknowledge
  ack_message = acknowledge (codes "ACK")

  unfoldable pub nack_message : Bytes → Bytes → Client l → Outcome l Unit
  unfolding acknowledge
  nack_message = acknowledge (codes "NACK")

  abbrev pub with_ack_id : Bytes → Bytes → Frame → Client l → Outcome l Unit
  with_ack_id command subscription_id f c = elim (ack_id_of f) [
    | err e ↦ (c, err e)
    | ok id ↦ acknowledge command subscription_id id c
  ]

  unfoldable pub ack_frame : Bytes → Frame → Client l → Outcome l Unit
  unfolding acknowledge ack_id_of
  ack_frame = with_ack_id (codes "ACK")

  unfoldable pub nack_frame : Bytes → Frame → Client l → Outcome l Unit
  unfolding acknowledge ack_id_of
  nack_frame = with_ack_id (codes "NACK")

  -- `Subscription::ack`, `nack`, `ack_frame` and `nack_frame`: with the id of the handle.
  unfoldable pub handle_ack : Subscription → Bytes → Client l → Outcome l Unit
  unfolding ack_message
  handle_ack s = ack_message s.id

  unfoldable pub handle_nack : Subscription → Bytes → Client l → Outcome l Unit
  unfolding nack_message
  handle_nack s = nack_message s.id

  unfoldable pub handle_ack_frame : Subscription → Frame → Client l → Outcome l Unit
  unfolding ack_frame
  handle_ack_frame s = ack_frame s.id

  unfoldable pub handle_nack_frame : Subscription → Frame → Client l → Outcome l Unit
  unfolding nack_frame
  handle_nack_frame s = nack_frame s.id
