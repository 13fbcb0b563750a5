-- ===== src/Client/Subscribing.antt =====
-- connection.rs and subscription.rs: subscribing, unsubscribing and dropping a handle.
use iridium_stomp.Base.{
  ℕ, max, Bool, true, false, List, [], Option, ok, err, unwrap_or, if◌then◌else◌,
}
use iridium_stomp.Base.Maps
use iridium_stomp.Base.Text.Decimal.{to_string}
use iridium_stomp.Base.Text.Utf8.{Bytes, codes}
use iridium_stomp.Client.{Links, Client, Subscription, next_counter, Outcome, enqueue}
use iridium_stomp.Codec
use iridium_stomp.Delivery.{SubscriptionEntry, new_overflow}
use iridium_stomp.Frame.{Frame, Header, header}
use iridium_stomp.Frame
use iridium_stomp.Outbound.{item}
use iridium_stomp.Registry.{
  end_subscription, add_entry, is_registered, remove_subscription, retain_others, subscribe_frame,
}
use iridium_stomp.ServerError.{protocol}
use iridium_stomp.Subscription.{
  AckMode, SubscriptionOptions, default_channel_capacity, default_overflow_limit, SubscriptionEnd,
  unsubscribed,
}

abbrev pub unsubscribe_frame : Bytes → Frame
unsubscribe_frame id = header (Frame.new (codes "UNSUBSCRIBE")) (codes "id") id

module _ (l : Links) where
  unfoldable pub subscribe_with_capacity :
      Bytes → AckMode → List Header → ℕ → ℕ → Client l → Outcome l Subscription
  unfolding enqueue
  subscribe_with_capacity destination mode extra_headers capacity overflow_limit c0 =
      let id : Bytes = to_string c0.sub_id_counter in
      let entry : SubscriptionEntry l.frames.Sender = record {
        id = id;
        sender = l.frames.channel (max capacity 1);
        ack = mode;
        headers = extra_headers;
        overflow = new_overflow overflow_limit capacity;
      } in
      let c1 : Client l = record c0 {
        sub_id_counter = next_counter c0.sub_id_counter;
        subscriptions = add_entry destination entry c0.subscriptions;
      } in
      let (c2, outcome) =
        enqueue l (item (Codec.frame (subscribe_frame id destination mode extra_headers))) c1 in
      elim outcome [
        | ok _ ↦ (c2, ok (record { id = id; destination = destination; unsubscribed = false }))
        | err e ↦ (c2, err e)
      ]

  unfoldable pub subscribe_with_headers :
      Bytes → AckMode → List Header → Client l → Outcome l Subscription
  unfolding subscribe_with_capacity
  subscribe_with_headers destination mode extra_headers =
      subscribe_with_capacity destination mode extra_headers default_channel_capacity
        default_overflow_limit

  unfoldable pub subscribe : Bytes → AckMode → Client l → Outcome l Subscription
  unfolding subscribe_with_headers
  subscribe destination mode = subscribe_with_headers destination mode []

  unfoldable pub subscribe_with_options :
      Bytes → AckMode → SubscriptionOptions → Client l → Outcome l Subscription
  unfolding subscribe_with_capacity
  subscribe_with_options destination mode options =
      subscribe_with_capacity destination mode options.headers
        (unwrap_or options.channel_capacity default_channel_capacity)
        (unwrap_or options.overflow_limit default_overflow_limit)

  unfoldable pub unsubscribe : Bytes → Client l → Outcome l Unit
  unfolding enqueue
  unsubscribe id c =
      if is_registered id c.subscriptions
      then enqueue l (item (Codec.frame (unsubscribe_frame id))) (record c {
        subscriptions = remove_subscription id c.subscriptions;
        ended = end_subscription id unsubscribed c.ended;
        pending = Maps.remove id c.pending;
      })
      else (
        record c { subscriptions = remove_subscription id c.subscriptions },
        err (protocol (codes "subscription id not found")),
      )

  -- Each lock is taken only if it is free, and the frame is queued only if there is room.
  unfoldable pub unsubscribe_best_effort : Bool → Bool → Bytes → Client l → Client l
  unsubscribe_best_effort registry_free pending_free id c0 =
      let c1 : Client l =
        if registry_free
        then record c0 {
          subscriptions = retain_others id c0.subscriptions;
          ended =
              if is_registered id c0.subscriptions
              then end_subscription id unsubscribed c0.ended
              else c0.ended;
        }
        else c0 in
      let c2 : Client l =
        if pending_free then record c1 { pending = Maps.remove id c1.pending } else c1 in
      let (t, outcome) =
        l.outbound.try_send c2.outbound (item (Codec.frame (unsubscribe_frame id))) in
      record c2 { outbound = t }

  -- `Subscription::unsubscribe`: the handle is marked first.
  unfoldable pub unsubscribe_handle : Subscription → Client l → Subscription × Outcome l Unit
  unfolding unsubscribe
  unsubscribe_handle s c = (record s { unsubscribed = true }, unsubscribe s.id c)

  -- `Subscription::into_receiver`: the caller keeps the stream.
  abbrev pub into_receiver : Subscription → Subscription
  into_receiver s = record s { unsubscribed = true }

  -- `Drop` of a handle.
  unfoldable pub drop_handle : Bool → Bool → Subscription → Client l → Client l
  unfolding unsubscribe_best_effort
  drop_handle registry_free pending_free s c =
      if s.unsubscribed then c else unsubscribe_best_effort registry_free pending_free s.id c

  -- `Subscription::ended`
  abbrev pub ended : Subscription → Client l → Option SubscriptionEnd
  ended s c = Maps.get s.id c.ended
