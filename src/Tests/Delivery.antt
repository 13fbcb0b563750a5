-- ===== src/Tests/Delivery.antt =====
-- Delivery to a subscription, and acknowledgements.
use iridium_stomp.Base.{ℕ, true, List, [], ◌∷◌, ◌++◌, some, ◌≡◌, refl}
use iridium_stomp.Base.Text.Utf8.{codes, bytes_eq}
use iridium_stomp.Channel.Bounded.{Bounded, bounded}
use iridium_stomp.Delivery.Order.{stream, Streams, deliver_and_keep-Streams}
use iridium_stomp.Delivery.Warnings.{Holds, deliver_and_keep-IsBounded, new_overflow-IsBounded}
use iridium_stomp.Delivery.{SubscriptionEntry, overflowed, new_overflow, deliver_and_keep}
use iridium_stomp.Frame.{Frame}
use iridium_stomp.Pending.Settling.{Settles, settle_queue-Settles}
use iridium_stomp.Pending.{PendingMessage, find_message, settle_queue}
use iridium_stomp.Pending
use iridium_stomp.Subscription.{client}

abbrev message : ℕ → Frame
message n = record { command = codes "MESSAGE"; headers = []; body = n ∷ [] }

-- An entry whose channel has room for one frame, with an overflow limit of 1.
abbrev entry : SubscriptionEntry (Bounded Frame)
entry = record {
  id = codes "1";
  sender = record { accepted = []; capacity = 1; open? = true };
  ack = client;
  headers = [];
  overflow = new_overflow 1 1;
}

abbrev deliver : SubscriptionEntry (Bounded Frame) → ℕ → SubscriptionEntry (Bounded Frame)
deliver e n = (deliver_and_keep (bounded Frame) e (message n)).0

-- The first frame fills the channel, the second is parked, the third finds the queue at its limit.
third_overflows :
    deliver_and_keep (bounded Frame) (deliver (deliver entry 1) 2) (message 3)
    ≡ (deliver (deliver entry 1) 2, overflowed)
unfolding deliver_and_keep new_overflow
third_overflows = refl

second_parked : stream (bounded Frame) (deliver (deliver entry 1) 2) ≡ message 1 ∷ message 2 ∷ []
unfolding deliver_and_keep new_overflow
second_parked = refl

deliver_and_keep-Streams_example :
    Streams
      (bounded Frame)
      (stream (bounded Frame) (deliver entry 1))
      (message 2)
      (deliver_and_keep (bounded Frame) (deliver entry 1) (message 2))
deliver_and_keep-Streams_example =
    deliver_and_keep-Streams (bounded Frame) (deliver entry 1) (message 2)

deliver_and_keep-IsBounded_example : Holds (bounded Frame) (deliver entry 1)
deliver_and_keep-IsBounded_example =
    deliver_and_keep-IsBounded (bounded Frame) entry (message 1) (new_overflow-IsBounded 1 1)

abbrev pending : ℕ → PendingMessage
pending n = Pending.new (some (codes "ack-" ++ n ∷ [])) (codes "msg-" ++ n ∷ []) (message n) 0

abbrev queue : List PendingMessage
queue = pending b'1' ∷ pending b'2' ∷ pending b'3' ∷ []

settle_queue-Settles_example :
    Settles client (codes "msg-2") queue (settle_queue client 1 queue) (pending b'2')
unfolding find_message bytes_eq
settle_queue-Settles_example =
    settle_queue-Settles client (codes "msg-2") queue 1 (pending b'2') refl
