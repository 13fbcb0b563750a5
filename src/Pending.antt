-- ===== src/Pending.antt =====
-- connection.rs: the messages that were delivered and are not yet acknowledged, by subscription.
pub mod Settling
pub mod Lookup
pub mod Sessions
use iridium_stomp.Base.{
  ℕ, zero, suc, Bool, List, [], ◌∷◌, ◌++◌, Option, none, some, unwrap_or, or_else, if◌then◌else◌,
  drop, is_empty,
}
use iridium_stomp.Base.Maps
use iridium_stomp.Base.Maps.{Map}
use iridium_stomp.Base.Text.Utf8.{Bytes, bytes_eq}
use iridium_stomp.Frame.{Frame}
use iridium_stomp.Subscription.{AckMode, auto, client, client_individual}

pub record PendingMessage : Type 0 where
  pub ack_id : Bytes
  pub message_id : Bytes
  pub frame : Frame
  pub session : ℕ

abbrev pub new : Option Bytes → Bytes → Frame → ℕ → PendingMessage
new ack_id message_id frame session = record {
  ack_id = unwrap_or ack_id message_id;
  message_id = message_id;
  frame = frame;
  session = session;
}

abbrev pub PendingMap : Type 0
PendingMap = Map (List PendingMessage)

-- `entry(id).or_insert_with(VecDeque::new).push_back(message)`
unfoldable pub push_back : Bytes → PendingMessage → PendingMap → PendingMap
push_back id message p = Maps.insert id (unwrap_or (Maps.get id p) [] ++ message ∷ []) p

-- `iter().position(test)`, with the message there.
unfoldable pub position :
    (PendingMessage → Bool) → List PendingMessage → Option (ℕ × PendingMessage)
position test [] = none
position test (m ∷ queue) =
    if test m
    then some (0, m)
    else elim (position test queue) [ none ↦ none | some (pos, found) ↦ some (suc pos, found) ]

-- A message is named by its `ack` header first, and then by its `message-id`.
unfoldable pub find_message : Bytes → List PendingMessage → Option (ℕ × PendingMessage)
unfolding position
find_message id queue =
    or_else (position (λ m. bytes_eq m.ack_id id) queue)
      (position (λ m. bytes_eq m.message_id id) queue)

-- `VecDeque::remove`
unfoldable pub remove_at : ℕ → List PendingMessage → List PendingMessage
remove_at pos [] = []
remove_at zero (m ∷ queue) = queue
remove_at (suc pos) (m ∷ queue) = m ∷ remove_at pos queue

-- The queue without what an acknowledgement of the message at `pos` settles.
unfoldable pub settle_queue : AckMode → ℕ → List PendingMessage → List PendingMessage
unfolding remove_at
settle_queue client pos queue = drop (suc pos) queue
settle_queue client_individual pos queue = remove_at pos queue
settle_queue auto pos queue = remove_at pos queue

unfoldable pub put_queue : Bytes → List PendingMessage → PendingMap → PendingMap
put_queue id queue p = if is_empty queue then Maps.remove id p else Maps.insert id queue p

-- The middle part of `acknowledge`: the map afterwards, and the message that was named.
unfoldable pub settle : AckMode → Bytes → Bytes → PendingMap → PendingMap × Option PendingMessage
unfolding put_queue
settle mode subscription_id id p = elim (Maps.get subscription_id p) [
  | none ↦ (p, none)
  | some queue ↦ elim (find_message id queue) [
    | none ↦ (p, none)
    | some (pos, found) ↦ (put_queue subscription_id (settle_queue mode pos queue) p, some found)
  ]
]
