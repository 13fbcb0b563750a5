-- ===== src/Pending/Lookup.antt =====
-- What an acknowledgement does to the map of the pending queues.
use iridium_stomp.Base.{
  List, [], ◌∷◌, ◌≡◌, ◌≢◌, ◌⊎◌, inl, inr, refl, none, some, arith, if◌then◌else◌, Option-cases, All,
  unwrap_or,
}
use iridium_stomp.Base.Maps
use iridium_stomp.Base.Maps.Laws.{get-insert, get-remove}
use iridium_stomp.Base.Text.Bytes.{bytes_eq_iff}
use iridium_stomp.Base.Text.Utf8.{Bytes, bytes_eq}
use iridium_stomp.Pending.{
  PendingMessage, PendingMap, position, find_message, settle_queue, put_queue, settle,
}
use iridium_stomp.Pending.Settling.{Settles, settle_queue-Settles, position-none, differs}
use iridium_stomp.Subscription.{AckMode}

-- The pending queue of a subscription.
abbrev pub queue_of : Bytes → PendingMap → List PendingMessage
queue_of sub p = unwrap_or (Maps.get sub p) []

pub put_queue_lem :
    (sub j : Bytes) (queue : List PendingMessage) (p : PendingMap)
    → queue_of j (put_queue sub queue p) ≡ (if bytes_eq sub j then queue else queue_of j p)
unfolding put_queue
put_queue_lem sub j [] p = ground (arith, get-remove sub j p, bytes_eq_iff sub j)
put_queue_lem sub j (m ∷ queue) p =
    ground (arith, get-insert sub j (m ∷ queue) p, bytes_eq_iff sub j)

-- No message of the queue has this id.
abbrev pub NotNamed : Bytes → List PendingMessage → Type 0
NotNamed id queue = All (λ x. x.ack_id ≢ id) queue × All (λ x. x.message_id ≢ id) queue

find_message-NotNamed :
    (id : Bytes) (queue : List PendingMessage) → find_message id queue ≡ none → NotNamed id queue
unfolding find_message
find_message-NotNamed id queue h =
    elim (Option-cases (position (λ x. bytes_eq x.ack_id id) queue)) [
      | inl nowhere ↦ (
        differs (λ x. x.ack_id) id queue (position-none (λ x. bytes_eq x.ack_id id) queue nowhere),
        differs (λ x. x.message_id) id queue
            (position-none (λ x. bytes_eq x.message_id id) queue (rw nowhere at h)),
      )
      | inr ((pos, m), e) ↦ cc
    ]

-- The outcome of `settle`: nothing is named, or a message is found and its queue settled.
pub settle-cases :
    (mode : AckMode) (sub id : Bytes) (p : PendingMap)
    → ((settle mode sub id p ≡ (p, none)) × NotNamed id (queue_of sub p))
      ⊎ ((m : PendingMessage) × (rest : List PendingMessage) × (settle mode sub id p
            ≡ (put_queue sub rest p, some m))
          × Settles mode id (queue_of sub p) rest m)
unfolding settle
settle-cases mode sub id p = elim (Option-cases (Maps.get sub p)) [
  | inl e ↦ inl (rw (e, settle) refl, rw e (tt, tt))
  | inr (queue, e) ↦ elim (Option-cases (find_message id queue)) [
    | inl n ↦ inl (rw (e, n, settle) refl, rw e (find_message-NotNamed id queue n))
    | inr ((pos, m), n) ↦ inr (
      m,
      settle_queue mode pos queue,
      rw (e, n, settle) refl,
      rw e (settle_queue-Settles mode id queue pos m n),
    )
  ]
]
