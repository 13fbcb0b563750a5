-- ===== src/Pending/Settling.antt =====
-- What an acknowledgement removes from a subscription's pending queue.
use iridium_stomp.Base.{
  ℕ, Bool, true, false, List, [], ◌∷◌, ◌++◌, ◌≡◌, ◌≢◌, ◌⊎◌, inl, inr, refl, sym, ap, ap₂, ◌∙◌, none,
  some, arith, if◌then◌else◌, Bool-cases, Option-cases, All, length,
}
use iridium_stomp.Base.Text.Bytes.{bytes_eq_iff}
use iridium_stomp.Base.Text.Utf8.{Bytes, bytes_eq}
use iridium_stomp.Pending.{PendingMessage, position, find_message, remove_at, settle_queue}
use iridium_stomp.Subscription.{AckMode, auto, client, client_individual}

-- The message at the first position that passes a test.
record Splits (test : PendingMessage → Bool) (queue : List PendingMessage) (pos : ℕ)
    (m : PendingMessage) : Type 0 where
  before : List PendingMessage
  after : List PendingMessage
  whole : queue ≡ before ++ (m ∷ after)
  place : length before ≡ pos
  passes : test m ≡ true
  first : All (λ x. test x ≡ false) before

position-Splits :
    (test : PendingMessage → Bool) (queue : List PendingMessage) (pos : ℕ) (m : PendingMessage)
    → position test queue ≡ some (pos, m)
    → Splits test queue pos m
unfolding position
position-Splits test [] pos m h = cc
position-Splits test (x ∷ queue) pos m h = elim (Bool-cases (test x)) [
  | inl hit ↦ record {
    before = [];
    after = queue;
    whole = ground arith;
    place = ground arith;
    passes = ground arith;
    first = tt;
  }
  | inr miss ↦ elim (Option-cases (position test queue)) [
    | inl nowhere ↦ absurd (ground arith)
    | inr ((k, found), e) ↦
        let s = position-Splits test queue k found e in
        record {
          before = x ∷ s.before;
          after = s.after;
          whole = ground (arith, s.whole);
          place = ground (arith, s.place);
          passes = ground (arith, s.passes);
          first = (miss, s.first);
        }
  ]
]

pub position-none :
    (test : PendingMessage → Bool) (queue : List PendingMessage)
    → position test queue ≡ none
    → All (λ x. test x ≡ false) queue
unfolding position
position-none test [] h = tt
position-none test (x ∷ queue) h = ground (arith, position-none test queue)

settle_queue_client :
    (before after : List PendingMessage) (m : PendingMessage)
    → settle_queue client (length before) (before ++ (m ∷ after)) ≡ after
unfolding settle_queue
settle_queue_client [] after m = refl
settle_queue_client (x ∷ before) after m = unfold settle_queue in settle_queue_client before after m

remove_at-append :
    (before after : List PendingMessage) (m : PendingMessage)
    → remove_at (length before) (before ++ (m ∷ after)) ≡ before ++ after
unfolding remove_at
remove_at-append [] after m = refl
remove_at-append (x ∷ before) after m = ap (◌∷◌ x) (remove_at-append before after m)

abbrev pub is_cumulative : AckMode → Bool
is_cumulative client = true
is_cumulative client_individual = false
is_cumulative auto = false

settle_queue-append :
    (mode : AckMode) (before after : List PendingMessage) (m : PendingMessage)
    → settle_queue mode (length before) (before ++ (m ∷ after))
      ≡ (if is_cumulative mode then after else before ++ after)
settle_queue-append client before after m = settle_queue_client before after m
settle_queue-append client_individual before after m =
    unfold settle_queue in remove_at-append before after m
settle_queue-append auto before after m = unfold settle_queue in remove_at-append before after m

pub differs :
    (field : PendingMessage → Bytes) (id : Bytes) (l : List PendingMessage)
    → All (λ x. bytes_eq (field x) id ≡ false) l
    → All (λ x. field x ≢ id) l
differs field id [] h = tt
differs field id (x ∷ l) h = ground (arith, bytes_eq_iff (field x) id, differs field id l h.1)

abbrev pub Named : Bytes → List PendingMessage → List PendingMessage → PendingMessage → Type 0
Named id queue before m =
    ((m.ack_id ≡ id) × All (λ x. x.ack_id ≢ id) before)
    ⊎ ((m.message_id ≡ id) × All (λ x. x.ack_id ≢ id) queue × All (λ x. x.message_id ≢ id) before)

-- An acknowledgement by `id` found `m` and left `rest` of the queue: `m` is the first message whose
-- `ack` header is `id` or, where the queue has none such, the first whose `message-id` is. In mode
-- `client` everything up to `m` is gone, and otherwise `m` alone.
pub record Settles (mode : AckMode) (id : Bytes) (queue rest : List PendingMessage)
    (m : PendingMessage) : Type 0 where
  pub before : List PendingMessage
  pub after : List PendingMessage
  pub whole : queue ≡ before ++ (m ∷ after)
  pub left : rest ≡ (if is_cumulative mode then after else before ++ after)
  pub named : Named id queue before m

Splits-Settles :
    (mode : AckMode) (id : Bytes) {test : PendingMessage → Bool} {queue : List PendingMessage}
    {pos : ℕ} {m : PendingMessage} (s : Splits test queue pos m)
    → Named id queue s.before m
    → Settles mode id queue (settle_queue mode pos queue) m
Splits-Settles mode id s named = record {
  before = s.before;
  after = s.after;
  whole = s.whole;
  left =
      ap₂ (settle_queue mode) (sym s.place) s.whole ∙ settle_queue-append mode s.before s.after _;
  named = named;
}

-- If `find_message` finds a message at a position, it is the first of the queue whose `ack` id is the
-- one named or, if there is none, the first whose `message-id` is; and `settle_queue` at that
-- position takes it and everything before it out in mode `client`, and it alone in the others.
pub settle_queue-Settles :
    (mode : AckMode) (id : Bytes) (queue : List PendingMessage) (pos : ℕ) (m : PendingMessage)
    → find_message id queue ≡ some (pos, m)
    → Settles mode id queue (settle_queue mode pos queue) m
unfolding find_message
settle_queue-Settles mode id queue pos m h = elim (Option-cases (position by_ack queue)) [
  | inl nowhere ↦
      let s = position-Splits by_message queue pos m (rw nowhere at h) in
      Splits-Settles mode id s (
        inr (
          (bytes_eq_iff m.message_id id).0 s.passes,
          differs (λ x. x.ack_id) id queue (position-none by_ack queue nowhere),
          differs (λ x. x.message_id) id s.before s.first,
        ))
  | inr ((k, found), e) ↦
      let s = position-Splits by_ack queue pos m (e ∙ (rw e at h)) in
      Splits-Settles mode id s
        (inl ((bytes_eq_iff m.ack_id id).0 s.passes, differs (λ x. x.ack_id) id s.before s.first))
]
  where
    by_ack : PendingMessage → Bool
    by_ack x = bytes_eq x.ack_id id

    by_message : PendingMessage → Bool
    by_message x = bytes_eq x.message_id id
