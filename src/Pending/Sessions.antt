-- ===== src/Pending/Sessions.antt =====
-- The connections that the pending messages were delivered on.
use iridium_stomp.Base.{ℕ, zero, suc, List, [], ◌∷◌, some, ◌≡◌, inl, inr, arith, Option-cases, All}
use iridium_stomp.Base.Maps
use iridium_stomp.Base.Maps.Queues.{
  AllIn, All-drop, AllIn-get, AllIn-insert, AllIn-remove, AllIn-push,
}
use iridium_stomp.Base.Text.Utf8.{Bytes}
use iridium_stomp.Pending.{
  PendingMessage, PendingMap, push_back, remove_at, settle_queue, put_queue, settle, find_message,
}
use iridium_stomp.Subscription.{AckMode, auto, client, client_individual}

-- The message was delivered on connection `session`.
abbrev pub IsFrom : ℕ → PendingMessage → Type 0
IsFrom session m = m.session ≡ session

-- Every pending message was delivered on connection `session`.
abbrev pub AllFrom : ℕ → PendingMap → Type 0
AllFrom session p = AllIn (IsFrom session) p

module _ (session : ℕ) where
  remove_at-AllFrom :
      (pos : ℕ) (queue : List PendingMessage)
      → All (IsFrom session) queue
      → All (IsFrom session) (remove_at pos queue)
  unfolding remove_at
  remove_at-AllFrom pos [] h = tt
  remove_at-AllFrom zero (m ∷ queue) h = h.1
  remove_at-AllFrom (suc pos) (m ∷ queue) h = (h.0, remove_at-AllFrom pos queue h.1)

  settle_queue-AllFrom :
      (mode : AckMode) (pos : ℕ) (queue : List PendingMessage)
      → All (IsFrom session) queue
      → All (IsFrom session) (settle_queue mode pos queue)
  unfolding settle_queue
  settle_queue-AllFrom client pos queue h = All-drop (IsFrom session) (suc pos) queue h
  settle_queue-AllFrom client_individual pos queue h = remove_at-AllFrom pos queue h
  settle_queue-AllFrom auto pos queue h = remove_at-AllFrom pos queue h

  pub push_back-AllFrom :
      (id : Bytes) (m : PendingMessage) (p : PendingMap)
      → IsFrom session m
      → AllFrom session p
      → AllFrom session (push_back id m p)
  unfolding push_back
  push_back-AllFrom id m p hm h = AllIn-push (IsFrom session) id m p hm h

  put_queue-AllFrom :
      (id : Bytes) (queue : List PendingMessage) (p : PendingMap)
      → All (IsFrom session) queue
      → AllFrom session p
      → AllFrom session (put_queue id queue p)
  unfolding put_queue
  put_queue-AllFrom id queue p hq h =
      ground
        (arith, AllIn-remove (IsFrom session) id p h, AllIn-insert (IsFrom session) id queue p hq h)

  queue-AllFrom :
      (id : Bytes) (p : PendingMap) (queue : List PendingMessage)
      → AllFrom session p
      → Maps.get id p ≡ some queue
      → All (IsFrom session) queue
  queue-AllFrom id p queue h e = rw e at (AllIn-get (IsFrom session) id p h)

  pub settle-AllFrom :
      (mode : AckMode) (sub id : Bytes) (p : PendingMap)
      → AllFrom session p
      → AllFrom session (settle mode sub id p).0
  unfolding settle
  settle-AllFrom mode sub id p h = elim (Option-cases (Maps.get sub p)) [
    | inl e ↦ rw (e, settle) h
    | inr (queue, e) ↦
        rw (e, settle)
          (elim (Option-cases (find_message id queue)) [
            | inl n ↦ rw (n, settle) h
            | inr ((pos, found), n) ↦
                rw (n, settle)
                  (put_queue-AllFrom sub (settle_queue mode pos queue) p
                    (settle_queue-AllFrom mode pos queue (queue-AllFrom sub p queue h e)) h)
          ])
  ]
