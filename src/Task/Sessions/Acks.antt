-- ===== src/Task/Sessions/Acks.antt =====
-- Acknowledgements that the task comes to write on another connection than their message's.
use iridium_stomp.Base.{
  ==_iff, Bool-cases, if◌then◌else◌, ◌==◌, ℕ, List, [], ◌∷◌, Option, none, some, ◌≡◌, ◌≢◌, refl,
  inl, inr, arith, Option-cases, All, ◌==◌, if◌then◌else◌, Bool, Bool-cases,
}
use iridium_stomp.Base.Maps
use iridium_stomp.Base.Maps.Queues.{AllIn-get}
use iridium_stomp.Base.Text.Utf8.{Bytes, bytes_eq}
use iridium_stomp.Client.{Links}
use iridium_stomp.Client.Acknowledging.{acknowledgement, ack_frame_for}
use iridium_stomp.Codec.{frame}
use iridium_stomp.Outbound.{item, ack, writable_in}
use iridium_stomp.Frame.{Frame}
use iridium_stomp.Pending.{PendingMessage, PendingMap, position, find_message, settle}
use iridium_stomp.Pending.Sessions.{IsFrom, AllFrom}
use iridium_stomp.Subscription.{AckMode}
use iridium_stomp.Task.{Task, next, on_outbound}
use iridium_stomp.Task.Sessions.Events.{Reachable-IsCurrent}
use iridium_stomp.Task.Steps.{Phase, Reachable}

-- The message that was found, if one was, is from connection `session`.
abbrev Found : ℕ → Option (ℕ × PendingMessage) → Type 0
Found session none = Unit
Found session (some (pos, m)) = IsFrom session m

abbrev Settled : ℕ → Option PendingMessage → Type 0
Settled session none = Unit
Settled session (some m) = IsFrom session m

position-Found :
    (session : ℕ) (test : PendingMessage → Bool) (queue : List PendingMessage)
    → All (IsFrom session) queue
    → Found session (position test queue)
unfolding position
position-Found session test [] h = tt
position-Found session test (x ∷ queue) h = ground (arith, position-Found session test queue h.1)

find_message-Found :
    (session : ℕ) (id : Bytes) (queue : List PendingMessage)
    → All (IsFrom session) queue
    → Found session (find_message id queue)
unfolding find_message
find_message-Found session id queue h = ground (
  arith,
  position-Found session (λ m. bytes_eq m.ack_id id) queue h,
  position-Found session (λ m. bytes_eq m.message_id id) queue h,
)

settle-Settled :
    (session : ℕ) (mode : AckMode) (sub id : Bytes) (p : PendingMap)
    → AllFrom session p
    → Settled session (settle mode sub id p).1
unfolding settle
settle-Settled session mode sub id p h = elim (Option-cases (Maps.get sub p)) [
  | inl e ↦ rw (e, settle) tt
  | inr (queue, e) ↦
      rw (e, settle)
        (ground (
          arith,
          find_message-Found session id queue (rw e at (AllIn-get (IsFrom session) sub p h)),
        ))
]

writable_in-stale :
    (f : Frame) (issued session : ℕ) → issued ≢ session → writable_in (ack f issued) session ≡ none
unfolding writable_in
writable_in-stale f issued session h = ground arith

writable_in-current :
    (f : Frame) (issued session : ℕ)
    → issued ≡ session
    → writable_in (ack f issued) session ≡ some (frame f)
unfolding writable_in
writable_in-current f issued session h = ground arith

module _ (l : Links) where
  -- In every state that the task can come to, an acknowledgement that finds its message pending is
  -- bound to the connection that the task is at: if the task is still there when it comes to write
  -- it, it writes it like any other frame, and at another connection it drops it and stays as it was.
  pub Reachable-drops_stale_acks :
      (lowercase : Bytes → Bytes) {p : Phase} {t : Task l}
      → Reachable l lowercase p t
      → (mode : AckMode) (command sub id : Bytes) (m : PendingMessage) (u : Task l)
      → (settle mode sub id t.client.pending).1 ≡ some m
      → on_outbound l (acknowledgement command sub id (some m)) u ≡ (
          if t.session == u.session
          then on_outbound l (item (frame (ack_frame_for command m.ack_id sub))) u
          else (u, next))
  unfolding acknowledgement on_outbound
  Reachable-drops_stale_acks lowercase {t = t} r mode command sub id m u e =
      let here : Settled t.session (some m) = rw e at (
        settle-Settled t.session mode sub id t.client.pending
          (Reachable-IsCurrent l lowercase r)) in
      elim (Bool-cases (t.session == u.session)) [
        | inl there ↦
            rw
              (
                there,
                writable_in-current (ack_frame_for command m.ack_id sub) m.session u.session
                    (omega (arith, here, (==_iff t.session u.session).0 there)),
                on_outbound,
              )
              (unfold writable_in in refl)
        | inr elsewhere ↦
            rw
              (
                elsewhere,
                writable_in-stale (ack_frame_for command m.ack_id sub) m.session u.session
                    (λ k. ground (arith, here, k)),
                on_outbound,
              )
              refl
      ]
