-- ===== src/Client/Acks.antt =====
-- What a call of `ack` or `nack` does.
use iridium_stomp.Base.{true, List, ◌≡◌, ◌⊎◌, inl, inr, refl, some, ok, if◌then◌else◌}
use iridium_stomp.Base.Text.Utf8.{Bytes, bytes_eq}
use iridium_stomp.Client.{Links, Client, Outcome, enqueue}
use iridium_stomp.Client.Acknowledging.{acknowledgement, ack_frame_for, acknowledge}
use iridium_stomp.Client.Sending.{Queues, enqueue-Queues}
use iridium_stomp.Outbound.{ack}
use iridium_stomp.Pending.{PendingMessage, put_queue}
use iridium_stomp.Pending.Lookup.{queue_of, put_queue_lem, NotNamed, settle-cases}
use iridium_stomp.Pending.Settling.{Settles}
use iridium_stomp.Registry.{managed_mode}
use iridium_stomp.Subscription.{AckMode, acknowledges}

module _ (l : Links) where
  -- The call named no outstanding message and did nothing; or it settled one in its queue, left the
  -- other queues alone, and queued the acknowledgement of it, bound to the message's connection.
  abbrev pub Acknowledges : Bytes → Bytes → Bytes → AckMode → Client l → Outcome l Unit → Type 0
  Acknowledges command sub id mode c r =
      ((r ≡ (c, ok tt)) × NotNamed id (queue_of sub c.pending))
      ⊎ ((m : PendingMessage) × (rest : List PendingMessage) × Settles mode id
            (queue_of sub c.pending) rest m
          × ((j : Bytes)
              → queue_of j r.0.pending ≡ (if bytes_eq sub j then rest else queue_of j c.pending))
          × Queues l (ack (ack_frame_for command m.ack_id sub) m.session) c r)

  -- Acknowledging in a subscription of a client mode does nothing where the id names no outstanding
  -- message. Otherwise exactly the messages that the mode settles leave the queue, the other
  -- queues stay, and what is queued names the message by its `ack` id and is bound to the
  -- connection that delivered it.
  pub acknowledge-Acknowledges :
      (command sub id : Bytes) (mode : AckMode) (c : Client l)
      → managed_mode sub c.subscriptions ≡ some mode
      → acknowledges mode ≡ true
      → Acknowledges command sub id mode c (acknowledge l command sub id c)
  unfolding acknowledge acknowledgement
  acknowledge-Acknowledges command sub id mode c managed acks =
      elim (settle-cases mode sub id c.pending) [
        | inl (e, unnamed) ↦ inl (rw (managed, e, acks, acknowledge) refl, unnamed)
        | inr (m, rest, e, settles) ↦
            let settled : Client l = record c { pending = put_queue sub rest c.pending } in
            let run : acknowledge l command sub id c
                ≡ enqueue l (ack (ack_frame_for command m.ack_id sub) m.session) settled =
              rw (managed, e, acknowledge) refl in
            rw run (
              inr (
                m,
                rest,
                settles,
                (λ j. unfold enqueue in put_queue_lem sub j rest c.pending),
                enqueue-Queues l _ settled,
              ))
      ]
