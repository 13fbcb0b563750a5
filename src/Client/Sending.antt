-- ===== src/Client/Sending.antt =====
-- Queuing for the background task.
use iridium_stomp.Base.{List, [], ◌∷◌, ◌++◌, ◌≡◌, ◌⊎◌, inl, inr, refl, ok, err, Bool-cases}
use iridium_stomp.Client.{Links, Client, Outcome, channel_closed, enqueue}
use iridium_stomp.Outbound.{Outbound}

module _ (l : Links) where
  -- What was queued for the background task so far.
  abbrev pub queued : Client l → List Outbound
  queued c = l.outbound.sent c.outbound

  -- The call queued exactly this item, behind all others, or the channel was closed and the call
  -- fails with that.
  abbrev pub Queues : Outbound → Client l → Outcome l Unit → Type 0
  Queues o c r =
      ((r.1 ≡ ok tt) × (queued r.0 ≡ queued c ++ o ∷ []))
      ⊎ ((r.1 ≡ err channel_closed) × (queued r.0 ≡ queued c))

  pub enqueue-Queues : (o : Outbound) (c : Client l) → Queues o c (enqueue l o c)
  unfolding enqueue
  enqueue-Queues o c = elim (Bool-cases (l.outbound.send c.outbound o).1) [
    | inl accepted ↦ inl (rw accepted refl, l.outbound.send_true c.outbound o accepted)
    | inr refused ↦ inr (rw refused refl, l.outbound.send_false c.outbound o refused)
  ]
