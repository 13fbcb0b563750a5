-- ===== src/Task/Sweeping.antt =====
-- The pending queues after a MESSAGE.
use iridium_stomp.Base.{true, false, ◌||◌, [], ◌∷◌, ◌≡◌, ◌∙◌, arith, All, is_some}
use iridium_stomp.Client.{Links, Client}
use iridium_stomp.Frame.{Frame}
use iridium_stomp.Pending.{PendingMap}
use iridium_stomp.Registry.{Subscriptions, is_registered}
use iridium_stomp.Task.{Task}
use iridium_stomp.Task.Dispatch.{
  sweep, dispatch, sweep_pending, fail_overflowed, is_overflowed, on_message,
}
use iridium_stomp.Task.Message.{MessageIds, no_ids, scan_headers, track}
use iridium_stomp.Task.Keeping.Messages.{fail_overflowed-client, forward_untaken-client}

module _ (l : Links) where
  -- Only registered subscriptions have pending queues.
  abbrev pub IsSwept : Client l → Type 0
  IsSwept c = All (λ q. is_registered q.0 c.subscriptions ≡ true) c.pending

  sweep-All :
      (m : Subscriptions l.frames.Sender) (p : PendingMap)
      → All (λ q. is_registered q.0 m ≡ true) (sweep m p)
  unfolding sweep
  sweep-All m [] = tt
  sweep-All m ((id, queue) ∷ p) = ground (arith, sweep-All m p)

  abbrev pub ids_of : Frame → MessageIds
  ids_of f = scan_headers f.headers no_ids

  -- After a MESSAGE that names a subscription or a destination, and whose subscription did not
  -- overflow before, every pending queue belongs to a subscription that is still registered.
  pub on_message-IsSwept :
      (f : Frame) (t : Task l)
      → (is_some (ids_of f).subscription || is_some (ids_of f).destination) ≡ true
      → is_overflowed l (ids_of f).subscription t ≡ false
      → IsSwept (on_message l f t).0.client
  unfolding on_message sweep_pending
  on_message-IsSwept f t addressed live =
      let delivered = dispatch l f (ids_of f) (track l f (ids_of f) t) in
      let swept = sweep_pending l (ids_of f) delivered.0 in
      let failed = fail_overflowed l delivered.1.overflowed swept in
      let same : (on_message l f t).0.client ≡ swept.client =
        rw (live, on_message)
          (forward_untaken-client l f delivered.1 failed
            ∙ fail_overflowed-client l delivered.1.overflowed swept) in
      rw same (
        rw (addressed, sweep_pending)
          (sweep-All delivered.0.client.subscriptions delivered.0.client.pending))
