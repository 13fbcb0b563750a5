-- ===== src/Task/Keeping/Messages.antt =====
-- The registry, over the handling of a MESSAGE.
use iridium_stomp.Base.{ℕ, List, [], ◌∷◌, inl, inr, arith, Option-cases, ◌≡◌, refl, sym, ◌∙◌, ap}
use iridium_stomp.Base.Text.Utf8.{Bytes}
use iridium_stomp.Client.{Links}
use iridium_stomp.Frame.{Frame}
use iridium_stomp.Task.{Task, forward_inbound, Turn, next, broken, panicked, write, Flow-cases}
use iridium_stomp.Task.Keeping.{Stable, InTask}
use iridium_stomp.Registry.{Subscriptions}
use iridium_stomp.Task.Delivering.{Pass}
use iridium_stomp.Task.Dispatch.{
  dispatch, sweep_pending, fail_subscription, fail_overflowed, forward_untaken, on_message,
}
use iridium_stomp.Task.Message.{MessageIds, no_ids, scan_headers, track}
use mathlib.Core.Path.{subst}

module _ (l : Links) where
  -- The registry and the counter of ids.
  abbrev registry : Task l → Subscriptions l.frames.Sender × ℕ
  registry t = (t.client.subscriptions, t.client.sub_id_counter)

  pub fail_overflowed-client :
      (failing : List (Bytes × Bytes × ℕ)) (t : Task l)
      → (fail_overflowed l failing t).0.client ≡ t.client
  unfolding fail_overflowed
  fail_overflowed-client [] t = refl
  fail_overflowed-client ((id, dest, limit) ∷ rest) t =
      let failed = fail_subscription l id dest limit t in
      let same : failed.0.client ≡ t.client =
        unfold fail_subscription in unfold forward_inbound in unfold write in refl in
      elim (Flow-cases failed.1) [
        | inl e ↦ rw (e, fail_overflowed) (fail_overflowed-client rest failed.0 ∙ same)
        | inr (inl e) ↦ rw (e, fail_overflowed) same
        | inr (inr e) ↦ rw (e, fail_overflowed) same
      ]

  track-registry :
      (f : Frame) (ids : MessageIds) (t : Task l) → registry (track l f ids t) ≡ registry t
  unfolding track
  track-registry f ids t = elim (Option-cases ids.message_id) [
    | inl e ↦ rw (e, track) refl
    | inr (message_id, e) ↦ rw (e, track) (ground arith)
  ]

  pub forward_untaken-client :
      (f : Frame) (p : Pass) (r : Turn l) → (forward_untaken l f p r).0.client ≡ r.0.client
  unfolding forward_inbound
  forward_untaken-client f p (t, next) = ground arith
  forward_untaken-client f p (t, broken) = refl
  forward_untaken-client f p (t, panicked) = refl

  sweep_pending-registry :
      (ids : MessageIds) (t : Task l) → registry (sweep_pending l ids t) ≡ registry t
  unfolding sweep_pending
  sweep_pending-registry ids t = ground arith

  module _ (k : Stable l) where
    dispatch-InTask :
        (f : Frame) (ids : MessageIds) (t : Task l)
        → InTask l k t
        → InTask l k (dispatch l f ids t).0
    unfolding dispatch
    dispatch-InTask f ids t h = k.delivered f ids t.client.subscriptions _ t.client.sub_id_counter h

    along : (t u : Task l) → registry u ≡ registry t → InTask l k t → InTask l k u
    along t u e h = subst (λ g. k.Holds g.0 g.1) (sym e) h

    pub on_message-InTask :
        (f : Frame) (t : Task l) → InTask l k t → InTask l k (on_message l f t).0
    unfolding on_message
    on_message-InTask f t h =
        let ids = scan_headers f.headers no_ids in
        let tracked = track l f ids t in
        let delivered = dispatch l f ids tracked in
        let swept = sweep_pending l ids delivered.0 in
        let failed = fail_overflowed l delivered.1.overflowed swept in
        let forwarded = forward_untaken l f delivered.1 failed in
        let same : registry forwarded.0 ≡ registry delivered.0 =
          ap (λ c. (c.subscriptions, c.sub_id_counter))
            (forward_untaken-client f delivered.1 failed
              ∙ fail_overflowed-client delivered.1.overflowed swept)
          ∙ sweep_pending-registry ids delivered.0 in
        let kept : InTask l k delivered.0 =
          dispatch-InTask f ids tracked (along t tracked (track-registry f ids t) h) in
        let held : InTask l k forwarded.0 = along delivered.0 forwarded.0 same kept in
        ground (arith, held)
