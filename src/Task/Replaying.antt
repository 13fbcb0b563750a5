-- ===== src/Task/Replaying.antt =====
-- What a reconnect writes before anything else.
use iridium_stomp.Base.{
  true, false, List, [], ◌∷◌, ◌++◌, ◌≡◌, refl, ◌⊎◌, inl, inr, ap, ap₂, ◌∙◌, sym, append_assoc,
  append-nil, arith, map, Bool-cases, All, if◌then◌else◌,
}
use iridium_stomp.Base.Text.Utf8.{Bytes}
use iridium_stomp.Client.{Links}
use iridium_stomp.Codec.{StompItem, frame}
use iridium_stomp.Frame.{Frame}
use iridium_stomp.Registry.{Subscriptions, discard, discard_parked, resubscribe, resubscribe_frames}
use iridium_stomp.Registry.Entries.{AllEntries}
use iridium_stomp.Delivery.{SubscriptionEntry}
use iridium_stomp.Subscription.{acknowledges}
use iridium_stomp.Task.{Task, write}
use iridium_stomp.Task.Lifecycle.{discard_stale, replay, start_connection}

module _ (l : Links) where
  -- What the sink has accepted so far.
  abbrev pub sent : Task l → List StompItem
  sent t = l.sink.sent t.sink

  -- The items that the sink accepts, when they are written one after the other.
  abbrev pub accepted : l.sink.Sender → List StompItem → List StompItem
  accepted s [] = []
  accepted s (i ∷ items) =
      let (t, taken) = l.sink.send s i in
      let rest = accepted t items in if taken then i ∷ rest else rest

  -- What was written is those of the frames that the sink accepted, in their order.
  abbrev pub Replays : List Frame → Task l → Task l → Type 0
  Replays fs t u = sent u ≡ sent t ++ accepted t.sink (map frame fs)

  replay-Replays : (fs : List Frame) (t : Task l) → Replays fs t (replay l fs t)
  unfolding replay write
  replay-Replays [] t = sym (append-nil (sent t))
  replay-Replays (f ∷ fs) t =
      let s = (l.sink.send t.sink (frame f)).0 in
      let all = replay-Replays fs (write l (frame f) t).0 in
      elim (Bool-cases (l.sink.send t.sink (frame f)).1) [
        | inl taken ↦
            rw (taken, accepted)
              (all
                ∙ ap (λ w. w ++ accepted s (map frame fs)) (l.sink.send_true t.sink (frame f) taken)
                ∙ append_assoc (sent t) (frame f ∷ []) (accepted s (map frame fs)))
        | inr refused ↦
            rw (refused, accepted)
              (all
                ∙ ap (λ w. w ++ accepted s (map frame fs))
                    (l.sink.send_false t.sink (frame f) refused))
      ]

resubscribe-discard :
    {S : Type 0} (dest : Bytes) (e : SubscriptionEntry S)
    → resubscribe dest (discard e) ≡ resubscribe dest e
resubscribe-discard dest e = ground arith

map-resubscribe-discard :
    {S : Type 0} (dest : Bytes) (es : List (SubscriptionEntry S))
    → map (resubscribe dest) (map discard es) ≡ map (resubscribe dest) es
map-resubscribe-discard dest [] = refl
map-resubscribe-discard dest (e ∷ es) =
    ap₂ ◌∷◌ (resubscribe-discard dest e) (map-resubscribe-discard dest es)

resubscribe_frames-discard_parked :
    {S : Type 0} (m : Subscriptions S)
    → resubscribe_frames (discard_parked m) ≡ resubscribe_frames m
unfolding resubscribe_frames discard_parked
resubscribe_frames-discard_parked [] = refl
resubscribe_frames-discard_parked ((dest, vec) ∷ m) =
    ap₂ ◌++◌ (map-resubscribe-discard dest vec) (resubscribe_frames-discard_parked m)

-- Nothing is parked for an entry that acknowledges.
abbrev pub IsFresh : {S : Type 0} → SubscriptionEntry S → Type 0
IsFresh e = (acknowledges e.ack ≡ false) ⊎ (e.overflow.queue ≡ [])

discard-IsFresh : {S : Type 0} (es : List (SubscriptionEntry S)) → All IsFresh (map discard es)
discard-IsFresh [] = tt
discard-IsFresh (e ∷ es) = (ground arith, discard-IsFresh es)

discard_parked-IsFresh : {S : Type 0} (m : Subscriptions S) → AllEntries IsFresh (discard_parked m)
unfolding discard_parked
discard_parked-IsFresh [] = tt
discard_parked-IsFresh ((dest, vec) ∷ m) = (discard-IsFresh vec, discard_parked-IsFresh m)

module _ (l : Links) where
  replay-client : (fs : List Frame) (t : Task l) → (replay l fs t).client ≡ t.client
  unfolding replay write
  replay-client [] t = refl
  replay-client (f ∷ fs) t = replay-client fs (write l (frame f) t).0

  -- A reconnect writes the SUBSCRIBE frames of the subscriptions that are registered, in their
  -- order, each unless the sink refuses it, and nothing else; the first connection writes nothing. On either, nothing is parked afterwards for a subscription that acknowledges, since
  -- the broker redelivers it.
  pub start_connection-Replays :
      (t : Task l)
      → Replays l (resubscribe_frames t.client.subscriptions) t (start_connection l true t)
        × (sent l (start_connection l false t) ≡ sent l t)
        × AllEntries IsFresh (start_connection l true t).client.subscriptions
        × AllEntries IsFresh (start_connection l false t).client.subscriptions
  unfolding start_connection discard_stale
  start_connection-Replays t =
      let d = discard_stale l t in
      (
        rw (sym (resubscribe_frames-discard_parked t.client.subscriptions))
            (replay-Replays l (resubscribe_frames d.client.subscriptions) d),
        refl,
        rw (replay-client (resubscribe_frames d.client.subscriptions) d)
            (discard_parked-IsFresh t.client.subscriptions),
        discard_parked-IsFresh t.client.subscriptions,
      )
