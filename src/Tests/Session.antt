-- ===== src/Tests/Session.antt =====
-- The background task on channels that nobody reads: a subscription in mode `client`, and a MESSAGE
-- for it.
use iridium_stomp.Registry.Removal.{OnceEach}
use iridium_stomp.Base.{arith, ◌≤◌, inr, if◌then◌else◌, ◌==◌, ◌≡◌, true, false, [], ◌∷◌, some, refl}
use iridium_stomp.Base.Maps
use iridium_stomp.Base.Text.Ascii.{lowercase_is}
use iridium_stomp.Base.Text.Decimal.{to_string}
use iridium_stomp.Base.Text.Utf8.{Bytes, codes, bytes_eq}
use iridium_stomp.Channel.Bounded.{Bounded, bounded}
use iridium_stomp.Client.{Links}
use iridium_stomp.Client.Acknowledging.{acknowledgement, acknowledge, ack_frame_for}
use iridium_stomp.Client.Acks.{Acknowledges, acknowledge-Acknowledges}
use iridium_stomp.Codec.{StompItem, frame}
use iridium_stomp.Frame.{Frame}
use iridium_stomp.Handshake.{item}
use iridium_stomp.Outbound.{Outbound}
use iridium_stomp.Pending.{PendingMessage, settle, find_message, push_back}
use iridium_stomp.Registry.{
  entries, managed_mode, add_entry, discard_parked, is_registered, drop_empty,
}
use iridium_stomp.Subscription.{client}
use iridium_stomp.Task.{Task, next, on_outbound}
use iridium_stomp.Task.Message.{scan_headers}
use iridium_stomp.Client.Subscribing.{subscribe_with_capacity}
use iridium_stomp.Delivery.{deliver_and_keep, new_overflow}
use iridium_stomp.Task.Dispatch.{on_message}
use iridium_stomp.Task.Errors.{on_client}
use iridium_stomp.Task.Lifecycle.{start_connection, on_incoming}
use iridium_stomp.Task.Queues.Events.{Reachable-IsBounded}
use iridium_stomp.Task.Queues.{IsBounded}
use iridium_stomp.Task.Registered.Events.{Reachable-copies_le}
use iridium_stomp.Registry.Copies.{copies}
use iridium_stomp.Client.Subscribing.{unsubscribe}
use iridium_stomp.Task.Sessions.{IsCurrent}
use iridium_stomp.Task.Sessions.Acks.{Reachable-drops_stale_acks}
use iridium_stomp.Task.Sessions.Events.{Reachable-IsCurrent}
use iridium_stomp.Task.Steps.{
  connected, phase_after, subscribing, incoming, run_call, run_branch, connected_client, spawn,
  call, turn, Reachable, start, step,
}

abbrev pub links : Links
links = record { frames = bounded Frame; outbound = bounded Outbound; sink = bounded StompItem }

abbrev pub room : {A : Type 0} → Bounded A
room = record { accepted = []; capacity = 8; open? = true }

abbrev pub same : Bytes → Bytes
same s = s

abbrev pub message : Frame
message = record {
  command = codes "MESSAGE";
  headers =
      (codes "subscription", codes "1")
      ∷ (codes "message-id", codes "m7")
      ∷ (codes "ack", codes "a7")
      ∷ (codes "destination", codes "/queue/a")
      ∷ [];
  body = codes "hello";
}

abbrev pub started : Task links
started = start_connection links false (spawn links (connected_client links room 1) room room)

abbrev pub subscribed : Task links
subscribed = on_client links (run_call links (subscribing (codes "/queue/a") client [] 1 1)) started

abbrev pub delivered : Task links
delivered = (run_branch links same (incoming (some (item (frame message)))) subscribed).0

abbrev pub pending : PendingMessage
pending = record { ack_id = codes "a7"; message_id = codes "m7"; frame = message; session = 0 }

delivery_runs :
    ((run_branch links same (incoming (some (item (frame message)))) subscribed).1 ≡ next)
    × (delivered.client.pending ≡ (codes "1", pending ∷ []) ∷ [])
    × (managed_mode (codes "1") delivered.client.subscriptions ≡ some client)
unfolding run_branch on_incoming on_message start_connection spawn connected_client run_call
    lowercase_is to_string bytes_eq scan_headers entries subscribe_with_capacity add_entry
    Maps.insert discard_parked Maps.get deliver_and_keep new_overflow push_back is_registered
    drop_empty managed_mode
delivery_runs = (refl, refl, refl)

pub delivered-OnceEach : OnceEach (codes "1") delivered.client.subscriptions
unfolding run_branch on_incoming on_message start_connection spawn connected_client run_call
    lowercase_is to_string bytes_eq scan_headers entries subscribe_with_capacity add_entry
    Maps.insert discard_parked Maps.get deliver_and_keep new_overflow push_back is_registered
    drop_empty managed_mode
delivered-OnceEach = ((inr refl, tt), tt)

abbrev reached :
    Reachable links same
      (phase_after (run_branch links same (incoming (some (item (frame message)))) subscribed).1)
      delivered
reached =
    step connected _ subscribed delivered
      (step connected connected started subscribed (start room 1 room room)
        (call connected started (subscribing (codes "/queue/a") client [] 1 1)))
      (turn subscribed (incoming (some (item (frame message)))))

Reachable-IsCurrent_example : IsCurrent links delivered
Reachable-IsCurrent_example = Reachable-IsCurrent links same reached

Reachable-IsBounded_example : IsBounded links delivered
Reachable-IsBounded_example = Reachable-IsBounded links same reached

Reachable-copies_le_example :
    (copies (codes "1") delivered.client.subscriptions ≤ 1)
    × ((j : Bytes)
        → is_registered j (unsubscribe links (codes "1") delivered.client).0.subscriptions ≡ (
            if bytes_eq j (codes "1")
            then false
            else is_registered j delivered.client.subscriptions))
Reachable-copies_le_example = Reachable-copies_le links same reached (omega arith) (codes "1")

abbrev later : Task links
later = record delivered { session = 1 }

settled_there :
    (settle client (codes "1") (codes "m7") ((codes "1", pending ∷ []) ∷ [])).1 ≡ some pending
unfolding settle Maps.get find_message bytes_eq
settled_there = refl

settled : (settle client (codes "1") (codes "m7") delivered.client.pending).1 ≡ some pending
settled = rw (delivery_runs.1) settled_there

Reachable-drops_stale_acks_example :
    on_outbound links (acknowledgement (codes "ACK") (codes "1") (codes "m7") (some pending)) later
    ≡ (if delivered.session == later.session
        then on_outbound links
            (Outbound.item (frame (ack_frame_for (codes "ACK") (codes "a7") (codes "1"))))
            later
        else (later, next))
Reachable-drops_stale_acks_example =
    Reachable-drops_stale_acks links same reached client (codes "ACK") (codes "1") (codes "m7")
      pending later settled

acknowledge-Acknowledges_example :
    Acknowledges links
      (codes "ACK")
      (codes "1")
      (codes "m7")
      client
      delivered.client
      (acknowledge links (codes "ACK") (codes "1") (codes "m7") delivered.client)
acknowledge-Acknowledges_example =
    acknowledge-Acknowledges links (codes "ACK") (codes "1") (codes "m7") client delivered.client
      delivery_runs.2 refl
