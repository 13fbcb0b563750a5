-- ===== src/Tests/Calls.antt =====
-- The application's calls, the end of the task, and repeated errors.
use iridium_stomp.Base.{
  ◌+◌, ◌≡◌, ◌⊎◌, ◌||◌, true, false, [], ◌∷◌, none, some, refl, ok, err, arith, if◌then◌else◌,
  unwrap_or, leb, is_some,
}
use iridium_stomp.Base.Maps
use iridium_stomp.Base.Text.Ascii.{lowercase_is, eq_ignore_ascii_case}
use iridium_stomp.Base.Text.Decimal.{to_string}
use iridium_stomp.Base.Text.Utf8.{Bytes, codes, bytes_eq}
use iridium_stomp.Client.{
  Client, Subscription, elapsed, channel_closed, send_frame_with_receipt, settle_receipt, wait,
  receipt_id_of,
}
use iridium_stomp.Client.Unsubscribed.{Unsubscribes, unsubscribe-Unsubscribes}
use iridium_stomp.Registry.Entries.{AllEntries}
use iridium_stomp.Task.Replaying.{Replays, sent, IsFresh, start_connection-Replays}
use iridium_stomp.Client.Confirming.{send_frame_confirmed, send_frame_confirmed-answer}
use iridium_stomp.Client.Receipts.{
  Registers, send_frame_with_receipt-Registers, wait-settle_receipt,
}
use iridium_stomp.Client.Sending.{queued}
use iridium_stomp.Client.Subscribing.{unsubscribe}
use iridium_stomp.Frame.{Frame, header, receipt, get_header}
use iridium_stomp.Frame
use iridium_stomp.Registry.{resubscribe_frames, is_registered}
use iridium_stomp.ServerError.{confirmed}
use iridium_stomp.Subscription.{client, set_overflow_limit, SubscriptionEnd, SubscriptionOptions}
use iridium_stomp.Subscription as Options
use iridium_stomp.Task.Abandoning.{errors_of, count_error_lem}
use iridium_stomp.Task.Dispatch.{on_message, is_overflowed}
use iridium_stomp.Task.Ending.{finish-Ends}
use iridium_stomp.Task.Errors.{count_error}
use iridium_stomp.Task.Lifecycle.{start_connection, finish}
use iridium_stomp.Task.Message.{scan_headers}
use iridium_stomp.Task.Steps.{connected_client, spawn}
use iridium_stomp.Task.Sweeping.{ids_of, IsSwept, on_message-IsSwept}
use iridium_stomp.Task.{Task}
use iridium_stomp.Tests.Session.{delivered-OnceEach, links, room, message, delivered}

abbrev fresh : Client links
fresh = connected_client links room 1

abbrev idle : Task links
idle = spawn links fresh room room

abbrev sending : Frame
sending = receipt (Frame.new (codes "SEND")) (codes "mine")

abbrev answering : Frame
answering = header (Frame.new (codes "RECEIPT")) (codes "receipt-id") (codes "rcpt-1")

abbrev awaiting : Client links
awaiting = (send_frame_with_receipt links sending fresh).0

abbrev handle : Subscription
handle = record { id = codes "1"; destination = codes "/queue/a"; unsubscribed = false }

send_frame_with_receipt-Registers_example :
    Registers links sending fresh (send_frame_with_receipt links sending fresh)
send_frame_with_receipt-Registers_example = send_frame_with_receipt-Registers links sending fresh

named : get_header answering (codes "receipt-id") ≡ some (codes "rcpt-1")
unfolding get_header eq_ignore_ascii_case
named = refl

abbrev registered : Client links
registered = record fresh { awaited = codes "rcpt-1" ∷ [] }

wait-settle_receipt_example :
    ((wait links (codes "rcpt-1") elapsed (settle_receipt links answering confirmed registered)).1
      ≡ ok tt)
    × (settle_receipt links answering confirmed
          (settle_receipt links answering confirmed registered)
        ≡ settle_receipt links answering confirmed registered)
unfolding bytes_eq
wait-settle_receipt_example =
    wait-settle_receipt links answering answering (codes "rcpt-1") confirmed confirmed elapsed
      registered named named refl

finish-Ends_example :
    ((j : Bytes)
      → Maps.get j (finish links delivered).client.ended ≡ (
          if is_registered j delivered.client.subscriptions
          then some
              (unwrap_or (Maps.get j delivered.client.ended) SubscriptionEnd.connection_closed)
          else Maps.get j delivered.client.ended))
    × ((j : Bytes) → is_registered j (finish links delivered).client.subscriptions ≡ false)
finish-Ends_example = finish-Ends links delivered

abbrev failing : Frame
failing = header (Frame.new (codes "ERROR")) (codes "message") (codes "no such queue")

abbrev twice : Task links
twice = record delivered { subscription_errors = (codes "/queue/a", 2) ∷ [] }

counted_twice : errors_of links (codes "/queue/a") twice ≡ 2
unfolding Maps.get bytes_eq
counted_twice = refl

count_error_lem_example :
    (errors_of links (codes "/queue/a") (count_error links failing none (codes "/queue/a") twice)
      ≡ (if bytes_eq (codes "/queue/a") (codes "/queue/a")
          then errors_of links (codes "/queue/a") twice + 1
          else errors_of links (codes "/queue/a") twice))
    × (Maps.get
          (codes "/queue/a")
          (count_error links failing none (codes "/queue/a") twice).client.subscriptions
        ≡ (if leb 3 (errors_of links (codes "/queue/a") twice + 1)
            then (if bytes_eq (codes "/queue/a") (codes "/queue/a")
                then none
                else Maps.get (codes "/queue/a") twice.client.subscriptions)
            else Maps.get (codes "/queue/a") twice.client.subscriptions))
count_error_lem_example =
    count_error_lem links failing none (codes "/queue/a") (codes "/queue/a") twice
      (omega (arith, counted_twice))

message_addressed :
    (is_some (ids_of links message).subscription || is_some (ids_of links message).destination)
    ≡ true
unfolding scan_headers lowercase_is
message_addressed = refl

message_live : is_overflowed links (ids_of links message).subscription idle ≡ false
unfolding scan_headers lowercase_is spawn
message_live = refl

on_message-IsSwept_example : IsSwept links (on_message links message idle).0.client
on_message-IsSwept_example = on_message-IsSwept links message idle message_addressed message_live

abbrev options : SubscriptionOptions
options = set_overflow_limit Options.new 5

unsubscribe-Unsubscribes_example :
    Unsubscribes links (codes "1") delivered.client (unsubscribe links (codes "1") delivered.client)
    × ((j : Bytes)
        → is_registered j (unsubscribe links (codes "1") delivered.client).0.subscriptions ≡ (
            if bytes_eq j (codes "1")
            then false
            else is_registered j delivered.client.subscriptions))
unsubscribe-Unsubscribes_example =
    unsubscribe-Unsubscribes links (codes "1") delivered.client delivered-OnceEach

start_connection-Replays_example :
    Replays links
      (resubscribe_frames delivered.client.subscriptions)
      delivered
      (start_connection links true delivered)
    × (sent links (start_connection links false delivered) ≡ sent links delivered)
    × AllEntries IsFresh (start_connection links true delivered).client.subscriptions
    × AllEntries IsFresh (start_connection links false delivered).client.subscriptions
start_connection-Replays_example = start_connection-Replays links delivered

answered_first :
    get_header answering (codes "receipt-id") ≡ some (receipt_id_of fresh.receipt_counter)
unfolding get_header eq_ignore_ascii_case to_string connected_client
answered_first = refl

abbrev answer_comes : Client links → Client links
answer_comes = settle_receipt links answering confirmed

send_frame_confirmed-answer_example :
    ((send_frame_confirmed links sending answer_comes elapsed fresh).1 ≡ ok tt)
    ⊎ (((send_frame_confirmed links sending answer_comes elapsed fresh).1 ≡ err channel_closed)
        × (queued links (send_frame_confirmed links sending answer_comes elapsed fresh).0
            ≡ queued links fresh))
send_frame_confirmed-answer_example =
    send_frame_confirmed-answer links sending answering confirmed elapsed fresh answered_first
