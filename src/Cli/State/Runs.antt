-- ===== src/Cli/State/Runs.antt =====
-- What the tasks of the client do to the shared state, in any order, against the journal.
use iridium_stomp.Base.{ℕ, ◌≡◌, refl, ◌∙◌, List, [], ◌∷◌, arith, unwrap_or}
use iridium_stomp.Base.Maps
use iridium_stomp.Base.Maps.Laws.{get-insert}
use iridium_stomp.Base.Text.Bytes.{bytes_eq_iff}
use iridium_stomp.Base.Text.Utf8.{Bytes}
use iridium_stomp.Frame.{Header}
use iridium_stomp.Cli.State.{
  AppState, default, new, record_heartbeat, record_message, register_subscription, toggle_headers,
  clear_messages,
}
use iridium_stomp.Cli.State.Journal.{Journal, blank, note, counted, Shows, record_message-Shows}

pub data Event : Type 0 where
  message : ℕ → Bytes → Bytes → List Header → Event
  heartbeat : ℕ → Event
  subscribed : Bytes → Event
  toggled : Event
  cleared : Event

unfoldable pub on_event : Event → AppState → AppState
on_event (message now d body headers) s = record_message now d body headers s
on_event (heartbeat now) s = record_heartbeat now s
on_event (subscribed d) s = register_subscription d s
on_event toggled s = toggle_headers s
on_event cleared s = clear_messages s

unfoldable pub run : List Event → AppState → AppState
unfolding on_event
run [] s = s
run (e ∷ es) s = run es (on_event e s)

abbrev pub note_event : Event → Journal → Journal
note_event (message now d body headers) j =
    note (record { timestamp = now; destination = d; body = body; headers = headers }) j
note_event (heartbeat now) j = j
note_event (subscribed d) j = j
note_event toggled j = j
note_event cleared j = record j { messages = [] }

unfoldable pub journal : List Event → Journal → Journal
journal [] j = j
journal (e ∷ es) j = journal es (note_event e j)

counted-register_subscription :
    (d k : Bytes) (s : AppState) → counted k (register_subscription d s) ≡ counted k s
unfolding register_subscription
counted-register_subscription d k s = ground (
  arith,
  bytes_eq_iff d k,
  get-insert d k (unwrap_or (Maps.get d s.subscriptions) default) s.subscriptions,
)

new-Shows : (now : ℕ) (host user : Bytes) (interval : ℕ) → Shows (new now host user interval) blank
unfolding new Maps.get
new-Shows now host user interval = record {
  messages = refl;
  errors = refl;
  sent = refl;
  failed = refl;
  warned = refl;
  informed = refl;
  received = λ d e. refl;
}

on_event-Shows :
    (e : Event) (s : AppState) (j : Journal) → Shows s j → Shows (on_event e s) (note_event e j)
unfolding on_event record_heartbeat register_subscription toggle_headers clear_messages
on_event-Shows (message now d body headers) s j h = record_message-Shows now d body headers h
on_event-Shows (heartbeat now) s j h = record {
  messages = h.messages;
  errors = h.errors;
  sent = h.sent;
  failed = h.failed;
  warned = h.warned;
  informed = h.informed;
  received = h.received;
}
on_event-Shows (subscribed d) s j h = record {
  messages = h.messages;
  errors = h.errors;
  sent = h.sent;
  failed = h.failed;
  warned = h.warned;
  informed = h.informed;
  received = λ k e. counted-register_subscription d k s ∙ h.received k e;
}
on_event-Shows toggled s j h = record {
  messages = h.messages;
  errors = h.errors;
  sent = h.sent;
  failed = h.failed;
  warned = h.warned;
  informed = h.informed;
  received = h.received;
}
on_event-Shows cleared s j h = record {
  messages = refl;
  errors = h.errors;
  sent = h.sent;
  failed = h.failed;
  warned = h.warned;
  informed = h.informed;
  received = h.received;
}

run-Shows :
    (es : List Event) (s : AppState) (j : Journal) → Shows s j → Shows (run es s) (journal es j)
unfolding run journal
run-Shows [] s j h = h
run-Shows (e ∷ es) s j h = run-Shows es (on_event e s) (note_event e j) (on_event-Shows e s j h)

-- Whatever is recorded, subscribed to, toggled and cleared, in any order, the panes of the client
-- show exactly the latest 1000 messages and 100 broker errors, a message once and in one of them,
-- and the counters of the labels and of each destination count all that was recorded under them,
-- cleared messages too, but for wrapping around at 64 bits.
pub new-run-Shows :
    (es : List Event) (now : ℕ) (host user : Bytes) (interval : ℕ)
    → Shows (run es (new now host user interval)) (journal es blank)
new-run-Shows es now host user interval =
    run-Shows es (new now host user interval) blank (new-Shows now host user interval)
