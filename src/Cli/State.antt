-- ===== src/Cli/State.antt =====
-- src/bin/cli/state.rs: the state that the tasks of the command line client share. What the clock
-- says is an argument: `now` in seconds for a timestamp, and a duration for what has elapsed. The
-- counters wrap, as in a release build.
pub mod Journal
pub mod Runs
use iridium_stomp.Base.{
  ℕ, ◌+◌, ◌*◌, ◌/◌, ◌%◌, ◌^◌, Bool, true, false, not, List, [], ◌∷◌, ◌++◌, Option, none, some, ltb,
  if◌then◌else◌, length, unwrap_or,
}
use iridium_stomp.Base.Maps
use iridium_stomp.Base.Maps.{Map}
use iridium_stomp.Base.Text.Decimal.{u64_size, to_string}
use iridium_stomp.Base.Text.Utf8.{Bytes, bytes_eq, codes}
use iridium_stomp.Frame.{Header}

abbrev pub max_messages : ℕ
max_messages = 1000

abbrev pub max_errors : ℕ
max_errors = 100

pub record SubStats : Type 0 where
  pub message_count : ℕ

abbrev pub default : SubStats
default = record { message_count = 0 }

pub record DisplayMessage : Type 0 where
  pub timestamp : ℕ
  pub destination : Bytes
  pub body : Bytes
  pub headers : List Header

-- `last_heartbeat` and `start_time` are readings of the clock.
pub record AppState : Type 0 where
  pub start_time : ℕ
  pub host : Bytes
  pub user : Bytes
  pub heartbeat_interval_ms : ℕ
  pub subscriptions : Map SubStats
  pub heartbeat_count : ℕ
  pub last_heartbeat : Option ℕ
  pub sent_count : ℕ
  pub error_count : ℕ
  pub warning_count : ℕ
  pub info_count : ℕ
  pub messages : List DisplayMessage
  pub errors : List DisplayMessage
  pub show_headers : Bool
  pub scroll_offset : ℕ
  pub error_scroll_offset : ℕ
  pub input : Bytes
  pub cursor_pos : ℕ
  pub command_history : List Bytes
  pub history_index : Option ℕ
  pub saved_input : Bytes

unfoldable pub new : ℕ → Bytes → Bytes → ℕ → AppState
new now host user heartbeat_interval_ms = record {
  start_time = now;
  host = host;
  user = user;
  heartbeat_interval_ms = heartbeat_interval_ms;
  subscriptions = [];
  heartbeat_count = 0;
  last_heartbeat = none;
  sent_count = 0;
  error_count = 0;
  warning_count = 0;
  info_count = 0;
  messages = [];
  errors = [];
  show_headers = false;
  scroll_offset = 0;
  error_scroll_offset = 0;
  input = [];
  cursor_pos = 0;
  command_history = [];
  history_index = none;
  saved_input = [];
}

-- `+= 1` on a `u64`.
abbrev pub increment : ℕ → ℕ
increment n = (n + 1) % u64_size

unfoldable pub record_heartbeat : ℕ → AppState → AppState
record_heartbeat now s = record s {
  heartbeat_count = increment s.heartbeat_count;
  last_heartbeat = some now;
}

-- What the header bar shows of the heart-beat.
pub data Indicator : Type 0 where
  star diamond late circle : Indicator

-- `elapsed` is in milliseconds, as a `u128` that is cut to 32 bits.
unfoldable pub heartbeat_indicator : ℕ → AppState → Indicator × Bool
heartbeat_indicator elapsed s = elim s.last_heartbeat [
  | none ↦ (circle, false)
  | some last ↦
      if ltb (elapsed % 2 ^ 32) 1000
      then (star, true)
      else if ltb (elapsed % 2 ^ 32) ((s.heartbeat_interval_ms * 2) % 2 ^ 32)
      then (diamond, false)
      else (late, false)
]

-- `while buffer.len() > max { buffer.pop_front(); }`
unfoldable pub trim_front : ℕ → List DisplayMessage → List DisplayMessage
trim_front limit [] = []
trim_front limit (m ∷ ms) =
    let rest = trim_front limit ms in if ltb limit (length (m ∷ ms)) then rest else m ∷ ms

abbrev pub broker_error : Bytes
broker_error = codes "BROKER ERROR"

unfoldable pub record_error : ℕ → Bytes → List Header → AppState → AppState
unfolding trim_front
record_error now body headers s =
    let m : DisplayMessage = record {
      timestamp = now;
      destination = broker_error;
      body = body;
      headers = headers;
    } in
    record s {
      error_count = increment s.error_count;
      errors = trim_front max_errors (s.errors ++ m ∷ []);
    }

unfoldable pub count_message : Bytes → Map SubStats → Map SubStats
count_message destination m =
    let stats = unwrap_or (Maps.get destination m) default in
    Maps.insert destination (record { message_count = increment stats.message_count }) m

-- The counter of a message that goes to the main pane.
unfoldable pub count : Bytes → AppState → AppState
unfolding count_message
count destination s =
    if bytes_eq destination (codes "SENT")
    then record s { sent_count = increment s.sent_count }
    else if bytes_eq destination (codes "ERROR")
    then record s { error_count = increment s.error_count }
    else if bytes_eq destination (codes "WARN")
    then record s { warning_count = increment s.warning_count }
    else if bytes_eq destination (codes "INFO")
    then record s { info_count = increment s.info_count }
    else record s { subscriptions = count_message destination s.subscriptions }

unfoldable pub show_message : ℕ → Bytes → Bytes → List Header → AppState → AppState
unfolding trim_front
show_message now destination body headers s =
    let m : DisplayMessage = record {
      timestamp = now;
      destination = destination;
      body = body;
      headers = headers;
    } in
    record s { messages = trim_front max_messages (s.messages ++ m ∷ []) }

unfoldable pub record_message : ℕ → Bytes → Bytes → List Header → AppState → AppState
unfolding record_error show_message count
record_message now destination body headers s =
    if bytes_eq destination broker_error
    then record_error now body headers s
    else show_message now destination body headers (count destination s)

unfoldable pub register_subscription : Bytes → AppState → AppState
register_subscription destination s = record s {
  subscriptions =
      Maps.insert destination (unwrap_or (Maps.get destination s.subscriptions) default)
        s.subscriptions;
}

abbrev total_of : Map SubStats → ℕ
total_of [] = 0
total_of ((d, stats) ∷ m) = (stats.message_count + total_of m) % u64_size

unfoldable pub total_message_count : AppState → ℕ
total_message_count s = total_of s.subscriptions

-- `{:02}`
abbrev pub two_digits : ℕ → Bytes
two_digits n = if ltb n 10 then b'0' ∷ to_string n else to_string n

-- `total_secs` is the time since the start.
unfoldable pub session_duration : ℕ → Bytes
session_duration total_secs =
    two_digits (total_secs / 3600)
    ++ (b':' ∷ (two_digits ((total_secs % 3600) / 60) ++ (b':' ∷ two_digits (total_secs % 60))))

unfoldable pub toggle_headers : AppState → AppState
toggle_headers s = record s { show_headers = not s.show_headers }

unfoldable pub clear_messages : AppState → AppState
clear_messages s = record s { messages = []; scroll_offset = 0 }
