-- ===== src/Heartbeat.antt =====
-- connection.rs: the heart-beat configuration, its header and the negotiation. A `Duration` is its
-- number of milliseconds.
pub mod Negotiation
use iridium_stomp.Base.{
  ℕ, ◌+◌, ◌-◌, ◌^◌, max, min, Bool, true, false, List, [], ◌∷◌, ◌++◌, Option, none, some, ◌==◌,
  if◌then◌else◌, unwrap_or,
}
use iridium_stomp.Base.Text.Utf8.{Bytes, trim}
use iridium_stomp.Base.Text.Decimal.{parse_u64, to_string}
use iridium_stomp.Parser.Headers.{split_once}

abbrev pub u32_max : ℕ
u32_max = 4294967295

pub record Heartbeat : Type 0 where
  pub send_ms : ℕ
  pub receive_ms : ℕ

abbrev pub new : ℕ → ℕ → Heartbeat
new send_ms receive_ms = record { send_ms = send_ms; receive_ms = receive_ms }

abbrev pub disabled : Heartbeat
disabled = new 0 0

-- Longer intervals than a `u32` holds are clamped.
unfoldable pub from_duration : ℕ → Heartbeat
from_duration interval = let ms = min interval u32_max in new ms ms

abbrev pub default : Heartbeat
default = new 10000 10000

-- `Display`
unfoldable pub display : Heartbeat → Bytes
display hb = to_string hb.send_ms ++ (b',' ∷ to_string hb.receive_ms)

-- The first two items of `header.split(',')`; there is always a first one.
unfoldable pub first_two : Bytes → Bytes × Option Bytes
first_two header = elim (split_once b',' header) [
  | none ↦ (header, none)
  | some (first, rest) ↦ elim (split_once b',' rest) [
    | none ↦ (first, some rest)
    | some (second, others) ↦ (first, some second)
  ]
]

-- `s.trim().parse::<u64>().ok()`, with `unwrap_or(0)`.
unfoldable pub interval_of : Option Bytes → ℕ
interval_of none = 0
interval_of (some s) = unwrap_or (parse_u64 (trim s)) 0

unfoldable pub parse_heartbeat_header : Bytes → ℕ × ℕ
parse_heartbeat_header header =
    let (first, second) = first_two header in (interval_of (some first), interval_of second)

abbrev pub unless_zero : ℕ → Option ℕ
unless_zero ms = if ms == 0 then none else some ms

-- The intervals for sending and for receiving, in milliseconds.
unfoldable pub negotiate_heartbeats : ℕ → ℕ → ℕ → ℕ → Option ℕ × Option ℕ
negotiate_heartbeats client_out client_in server_out server_in =
    (unless_zero (max client_out server_in), unless_zero (max client_in server_out))
