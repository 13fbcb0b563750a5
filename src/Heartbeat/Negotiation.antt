-- ===== src/Heartbeat/Negotiation.antt =====
-- The header's round trip, and what two peers agree on.
use iridium_stomp.Base.{Option, max, ℕ, ◌≤◌, ◌<◌, ◌≡◌, ◌⊎◌, refl, none, some, [], ◌∷◌, arith, All}
use iridium_stomp.Base.Text.Utf8.{Bytes}
use iridium_stomp.Base.Text.Bytes.{Lacks, IsDigit, trim_digits}
use iridium_stomp.Base.Text.Decimal.{to_string}
use iridium_stomp.Base.Text.Numerals.{to_string_digits, parse_u64-to_string}
use iridium_stomp.Parser.Headers.{split_once}
use iridium_stomp.Codec.Lines.{split_once-append}
use iridium_stomp.Heartbeat.{
  Heartbeat, unless_zero, u32_max, display, first_two, interval_of, parse_heartbeat_header,
  negotiate_heartbeats,
}

digits-Lacks : (s : Bytes) → All IsDigit s → Lacks b',' s
digits-Lacks [] h = tt
digits-Lacks (c ∷ s) h = ground (arith, digits-Lacks s h.1)

split_once-Lacks : (b : ℕ) (s : Bytes) → Lacks b s → split_once b s ≡ none
unfolding split_once
split_once-Lacks b [] h = refl
split_once-Lacks b (c ∷ s) h = ground (arith, split_once-Lacks b s h.1)

interval_of-to_string : (n : ℕ) → n ≤ u32_max → interval_of (some (to_string n)) ≡ n
unfolding interval_of
interval_of-to_string n h =
    rw (trim_digits (to_string n) (to_string_digits n), parse_u64-to_string n (omega arith))

first_two-display :
    (hb : Heartbeat)
    → first_two (display hb) ≡ (to_string hb.send_ms, some (to_string hb.receive_ms))
unfolding first_two display
first_two-display hb = rw (
  split_once-append b',' (to_string hb.send_ms) (to_string hb.receive_ms)
      (digits-Lacks _ (to_string_digits hb.send_ms)),
  split_once-Lacks b',' (to_string hb.receive_ms) (digits-Lacks _ (to_string_digits hb.receive_ms)),
  first_two,
)

-- Parsing the header that a heart-beat configuration prints gives its two intervals back.
pub parse-display :
    (hb : Heartbeat)
    → hb.send_ms ≤ u32_max
    → hb.receive_ms ≤ u32_max
    → parse_heartbeat_header (display hb) ≡ (hb.send_ms, hb.receive_ms)
unfolding parse_heartbeat_header
parse-display hb hs hr = rw (
  first_two-display hb,
  interval_of-to_string hb.send_ms hs,
  interval_of-to_string hb.receive_ms hr,
)

-- The interval for a direction of which the two peers offer `a` and `b`: none if both offer 0, and
-- otherwise the longer offer.
abbrev pub Agrees : ℕ → ℕ → Option ℕ → Type 0
Agrees a b none = (a ≡ 0) × (b ≡ 0)
Agrees a b (some n) = (0 < n) × (a ≤ n) × (b ≤ n) × ((n ≡ a) ⊎ (n ≡ b))

max-Agrees : (a b : ℕ) → Agrees a b (unless_zero (max a b))
max-Agrees a b = ground arith

-- Whatever is offered, both peers compute the same intervals: what one sends is what the other
-- expects. A direction is off exactly when both peers offer 0 for it, and otherwise its interval is
-- the longer of the two offers.
pub negotiate_agreement :
    (cx cy sx sy : ℕ)
    → ((negotiate_heartbeats cx cy sx sy).0 ≡ (negotiate_heartbeats sx sy cx cy).1)
      × ((negotiate_heartbeats cx cy sx sy).1 ≡ (negotiate_heartbeats sx sy cx cy).0)
      × Agrees cx sy (negotiate_heartbeats cx cy sx sy).0
unfolding negotiate_heartbeats
negotiate_agreement cx cy sx sy = (ground arith, ground arith, max-Agrees cx sy)
