-- ===== src/Base/Text/Decimal.antt =====
-- `to_string` and `str::parse` of unsigned 64-bit numbers (`usize` is 64 bits wide).
use Prim.Native.Nat.{ℕ, zero, suc, ◌+◌, ◌-◌, ◌*◌, ◌/◌, ◌%◌, ◌^◌}
use mathlib.Core.Bool.{true, false}
use mathlib.Core.List.{[], ◌∷◌}
use mathlib.Core.Option.{Option, none, some}
use iridium_stomp.Base.Bools.{ltb, ◌==◌, if◌then◌else◌}
use iridium_stomp.Base.Text.Utf8.{Bytes, between}

abbrev pub u64_size : ℕ
u64_size = 2 ^ 64

-- The digits of `n` in front of `out`.
unfoldable pub decimal_onto : ℕ → ℕ → Bytes → Bytes
decimal_onto zero n out = out
decimal_onto (suc fuel) n out =
    let rest = decimal_onto fuel (n / 10) ((b'0' + n % 10) ∷ out) in
    if ltb n 10 then (b'0' + n) ∷ out else rest

-- `n.to_string()`: `n` has at most `n + 1` digits.
unfoldable pub to_string : ℕ → Bytes
unfolding decimal_onto
to_string n = decimal_onto (suc n) n []

unfoldable pub parse_digits : Bytes → ℕ → Option ℕ
parse_digits [] n = some n
parse_digits (c ∷ s) n = elim (between b'0' b'9' c) [
  | false ↦ none
  | true ↦
      let m : ℕ = n * 10 + (c - b'0') in
      elim (ltb m u64_size) [ true ↦ parse_digits s m | false ↦ none ]
]

-- `s.parse::<u64>().ok()`: one sign `+` is allowed, and at least one digit is needed.
unfoldable pub parse_u64 : Bytes → Option ℕ
unfolding parse_digits
parse_u64 [] = none
parse_u64 (c ∷ []) = parse_digits (c ∷ []) 0
parse_u64 (c ∷ d ∷ s) = if c == b'+' then parse_digits (d ∷ s) 0 else parse_digits (c ∷ d ∷ s) 0
