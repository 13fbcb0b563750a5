-- ===== src/Base/Text/Numerals.antt =====
-- Printing a number and parsing it again.
use Prim.Native.Nat.{ℕ, zero, suc, ◌+◌, ◌-◌, ◌*◌, ◌/◌, ◌%◌, ◌<◌}
use mathlib.Core.List.{[], ◌∷◌}
use mathlib.Core.Logic.{inl, inr, ◌≢◌}
use mathlib.Core.Option.{some}
use mathlib.Core.Path.{sym, ◌≡◌, refl, ap, ◌∙◌}
use native.Mathlib.Omega.{arith}
use iridium_stomp.Base.Bools.{ltb, ltb→lt, Bool-cases}
use iridium_stomp.Base.Lists.{All}
use iridium_stomp.Base.Text.Utf8.{Bytes}
use iridium_stomp.Base.Text.Bytes.{IsDigit}
use iridium_stomp.Base.Text.Decimal.{u64_size, decimal_onto, to_string, parse_digits, parse_u64}

decimal_onto_digits :
    (fuel n : ℕ) (out : Bytes) → All IsDigit out → All IsDigit (decimal_onto fuel n out)
unfolding decimal_onto
decimal_onto_digits zero n out h = h
decimal_onto_digits (suc fuel) n out h =
    ground (arith, decimal_onto_digits fuel (n / 10) ((b'0' + n % 10) ∷ out))

pub to_string_digits : (n : ℕ) → All IsDigit (to_string n)
unfolding to_string
to_string_digits n = decimal_onto_digits (suc n) n [] tt

decimal_onto-ne-nil : (fuel n : ℕ) (out : Bytes) → out ≢ [] → decimal_onto fuel n out ≢ []
unfolding decimal_onto
decimal_onto-ne-nil zero n out h = h
decimal_onto-ne-nil (suc fuel) n out h =
    ground (arith, decimal_onto-ne-nil fuel (n / 10) ((b'0' + n % 10) ∷ out))

pub to_string-ne-nil : (n : ℕ) → to_string n ≢ []
unfolding to_string decimal_onto
to_string-ne-nil n = ground (arith, decimal_onto-ne-nil n (n / 10) ((b'0' + n % 10) ∷ []))

parse_u64_digits : (s : Bytes) → All IsDigit s → s ≢ [] → parse_u64 s ≡ parse_digits s 0
unfolding parse_u64
parse_u64_digits [] h ne = absurd (ne refl)
parse_u64_digits (c ∷ []) h ne = refl
parse_u64_digits (c ∷ d ∷ s) h ne = ground arith

parse_digits_step :
    (d m k : ℕ) (s : Bytes)
    → d < 10
    → m * 10 + d ≡ k
    → k < u64_size
    → parse_digits ((b'0' + d) ∷ s) m ≡ parse_digits s k
unfolding parse_digits
parse_digits_step d m k s h e small = ground (arith, ap (parse_digits s) next)
  where
    next : m * 10 + (48 + d - 48) ≡ k
    next = omega arith

parse_digits-decimal_onto :
    (fuel n : ℕ) (out : Bytes)
    → n < fuel
    → n < u64_size
    → parse_digits (decimal_onto fuel n out) 0 ≡ parse_digits out n
unfolding decimal_onto
parse_digits-decimal_onto zero n out h k = elim h [ ]
parse_digits-decimal_onto (suc fuel) n out h k = elim (Bool-cases (ltb n 10)) [
  | inl few ↦ rw few (parse_digits_step n 0 n out (ltb→lt n 10 few) (omega arith) k)
  | inr more ↦ rw more (
      parse_digits-decimal_onto fuel (n / 10) _ (ground arith) (omega arith)
      ∙ parse_digits_step (n % 10) (n / 10) n out (omega arith) (omega arith) k)
]

-- Parsing the decimal form of a number of 64 bits gives the number back.
pub parse_u64-to_string : (n : ℕ) → n < u64_size → parse_u64 (to_string n) ≡ some n
unfolding parse_digits
parse_u64-to_string n k =
    parse_u64_digits (to_string n) (to_string_digits n) (to_string-ne-nil n)
    ∙ unfold to_string in parse_digits-decimal_onto (suc n) n [] (omega arith) k

-- The number that the digits stand for, behind those of `n`.
abbrev value : Bytes → ℕ → ℕ
value [] n = n
value (c ∷ s) n = value s (n * 10 + (c - b'0'))

value-digit : (d m k : ℕ) (s : Bytes) → m * 10 + d ≡ k → value ((b'0' + d) ∷ s) m ≡ value s k
value-digit d m k s e = ap (value s) next
  where
    next : m * 10 + (48 + d - 48) ≡ k
    next = omega arith

value-decimal_onto :
    (fuel n : ℕ) (out : Bytes) → n < fuel → value (decimal_onto fuel n out) 0 ≡ value out n
unfolding decimal_onto
value-decimal_onto zero n out h = elim h [ ]
value-decimal_onto (suc fuel) n out h = elim (Bool-cases (ltb n 10)) [
  | inl few ↦ rw few (value-digit n 0 n out (omega arith))
  | inr more ↦ rw more (
      value-decimal_onto fuel (n / 10) _ (ground arith)
      ∙ value-digit (n % 10) (n / 10) n out (omega arith))
]

value-to_string : (n : ℕ) → value (to_string n) 0 ≡ n
unfolding to_string
value-to_string n = value-decimal_onto (suc n) n [] (omega arith)

-- Two numbers with the same decimal form are equal.
pub to_string_injective : (a b : ℕ) → to_string a ≡ to_string b → a ≡ b
to_string_injective a b e = sym (value-to_string a) ∙ ap (λ s. value s 0) e ∙ value-to_string b
