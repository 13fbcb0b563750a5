-- ===== src/Base/Text/Bytes.antt =====
-- Byte strings that lack a byte, comparison of byte strings, and what ASCII text computes to.
use Prim.Native.Nat.{ℕ}
use mathlib.Core.Bool.{true}
use mathlib.Core.List.{[], ◌∷◌, map, reverse, reverse-cons, reverse-reverse, flatten, map-append}
use mathlib.Core.Logic.{◌↔◌, ◌≢◌}
use mathlib.Core.Path.{◌≡◌, refl, ap, ◌∙◌}
use native.Mathlib.Omega.{arith}
use iridium_stomp.Base.Lists.{All, All-append}
use iridium_stomp.Base.Text.Utf8.{
  Bytes, between, bytes_eq, is_utf8_after, is_utf8, cons_char, chars, drop_whitespace, trim,
}

abbrev pub Lacks : ℕ → Bytes → Type 0
Lacks b = All (λ c. c ≢ b)

pub bytes_eq_iff : (a b : Bytes) → (bytes_eq a b ≡ true) ↔ (a ≡ b)
unfolding bytes_eq
bytes_eq_iff (x ∷ a) (y ∷ b) = ground (arith, bytes_eq_iff a b)
bytes_eq_iff _ _ = ground arith

pub bytes_eq_refl : (a : Bytes) → bytes_eq a a ≡ true
bytes_eq_refl a = (bytes_eq_iff a a).1 refl

abbrev pub IsDigit : ℕ → Type 0
IsDigit c = between b'0' b'9' c ≡ true

is_utf8_after-digit :
    (c : ℕ) (s : Bytes) → IsDigit c → is_utf8_after [] (c ∷ s) ≡ is_utf8_after [] s
unfolding is_utf8_after
is_utf8_after-digit c s h = ground arith

pub is_utf8_digits : (s : Bytes) → All IsDigit s → is_utf8 s ≡ true
unfolding is_utf8
is_utf8_digits [] h = refl
is_utf8_digits (c ∷ s) h = is_utf8_after-digit c s h.0 ∙ unfold is_utf8 in is_utf8_digits s h.1

abbrev single : ℕ → Bytes
single c = c ∷ []

cons_char-single :
    (c : ℕ) (s : Bytes) → All IsDigit s → cons_char c (map single s) ≡ single c ∷ map single s
unfolding cons_char
cons_char-single c [] h = refl
cons_char-single c (d ∷ s) h = ground arith

chars_digits : (s : Bytes) → All IsDigit s → chars s ≡ map single s
unfolding chars
chars_digits [] h = refl
chars_digits (c ∷ s) h = ap (cons_char c) (chars_digits s h.1) ∙ cons_char-single c s h.1

drop_whitespace-single : (s : Bytes) → All IsDigit s → drop_whitespace (map single s) ≡ map single s
unfolding drop_whitespace
drop_whitespace-single [] h = refl
drop_whitespace-single (c ∷ s) h = ground arith

flatten-single : (s : Bytes) → flatten (map single s) ≡ s
unfolding flatten
flatten-single [] = refl
flatten-single (c ∷ s) = ap (◌∷◌ c) (flatten-single s)

All-reverse : (s : Bytes) → All IsDigit s → All IsDigit (reverse s)
All-reverse [] h = tt
All-reverse (c ∷ s) h =
    rw (reverse-cons c s) (All-append IsDigit (reverse s) (c ∷ []) (All-reverse s h.1) (h.0, tt))

reverse-single : (s : Bytes) → reverse (map single s) ≡ map single (reverse s)
reverse-single [] = refl
reverse-single (c ∷ s) = simp (reverse-cons, reverse-single s, map-append)

pub trim_digits : (s : Bytes) → All IsDigit s → trim s ≡ s
unfolding trim
trim_digits s h =
    rw
      (
        chars_digits s h,
        drop_whitespace-single s h,
        reverse-single s,
        drop_whitespace-single (reverse s) (All-reverse s h),
        reverse-single (reverse s),
        reverse-reverse s,
      )
      (flatten-single s)
