-- ===== src/Base/Text/Ascii.antt =====
-- Comparisons that ignore case.
use Prim.Native.Nat.{ℕ, ◌+◌}
use mathlib.Core.Bool.{Bool, true, false, ◌&&◌}
use mathlib.Core.List.{[], ◌∷◌}
use mathlib.Core.Option.{Option, none, some}
use iridium_stomp.Base.Bools.{◌==◌, if◌then◌else◌}
use iridium_stomp.Base.Lists.{is_empty}
use iridium_stomp.Base.Text.Utf8.{Bytes, between}

-- `u8::to_ascii_lowercase`
unfoldable pub to_ascii_lowercase : ℕ → ℕ
to_ascii_lowercase c = if between b'A' b'Z' c then c + 32 else c

-- `eq_ignore_ascii_case`
unfoldable pub eq_ignore_ascii_case : Bytes → Bytes → Bool
unfolding to_ascii_lowercase
eq_ignore_ascii_case [] [] = true
eq_ignore_ascii_case (x ∷ xs) (y ∷ ys) =
    to_ascii_lowercase x == to_ascii_lowercase y && eq_ignore_ascii_case xs ys
eq_ignore_ascii_case _ _ = false

-- The next character of `to_lowercase()`, where it is ASCII, and what follows. The one character
-- outside ASCII with an ASCII lower case is U+212A, the Kelvin sign.
unfoldable pub next_lowercase : Bytes → Option (ℕ × Bytes)
unfolding to_ascii_lowercase
next_lowercase [] = none
next_lowercase (a ∷ b ∷ c ∷ s) =
    if a == 0xe2 && b == 0x84 && c == 0xaa
    then some (b'k', s)
    else some (to_ascii_lowercase a, b ∷ c ∷ s)
next_lowercase (a ∷ s) = some (to_ascii_lowercase a, s)

-- `s.to_lowercase() == p` for an ASCII text `p` in lower case.
unfoldable pub lowercase_is : Bytes → Bytes → Bool
unfolding next_lowercase
lowercase_is s [] = is_empty s
lowercase_is s (p ∷ ps) = elim (next_lowercase s) [
  | none ↦ false
  | some (c, rest) ↦ c == p && lowercase_is rest ps
]
