-- ===== src/Base/Text/Search.antt =====
-- `String::from_utf8_lossy`, `str::find` and slices of a text by byte positions.
use Prim.Native.Nat.{ℕ, zero, suc}
use mathlib.Core.Bool.{Bool, true, false, ◌&&◌, ◌||◌}
use mathlib.Core.List.{List, [], ◌∷◌, ◌++◌, flatten}
use mathlib.Core.Option.{Option, none, some}
use iridium_stomp.Base.Bools.{◌==◌, if◌then◌else◌}
use iridium_stomp.Base.Lists.{drop}
use iridium_stomp.Base.Text.Utf8.{Bytes, between, followers, chars, is_whitespace}

-- U+FFFD in UTF-8.
abbrev pub replacement : Bytes
replacement = 0xef ∷ 0xbf ∷ 0xbd ∷ []

-- The bytes of a text with each broken sequence replaced. `held` holds the bytes of a character
-- that has begun and waits for the bytes of the ranges.
unfoldable pub lossy_after : List (ℕ × ℕ) → Bytes → Bytes → Bytes
unfolding followers
lossy_after [] held [] = held
lossy_after (r ∷ rs) held [] = replacement
lossy_after [] held (c ∷ s) = elim (followers c) [
  | none ↦ held ++ (replacement ++ lossy_after [] [] s)
  | some need ↦ held ++ lossy_after need (c ∷ []) s
]
lossy_after ((lo, hi) ∷ rs) held (c ∷ s) = elim (between lo hi c) [
  | true ↦ lossy_after rs (held ++ c ∷ []) s
  | false ↦ elim (followers c) [
    | none ↦ replacement ++ (replacement ++ lossy_after [] [] s)
    | some need ↦ replacement ++ lossy_after need (c ∷ []) s
  ]
]

unfoldable pub from_utf8_lossy : Bytes → Bytes
unfolding lossy_after
from_utf8_lossy s = lossy_after [] [] s

unfoldable pub starts_with : Bytes → Bytes → Bool
starts_with [] s = true
starts_with (p ∷ ps) [] = false
starts_with (p ∷ ps) (c ∷ s) = p == c && starts_with ps s

-- The byte position of the first occurrence.
unfoldable pub find : Bytes → Bytes → Option ℕ
unfolding starts_with
find p [] = if starts_with p [] then some 0 else none
find p (c ∷ s) = elim (starts_with p (c ∷ s)) [
  | true ↦ some 0
  | false ↦ elim (find p s) [ none ↦ none | some n ↦ some (suc n) ]
]

-- `c.is_whitespace() || c == ',' || c == '"' || c == '\''` on a character's bytes.
unfoldable pub ends_word : Bytes → Bool
unfolding is_whitespace
ends_word (c ∷ []) = is_whitespace (c ∷ []) || c == b',' || c == 0x22 || c == 0x27
ends_word g = is_whitespace g

unfoldable pub word_chars : List Bytes → List Bytes
unfolding ends_word
word_chars [] = []
word_chars (g ∷ gs) = if ends_word g then [] else g ∷ word_chars gs

-- The text up to the first character that ends a word.
unfoldable pub word : Bytes → Bytes
unfolding word_chars chars
word s = flatten (word_chars (chars s))

-- Whether a position is one where a character starts, or the end.
unfoldable pub is_char_boundary : ℕ → Bytes → Bool
is_char_boundary zero s = true
is_char_boundary (suc n) [] = false
is_char_boundary (suc zero) (c ∷ []) = true
is_char_boundary (suc zero) (c ∷ d ∷ s) = if between 0x80 0xbf d then false else true
is_char_boundary (suc (suc n)) (c ∷ s) = is_char_boundary (suc n) s

-- `&s[n..]`, which panics outside the text and inside a character.
unfoldable pub slice_from : ℕ → Bytes → Option Bytes
unfolding is_char_boundary
slice_from n s = if is_char_boundary n s then some (drop n s) else none
