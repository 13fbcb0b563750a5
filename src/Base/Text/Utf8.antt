-- ===== src/Base/Text/Utf8.antt =====
-- `str::from_utf8`, characters as their bytes, and `str::trim`.
use Prim.Native.Char.{code}
use Prim.Native.String.{String}
use mathlib.Core.List.{reverse, flatten, List, [], ◌∷◌}
use mathlib.Core.Bool.{Bool, true, false, ◌&&◌, ◌||◌}
use mathlib.Core.Option.{Option, none, some}
use Prim.Native.Nat.{ℕ}
use iridium_stomp.Base.Bools.{leb, ltb, ◌==◌, if◌then◌else◌}

abbrev pub Bytes : Type 0
Bytes = List ℕ

-- The bytes of an ASCII literal.
abbrev pub codes : String → Bytes
codes String.[] = []
codes (String.◌∷◌ c s) = code c ∷ codes s

abbrev pub between : ℕ → ℕ → ℕ → Bool
between lo hi c = leb lo c && leb c hi

unfoldable pub bytes_eq : Bytes → Bytes → Bool
bytes_eq [] [] = true
bytes_eq (x ∷ xs) (y ∷ ys) = x == y && bytes_eq xs ys
bytes_eq _ _ = false

-- The ranges of the bytes that must follow a first byte (Unicode, table 3-7).
unfoldable pub followers : ℕ → Option (List (ℕ × ℕ))
followers c =
    if ltb c 0x80
    then some []
    else if between 0xc2 0xdf c
    then some ((0x80, 0xbf) ∷ [])
    else if c == 0xe0
    then some ((0xa0, 0xbf) ∷ (0x80, 0xbf) ∷ [])
    else if c == 0xed
    then some ((0x80, 0x9f) ∷ (0x80, 0xbf) ∷ [])
    else if between 0xe1 0xef c
    then some ((0x80, 0xbf) ∷ (0x80, 0xbf) ∷ [])
    else if c == 0xf0
    then some ((0x90, 0xbf) ∷ (0x80, 0xbf) ∷ (0x80, 0xbf) ∷ [])
    else if between 0xf1 0xf3 c
    then some ((0x80, 0xbf) ∷ (0x80, 0xbf) ∷ (0x80, 0xbf) ∷ [])
    else if c == 0xf4
    then some ((0x80, 0x8f) ∷ (0x80, 0xbf) ∷ (0x80, 0xbf) ∷ [])
    else none

unfoldable pub is_utf8_after : List (ℕ × ℕ) → Bytes → Bool
unfolding followers
is_utf8_after [] [] = true
is_utf8_after (r ∷ rs) [] = false
is_utf8_after [] (c ∷ s) = elim (followers c) [ none ↦ false | some need ↦ is_utf8_after need s ]
is_utf8_after ((lo, hi) ∷ rs) (c ∷ s) = between lo hi c && is_utf8_after rs s

-- `str::from_utf8(v).is_ok()`
unfoldable pub is_utf8 : Bytes → Bool
unfolding is_utf8_after
is_utf8 s = is_utf8_after [] s

abbrev pub starts_inside : Bytes → Bool
starts_inside [] = false
starts_inside (c ∷ s) = between 0x80 0xbf c

-- `str::chars`, each character as its bytes: a continuation byte joins the byte before it.
unfoldable pub cons_char : ℕ → List Bytes → List Bytes
cons_char c [] = (c ∷ []) ∷ []
cons_char c (g ∷ gs) = if starts_inside g then (c ∷ g) ∷ gs else (c ∷ []) ∷ g ∷ gs

unfoldable pub chars : Bytes → List Bytes
unfolding cons_char
chars [] = []
chars (c ∷ s) = cons_char c (chars s)

-- `char::is_whitespace` (Unicode White_Space) on a character's bytes.
unfoldable pub is_whitespace : Bytes → Bool
is_whitespace (c ∷ []) = between 9 13 c || c == 32
is_whitespace (a ∷ b ∷ []) = a == 0xc2 && (b == 0x85 || b == 0xa0)
is_whitespace (a ∷ b ∷ c ∷ []) =
    a == 0xe1 && b == 0x9a && c == 0x80
    || a == 0xe2 && b == 0x80 && (between 0x80 0x8a c || between 0xa8 0xa9 c || c == 0xaf)
    || a == 0xe2 && b == 0x81 && c == 0x9f
    || a == 0xe3 && b == 0x80 && c == 0x80
is_whitespace _ = false

unfoldable pub drop_whitespace : List Bytes → List Bytes
unfolding is_whitespace
drop_whitespace [] = []
drop_whitespace (c ∷ cs) = if is_whitespace c then drop_whitespace cs else c ∷ cs

-- `str::trim`
unfoldable pub trim : Bytes → Bytes
unfolding drop_whitespace chars
trim s = flatten (reverse (drop_whitespace (reverse (drop_whitespace (chars s)))))
