-- ===== src/Cli/Text.antt =====
-- src/bin/cli/state.rs: cutting and wrapping texts for the terminal.
pub mod Laws
use iridium_stomp.Base.{
  ℕ, zero, suc, ◌-◌, List, [], ◌∷◌, ◌++◌, map, leb, ◌==◌, if◌then◌else◌, length, take, drop,
}
use iridium_stomp.Base.Text.Utf8.{Bytes, codes, chars}
use mathlib.Core.List.{flatten}

-- `str::repeat` of one character, as its characters.
abbrev pub copies : ℕ → Bytes → List Bytes
copies zero c = []
copies (suc n) c = c ∷ copies n c

abbrev pub dot : Bytes
dot = b'.' ∷ []

unfoldable pub truncate_str : Bytes → ℕ → Bytes
truncate_str s max_len =
    if leb (length (chars s)) max_len
    then s
    else if leb max_len 3
    then flatten (copies max_len dot)
    else flatten (take (max_len - 3) (chars s)) ++ codes "..."

-- `slice::chunks`: a list has at most as many chunks as members, which is the fuel.
unfoldable pub chunks : ℕ → ℕ → List Bytes → List (List Bytes)
chunks zero width cs = []
chunks (suc fuel) width [] = []
chunks (suc fuel) width (c ∷ cs) = take width (c ∷ cs) ∷ chunks fuel width (drop width (c ∷ cs))

unfoldable pub char_wrap : Bytes → ℕ → List Bytes
unfolding chunks
char_wrap s width =
    if width == 0 then [] else map flatten (chunks (length (chars s)) width (chars s))
