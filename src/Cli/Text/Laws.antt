-- ===== src/Cli/Text/Laws.antt =====
-- Texts as their characters, and what cutting and wrapping keep of them.
use iridium_stomp.Base.{
  ℕ, zero, suc, ◌-◌, ◌≤◌, ◌<◌, true, false, ◌≡◌, refl, ap, sym, ◌∙◌, ◌⊎◌, inl, inr, List, [], ◌∷◌,
  ◌++◌, map, append_assoc, arith, Bool-cases, ◌==◌, leb, leb→le, length, take, drop, All,
  length-append, take-drop,
}
use iridium_stomp.Base.Text.Utf8.{Bytes, between, codes, starts_inside, cons_char, chars}
use iridium_stomp.Cli.Text.{copies, dot, truncate_str, chunks, char_wrap}
use mathlib.Core.List.{flatten}

abbrev IsContinuation : ℕ → Type 0
IsContinuation c = between 0x80 0xbf c ≡ true

-- One byte, and continuation bytes.
abbrev IsChar : Bytes → Type 0
IsChar [] = ⊥
IsChar (c ∷ s) = All IsContinuation s

abbrev StartsAnew : List Bytes → Type 0
StartsAnew [] = Unit
StartsAnew (g ∷ gs) = starts_inside g ≡ false

-- The characters of a text.
abbrev pub AreChars : List Bytes → Type 0
AreChars [] = Unit
AreChars (g ∷ gs) = IsChar g × StartsAnew gs × AreChars gs

cons_char-AreChars : (c : ℕ) (gs : List Bytes) → AreChars gs → AreChars (cons_char c gs)
unfolding cons_char
cons_char-AreChars c [] h = (tt, tt, tt)
cons_char-AreChars c ([] ∷ gs) h = elim (h.0) [ ]
cons_char-AreChars c ((d ∷ g) ∷ gs) h = ground arith

pub chars-AreChars : (s : Bytes) → AreChars (chars s)
unfolding chars
chars-AreChars [] = tt
chars-AreChars (c ∷ s) = cons_char-AreChars c (chars s) (chars-AreChars s)

cons_char-flatten : (c : ℕ) (gs : List Bytes) → flatten (cons_char c gs) ≡ c ∷ flatten gs
unfolding cons_char flatten
cons_char-flatten c [] = refl
cons_char-flatten c (g ∷ gs) = ground arith

pub flatten-chars : (s : Bytes) → flatten (chars s) ≡ s
unfolding chars flatten
flatten-chars [] = refl
flatten-chars (c ∷ s) = cons_char-flatten c (chars s) ∙ ap (◌∷◌ c) (flatten-chars s)

chars_char :
    (c : ℕ) (g s : Bytes) (gs : List Bytes)
    → All IsContinuation g
    → StartsAnew gs
    → chars s ≡ gs
    → chars (c ∷ (g ++ s)) ≡ (c ∷ g) ∷ gs
unfolding chars cons_char
chars_char c [] s [] hg hs e = ap (cons_char c) e
chars_char c [] s (k ∷ gs) hg hs e = ap (cons_char c) e ∙ ground arith
chars_char c (d ∷ g) s gs hg hs e = ap (cons_char c) (chars_char d g s gs hg.1 hs e) ∙ ground arith

-- The characters are those that the text is made of.
pub chars-flatten : (gs : List Bytes) → AreChars gs → chars (flatten gs) ≡ gs
unfolding flatten
chars-flatten [] h = unfold chars in refl
chars-flatten ([] ∷ gs) h = elim (h.0) [ ]
chars-flatten ((c ∷ g) ∷ gs) h = chars_char c g (flatten gs) gs h.0 h.1 (chars-flatten gs h.2)

take-AreChars : (n : ℕ) (gs : List Bytes) → AreChars gs → AreChars (take n gs)
take-AreChars zero gs h = tt
take-AreChars (suc n) [] h = tt
take-AreChars (suc zero) (g ∷ gs) h = (h.0, tt, tt)
take-AreChars (suc (suc n)) (g ∷ []) h = h
take-AreChars (suc (suc n)) (g ∷ k ∷ gs) h = (h.0, h.1, take-AreChars (suc n) (k ∷ gs) h.2)

drop-AreChars : (n : ℕ) (gs : List Bytes) → AreChars gs → AreChars (drop n gs)
drop-AreChars zero gs h = h
drop-AreChars (suc n) [] h = tt
drop-AreChars (suc n) (g ∷ gs) h = drop-AreChars n gs h.2

append-AreChars :
    (gs ks : List Bytes) → AreChars gs → StartsAnew ks → AreChars ks → AreChars (gs ++ ks)
append-AreChars [] ks h s k = k
append-AreChars (g ∷ []) ks h s k = (h.0, s, k)
append-AreChars (g ∷ g' ∷ gs) ks h s k = (h.0, h.1, append-AreChars (g' ∷ gs) ks h.2 s k)

copies-AreChars : (n : ℕ) → AreChars (copies n dot)
copies-AreChars zero = tt
copies-AreChars (suc zero) = (tt, tt, tt)
copies-AreChars (suc (suc n)) = (tt, refl, copies-AreChars (suc n))

length-copies : (n : ℕ) (c : Bytes) → length (copies n c) ≡ n
length-copies zero c = refl
length-copies (suc n) c = omega (arith, length-copies n c)

length-take-le : (n : ℕ) (gs : List Bytes) → length (take n gs) ≤ n
length-take-le zero gs = omega arith
length-take-le (suc n) [] = omega arith
length-take-le (suc n) (g ∷ gs) = omega (arith, length-take-le n gs)

flatten-append : (gs ks : List Bytes) → flatten (gs ++ ks) ≡ flatten gs ++ flatten ks
unfolding flatten
flatten-append [] ks = refl
flatten-append (g ∷ gs) ks =
    ap (λ s. g ++ s) (flatten-append gs ks) ∙ sym (append_assoc g (flatten gs) (flatten ks))

flatten_three_dots : flatten (copies 3 dot) ≡ codes "..."
unfolding flatten
flatten_three_dots = refl

-- What cutting does: a text that fits stays, and of another the first characters are kept, with
-- three dots behind them where there is room for more than those.
abbrev Cut : Bytes → ℕ → Bytes → Type 0
Cut s n r =
    ((length (chars s) ≤ n) × (r ≡ s))
    ⊎ ((n < length (chars s)) × (n ≤ 3) × (chars r ≡ copies n dot))
    ⊎ ((n < length (chars s)) × (chars r ≡ take (n - 3) (chars s) ++ copies 3 dot))

-- A text with at most the given number of characters is kept. Of a longer one the characters that
-- leave room for three dots are kept, with the dots behind them, or only dots where no more than
-- three characters are asked for. The result never has more characters than asked for.
truncate_str_lem :
    (s : Bytes) (n : ℕ) → Cut s n (truncate_str s n) × (length (chars (truncate_str s n)) ≤ n)
unfolding truncate_str
truncate_str_lem s n = elim (Bool-cases (leb (length (chars s)) n)) [
  | inl fits ↦ rw fits (inl (leb→le _ _ fits, refl), leb→le _ _ fits)
  | inr long ↦ elim (Bool-cases (leb n 3)) [
    | inl tiny ↦
        let dots = chars-flatten (copies n dot) (copies-AreChars n) in
        rw (long, tiny)
          (
            inr (inl (ground arith, ground arith, dots)),
            rw dots (omega (arith, length-copies n dot)),
          )
    | inr wide ↦
        let kept = take (n - 3) (chars s) ++ copies 3 dot in
        let cut : chars (flatten (take (n - 3) (chars s)) ++ codes "...") ≡ kept =
          ap chars (
            ap (λ d. flatten (take (n - 3) (chars s)) ++ d) (sym flatten_three_dots)
            ∙ sym (flatten-append (take (n - 3) (chars s)) (copies 3 dot)))
          ∙ chars-flatten kept (
              append-AreChars (take (n - 3) (chars s)) (copies 3 dot)
                (take-AreChars (n - 3) (chars s) (chars-AreChars s)) refl (copies-AreChars 3)) in
        rw (long, wide)
          (
            inr (inr (ground arith, cut)),
            rw cut (
                ground (
                  arith,
                  length-append (take (n - 3) (chars s)) (copies 3 dot),
                  length-take-le (n - 3) (chars s),
                )),
          )
  ]
]

length-drop-lt :
    (n : ℕ) (g : Bytes) (gs : List Bytes) → 0 < n → length (drop n (g ∷ gs)) < length (g ∷ gs)
length-drop-lt zero g gs h = absurd (omega arith)
length-drop-lt (suc zero) g gs h = omega arith
length-drop-lt (suc (suc n)) g [] h = omega arith
length-drop-lt (suc (suc n)) g (k ∷ gs) h = omega (arith, length-drop-lt (suc n) k gs (omega arith))

flatten-chunks :
    (fuel width : ℕ) (cs : List Bytes)
    → 0 < width
    → length cs ≤ fuel
    → flatten (map flatten (chunks fuel width cs)) ≡ flatten cs
unfolding chunks flatten
flatten-chunks zero width [] w h = refl
flatten-chunks zero width (c ∷ cs) w h = absurd (omega arith)
flatten-chunks (suc fuel) width [] w h = refl
flatten-chunks (suc fuel) width (c ∷ cs) w h =
    let rest = drop width (c ∷ cs) in
    ap (λ s. flatten (take width (c ∷ cs)) ++ s)
      (flatten-chunks fuel width rest w (omega (arith, length-drop-lt width c cs w)))
    ∙ sym (flatten-append (take width (c ∷ cs)) rest)
    ∙ ap flatten (take-drop width (c ∷ cs))

-- A piece of text that fits and is not empty.
abbrev pub Fits : ℕ → Bytes → Type 0
Fits width piece = (0 < length (chars piece)) × (length (chars piece) ≤ width)

chunks-Fits :
    (fuel width : ℕ) (cs : List Bytes)
    → 0 < width
    → AreChars cs
    → All (Fits width) (map flatten (chunks fuel width cs))
unfolding chunks
chunks-Fits zero width cs w h = tt
chunks-Fits (suc fuel) width [] w h = tt
chunks-Fits (suc fuel) (suc width) (c ∷ cs) w h =
    let piece = take (suc width) (c ∷ cs) in
    let same = chars-flatten piece (take-AreChars (suc width) (c ∷ cs) h) in
    (
      rw same (omega arith, length-take-le (suc width) (c ∷ cs)),
      chunks-Fits fuel (suc width) (drop (suc width) (c ∷ cs)) w
          (drop-AreChars (suc width) (c ∷ cs) h),
    )
chunks-Fits (suc fuel) zero (c ∷ cs) w h = absurd (omega arith)

-- Wrapping a text at a width that is not 0 loses and adds nothing: the pieces joined are the text,
-- and each of them has at least one character and at most as many as the width.
pub char_wrap_lem :
    (s : Bytes) (width : ℕ)
    → 0 < width
    → (flatten (char_wrap s width) ≡ s) × All (Fits width) (char_wrap s width)
unfolding char_wrap
char_wrap_lem s zero w = elim w [ ]
char_wrap_lem s (suc width) w =
    let wide : (suc width == 0) ≡ false = ground arith in
    rw wide (
      flatten-chunks (length (chars s)) (suc width) (chars s) w (omega arith) ∙ flatten-chars s,
      chunks-Fits (length (chars s)) (suc width) (chars s) w (chars-AreChars s),
    )
