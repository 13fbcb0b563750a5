-- ===== src/Cli/Keys/Positions.antt =====
-- Positions in a line of ASCII text, around a cursor.
use iridium_stomp.Base.{
  ℕ, zero, suc, ◌+◌, ◌≤◌, ◌<◌, true, ◌≡◌, refl, sym, ap, ◌∙◌, List, [], ◌∷◌, ◌++◌, some, arith,
  length, take, drop, take-append, drop-append, All,
}
use iridium_stomp.Base.Text.Search.{is_char_boundary, slice_from}
use iridium_stomp.Base.Text.Utf8.{Bytes, cons_char, chars}
use iridium_stomp.Cli.Keys.{insert_at, remove_char_at}
use iridium_stomp.Cli.Text.Laws.{flatten-chars}
use mathlib.Core.List.{flatten}

abbrev pub IsAscii : ℕ → Type 0
IsAscii c = c < 0x80

-- The bytes of the list in reverse, in front of the others.
abbrev pub rev_onto : Bytes → Bytes → Bytes
rev_onto [] a = a
rev_onto (c ∷ b) a = rev_onto b (c ∷ a)

rev_onto-append : (b a s : Bytes) → rev_onto b a ++ s ≡ rev_onto b (a ++ s)
rev_onto-append [] a s = refl
rev_onto-append (c ∷ b) a s = rev_onto-append b (c ∷ a) s

pub length-rev_onto : (b a : Bytes) → length (rev_onto b a) ≡ length b + length a
length-rev_onto [] a = omega arith
length-rev_onto (c ∷ b) a = omega (arith, length-rev_onto b (c ∷ a))

pub rev_onto-rev_onto : (a b s : Bytes) → rev_onto (rev_onto a b) s ≡ rev_onto b (a ++ s)
rev_onto-rev_onto [] b s = refl
rev_onto-rev_onto (c ∷ a) b s = rev_onto-rev_onto a (c ∷ b) s

pub rev_onto-All : (b a : Bytes) → All IsAscii b → All IsAscii a → All IsAscii (rev_onto b a)
rev_onto-All [] a hb ha = ha
rev_onto-All (c ∷ b) a hb ha = rev_onto-All b (c ∷ a) hb.1 (hb.0, ha)

pub take-rev_onto : (b a : Bytes) → take (length b) (rev_onto b a) ≡ rev_onto b []
take-rev_onto b a =
    let size : length (rev_onto b []) ≡ length b = omega (arith, length-rev_onto b []) in
    ap (take (length b)) (sym (rev_onto-append b [] a))
    ∙ ap (λ n. take n (rev_onto b [] ++ a)) (sym size)
    ∙ take-append (rev_onto b []) a

pub drop-rev_onto : (b a : Bytes) → drop (length b) (rev_onto b a) ≡ a
drop-rev_onto b a =
    let size : length (rev_onto b []) ≡ length b = omega (arith, length-rev_onto b []) in
    ap (drop (length b)) (sym (rev_onto-append b [] a))
    ∙ ap (λ n. drop n (rev_onto b [] ++ a)) (sym size)
    ∙ drop-append (rev_onto b []) a

-- In ASCII text every position is one where a character starts.
is_char_boundary_ascii :
    (n : ℕ) (s : Bytes) → All IsAscii s → n ≤ length s → is_char_boundary n s ≡ true
unfolding is_char_boundary
is_char_boundary_ascii zero s h k = refl
is_char_boundary_ascii (suc n) [] h k = elim k [ ]
is_char_boundary_ascii (suc zero) (c ∷ []) h k = refl
is_char_boundary_ascii (suc zero) (c ∷ d ∷ s) h k = ground (arith, h.1.0)
is_char_boundary_ascii (suc (suc n)) (c ∷ s) h k =
    is_char_boundary_ascii (suc n) s h.1 (omega arith)

chars_ascii : (c : ℕ) (s : Bytes) → All IsAscii s → chars (c ∷ s) ≡ (c ∷ []) ∷ chars s
unfolding chars cons_char
chars_ascii c [] h = refl
chars_ascii c (d ∷ s) h =
    ap (cons_char c) (chars_ascii d s h.1)
    ∙ ground (arith, h.0)
    ∙ ap (◌∷◌ (c ∷ [])) (sym (chars_ascii d s h.1))

pub insert_at-rev_onto :
    (b a c : Bytes)
    → All IsAscii b
    → All IsAscii a
    → insert_at (length b) c (rev_onto b a) ≡ some (rev_onto b (c ++ a))
unfolding insert_at
insert_at-rev_onto b a c hb ha =
    let boundary =
      is_char_boundary_ascii (length b) (rev_onto b a) (rev_onto-All b a hb ha)
        (omega (arith, length-rev_onto b a)) in
    rw (boundary, take-rev_onto b a, drop-rev_onto b a) (ap some (rev_onto-append b [] (c ++ a)))

slice_from-rev_onto :
    (b a : Bytes) → All IsAscii b → All IsAscii a → slice_from (length b) (rev_onto b a) ≡ some a
unfolding slice_from
slice_from-rev_onto b a hb ha =
    let boundary =
      is_char_boundary_ascii (length b) (rev_onto b a) (rev_onto-All b a hb ha)
        (omega (arith, length-rev_onto b a)) in
    rw (boundary, drop-rev_onto b a) refl

remove_char_at-chars :
    (pos : ℕ) (s rest g : Bytes) (gs : List Bytes)
    → slice_from pos s ≡ some rest
    → chars rest ≡ g ∷ gs
    → remove_char_at pos s ≡ some (take pos s ++ flatten gs)
unfolding remove_char_at
remove_char_at-chars pos s rest g gs e f = rw (e, remove_char_at) (rw f refl)

pub remove_char_at-rev_onto :
    (b a : Bytes) (c : ℕ)
    → All IsAscii b
    → All IsAscii (c ∷ a)
    → remove_char_at (length b) (rev_onto b (c ∷ a)) ≡ some (rev_onto b a)
remove_char_at-rev_onto b a c hb ha =
    remove_char_at-chars (length b) (rev_onto b (c ∷ a)) (c ∷ a) (c ∷ []) (chars a)
      (slice_from-rev_onto b (c ∷ a) hb ha) (chars_ascii c a ha.1)
    ∙ rw (take-rev_onto b (c ∷ a), flatten-chars a) (ap some (rev_onto-append b [] a))
