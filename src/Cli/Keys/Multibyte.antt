-- ===== src/Cli/Keys/Multibyte.antt =====
-- Typing a character that is more than one byte.
use iridium_stomp.Base.{
  ℕ, zero, suc, ◌+◌, ◌≤◌, true, false, ◌≡◌, refl, [], ◌∷◌, ◌++◌, none, some, arith, length, take,
  drop, ltb, length-append,
}
use iridium_stomp.Base.Text.Search.{is_char_boundary, slice_from}
use iridium_stomp.Base.Text.Utf8.{Bytes, between}
use iridium_stomp.Cli.Keys.{
  char, delete_key, Modifiers, on_char, on_edit_key, type_char, insert_at, remove_char_at, delete,
}
use iridium_stomp.Cli.Keys.Safety.{length-take_le}
use iridium_stomp.Cli.State.{AppState}

boundary_le : (n : ℕ) (s : Bytes) → is_char_boundary n s ≡ true → n ≤ length s
unfolding is_char_boundary
boundary_le zero s h = omega arith
boundary_le (suc n) [] h = cc
boundary_le (suc zero) (c ∷ []) h = omega arith
boundary_le (suc zero) (c ∷ d ∷ s) h = omega arith
boundary_le (suc (suc n)) (c ∷ s) h = omega (arith, boundary_le (suc n) s h)

-- Behind the first byte of a character that is longer there is no boundary.
boundary_inside :
    (n : ℕ) (s rest : Bytes) (a b : ℕ)
    → n ≤ length s
    → between 0x80 0xbf b ≡ true
    → is_char_boundary (suc n) (take n s ++ (a ∷ b ∷ rest)) ≡ false
unfolding is_char_boundary
boundary_inside zero s rest a b k h = rw h refl
boundary_inside (suc n) [] rest a b k h = elim k [ ]
boundary_inside (suc n) (c ∷ s) rest a b k h = boundary_inside n s rest a b (omega arith) h

slice_from-none : (n : ℕ) (s : Bytes) → is_char_boundary n s ≡ false → slice_from n s ≡ none
unfolding slice_from
slice_from-none n s h = rw h refl

remove_char_at-none : (n : ℕ) (s : Bytes) → is_char_boundary n s ≡ false → remove_char_at n s ≡ none
unfolding remove_char_at
remove_char_at-none n s h = rw (slice_from-none n s h, remove_char_at) refl

-- The state after a character of the bytes `a`, `b` and `rest`.
abbrev pub typed : ℕ → ℕ → Bytes → AppState → AppState
typed a b rest s = record s {
  input = take s.cursor_pos s.input ++ (a ∷ b ∷ (rest ++ drop s.cursor_pos s.input));
  cursor_pos = s.cursor_pos + 1;
}

module _ (s : AppState) (a b : ℕ) (rest : Bytes)
    (fits : is_char_boundary s.cursor_pos s.input ≡ true) where
  type_char-typed : type_char (a ∷ b ∷ rest) s ≡ some (typed a b rest s)
  unfolding type_char insert_at
  type_char-typed = rw fits refl

  cursor_inside :
      between 0x80 0xbf b ≡ true
      → is_char_boundary (s.cursor_pos + 1) (typed a b rest s).input ≡ false
  cursor_inside h =
      let e : s.cursor_pos + 1 ≡ suc s.cursor_pos = omega arith in
      rw e (
        boundary_inside s.cursor_pos s.input (rest ++ drop s.cursor_pos s.input) a b
          (boundary_le s.cursor_pos s.input fits) h)

  typed-inside : ltb (s.cursor_pos + 1) (length (typed a b rest s).input) ≡ true
  typed-inside = ground (
    arith,
    length-append (take s.cursor_pos s.input) (a ∷ b ∷ (rest ++ drop s.cursor_pos s.input)),
    length-take_le s.cursor_pos s.input (boundary_le s.cursor_pos s.input fits),
  )

  type_char-none : (d : Bytes) → between 0x80 0xbf b ≡ true → type_char d (typed a b rest s) ≡ none
  unfolding type_char insert_at
  type_char-none d h = rw (cursor_inside h) refl

  delete-none : between 0x80 0xbf b ≡ true → delete (typed a b rest s) ≡ none
  unfolding delete
  delete-none h =
      rw
        (
          typed-inside,
          remove_char_at-none (s.cursor_pos + 1) (typed a b rest s).input (cursor_inside h),
        )
        refl

  -- Typing a character of more than one byte in UTF-8 succeeds, but it leaves the cursor inside that
  -- character: whatever character is typed next panics, and so does the Delete key.
  pub on_edit_key-panics :
      (m : Modifiers) (d : Bytes)
      → m.control ≡ false
      → between 0x80 0xbf b ≡ true
      → (on_edit_key (char (a ∷ b ∷ rest)) m s ≡ some (typed a b rest s, false))
        × (on_edit_key (char d) m (typed a b rest s) ≡ none)
        × (on_edit_key delete_key m (typed a b rest s) ≡ none)
  unfolding on_edit_key on_char
  on_edit_key-panics m d plain h = (
    rw (plain, type_char-typed) refl,
    rw (plain, type_char-none d h) refl,
    rw (delete-none h) refl,
  )
