-- ===== src/Cli/Keys/Editor.antt =====
-- The input line against an editor on the text before and behind the cursor.
use iridium_stomp.Base.{
  ℕ, Bool, ◌+◌, ◌-◌, true, false, ◌≡◌, refl, sym, ap, ◌∙◌, [], ◌∷◌, Option, some, arith, ltb,
  length, All, append-nil,
}
use iridium_stomp.Base.Text.Utf8.{Bytes}
use iridium_stomp.Cli.Keys.{
  type_char, backspace, delete, move_to, cursor_left, cursor_right, clear_input, Modifiers, KeyCode,
  char, left_arrow, right_arrow, home, end_key, backspace_key, delete_key, esc, on_edit_key,
  on_char, stay,
}
use iridium_stomp.Cli.State.{AppState}
use iridium_stomp.Cli.Keys.Positions.{
  IsAscii, rev_onto, length-rev_onto, rev_onto-rev_onto, rev_onto-All, insert_at-rev_onto,
  remove_char_at-rev_onto,
}

-- The bytes before the cursor, the nearest first, and those behind it.
pub record Zipper : Type 0 where
  pub before : Bytes
  pub after : Bytes

-- What the keys are for.
pub data Edit : Type 0 where
  type : ℕ → Edit
  erase_before erase_after go_left go_right go_home go_end clear : Edit

abbrev pub zip : Bytes → Bytes → Zipper
zip b a = record { before = b; after = a }

unfoldable pub edit_parts : Edit → Bytes → Bytes → Zipper
edit_parts (type c) b a = zip (c ∷ b) a
edit_parts erase_before [] a = zip [] a
edit_parts erase_before (c ∷ b) a = zip b a
edit_parts erase_after b [] = zip b []
edit_parts erase_after b (c ∷ a) = zip b a
edit_parts go_left [] a = zip [] a
edit_parts go_left (c ∷ b) a = zip b (c ∷ a)
edit_parts go_right b [] = zip b []
edit_parts go_right b (c ∷ a) = zip (c ∷ b) a
edit_parts go_home b a = zip [] (rev_onto b a)
edit_parts go_end b a = zip (rev_onto a b) []
edit_parts clear b a = zip [] []

abbrev pub edit : Edit → Zipper → Zipper
edit e z = edit_parts e z.before z.after

-- The input line and the position are those of the editor, whose text is ASCII.
pub record Shows (z : Zipper) (s : AppState) : Type 0 where
  pub text : s.input ≡ rev_onto z.before z.after
  pub cursor : s.cursor_pos ≡ length z.before
  pub ascii_before : All IsAscii z.before
  pub ascii_after : All IsAscii z.after

-- The history is left alone.
abbrev pub Keeps : AppState → AppState → Type 0
Keeps s t =
    (t.command_history ≡ s.command_history)
    × (t.history_index ≡ s.history_index)
    × (t.saved_input ≡ s.saved_input)

-- The operation succeeds with a state that shows the text.
abbrev Leads : Zipper → AppState → Option AppState → Type 0
Leads z s o = (t : AppState) × (o ≡ some t) × Shows z t × Keeps s t

module _ (s : AppState) where
  type_char-Leads :
      (c : ℕ) (b a : Bytes)
      → IsAscii c
      → Shows (zip b a) s
      → Leads (zip (c ∷ b) a) s (type_char (c ∷ []) s)
  unfolding type_char
  type_char-Leads c b a hc h = (
    record s { input = rev_onto b (c ∷ a); cursor_pos = length b + 1 },
    rw (h.text, h.cursor, insert_at-rev_onto b a (c ∷ []) h.ascii_before h.ascii_after) refl,
    record {
      text = refl;
      cursor = omega arith;
      ascii_before = (hc, h.ascii_before);
      ascii_after = h.ascii_after;
    },
    (refl, refl, refl),
  )

  backspace-Leads :
      (b a : Bytes) → Shows (zip b a) s → Leads (edit_parts erase_before b a) s (backspace s)
  unfolding backspace edit_parts
  backspace-Leads [] a h = (s, rw (h.cursor) refl, h, (refl, refl, refl))
  backspace-Leads (c ∷ b) a h = (
    record s { input = rev_onto b a; cursor_pos = length b },
    (let inside : ltb 0 s.cursor_pos ≡ true = ground (arith, h.cursor) in
        let before : s.cursor_pos - 1 ≡ length b = omega (arith, h.cursor) in
        rw
          (
            inside,
            before,
            h.text,
            remove_char_at-rev_onto b a c h.ascii_before.1 (h.ascii_before.0, h.ascii_after),
          )
          refl),
    record {
      text = refl;
      cursor = refl;
      ascii_before = h.ascii_before.1;
      ascii_after = h.ascii_after;
    },
    (refl, refl, refl),
  )

  delete-Leads : (b a : Bytes) → Shows (zip b a) s → Leads (edit_parts erase_after b a) s (delete s)
  unfolding delete edit_parts
  delete-Leads b [] h = (
    s,
    (let outside : ltb s.cursor_pos (length s.input) ≡ false =
          ground (arith, h.cursor, h.text, length-rev_onto b [], ap length (h.text)) in
        rw outside refl),
    h,
    (refl, refl, refl),
  )
  delete-Leads b (c ∷ a) h = (
    record s { input = rev_onto b a; cursor_pos = length b },
    (let inside : ltb s.cursor_pos (length s.input) ≡ true =
          ground (arith, h.cursor, length-rev_onto b (c ∷ a), ap length (h.text)) in
        rw (inside, h.cursor, h.text, remove_char_at-rev_onto b a c h.ascii_before h.ascii_after)
          refl),
    record {
      text = refl;
      cursor = refl;
      ascii_before = h.ascii_before;
      ascii_after = h.ascii_after.1;
    },
    (refl, refl, refl),
  )

  cursor_left-Shows :
      (b a : Bytes) → Shows (zip b a) s → Shows (edit_parts go_left b a) (cursor_left s)
  unfolding cursor_left edit_parts
  cursor_left-Shows [] a h =
      let at_start : ltb 0 s.cursor_pos ≡ false = ground (arith, h.cursor) in rw at_start h
  cursor_left-Shows (c ∷ b) a h =
      let inside : ltb 0 s.cursor_pos ≡ true = ground (arith, h.cursor) in
      rw inside (record {
        text = h.text;
        cursor = omega (arith, h.cursor);
        ascii_before = h.ascii_before.1;
        ascii_after = (h.ascii_before.0, h.ascii_after);
      })

  cursor_right-Shows :
      (b a : Bytes) → Shows (zip b a) s → Shows (edit_parts go_right b a) (cursor_right s)
  unfolding cursor_right edit_parts
  cursor_right-Shows b [] h =
      let outside : ltb s.cursor_pos (length s.input) ≡ false =
        ground (arith, h.cursor, length-rev_onto b [], ap length (h.text)) in
      rw outside h
  cursor_right-Shows b (c ∷ a) h =
      let inside : ltb s.cursor_pos (length s.input) ≡ true =
        ground (arith, h.cursor, length-rev_onto b (c ∷ a), ap length (h.text)) in
      rw inside (record {
        text = h.text;
        cursor = omega (arith, h.cursor);
        ascii_before = (h.ascii_after.0, h.ascii_before);
        ascii_after = h.ascii_after.1;
      })

  cursor_left-Keeps : Keeps s (cursor_left s)
  unfolding cursor_left
  cursor_left-Keeps = ground arith

  cursor_right-Keeps : Keeps s (cursor_right s)
  unfolding cursor_right
  cursor_right-Keeps = ground arith

  end-Shows :
      (b a : Bytes) → Shows (zip b a) s → Shows (zip (rev_onto a b) []) (move_to (length s.input) s)
  end-Shows b a h = record {
    text = h.text ∙ ap (rev_onto b) (sym (append-nil a)) ∙ sym (rev_onto-rev_onto a b []);
    cursor = omega (arith, ap length (h.text), length-rev_onto b a, length-rev_onto a b);
    ascii_before = rev_onto-All a b h.ascii_after h.ascii_before;
    ascii_after = tt;
  }

-- The key for an edit.
abbrev pub key_of : Edit → KeyCode
key_of (type c) = char (c ∷ [])
key_of erase_before = backspace_key
key_of erase_after = delete_key
key_of go_left = left_arrow
key_of go_right = right_arrow
key_of go_home = home
key_of go_end = end_key
key_of clear = esc

-- A typed character is ASCII, and the control key is not down.
abbrev pub IsPlain : Edit → Modifiers → Type 0
IsPlain (type c) m = IsAscii c × (m.control ≡ false)
IsPlain e m = Unit

-- The key succeeds, with a state that shows the text.
abbrev pub Edits : Zipper → AppState → Option (AppState × Bool) → Type 0
Edits z s o = (t : AppState) × (o ≡ some (t, false)) × Shows z t × Keeps s t

stay_lem : {z : Zipper} (s : AppState) (o : Option AppState) → Leads z s o → Edits z s (stay o)
stay_lem s o (t, e, h, k) = (t, rw e refl, h, k)

-- As long as the line is ASCII, each editing key does to it what an editor on the text before and
-- behind the cursor does, with the cursor between the two. It leaves the history alone, and does
-- not panic or quit.
pub on_edit_key-Edits :
    (e : Edit) (m : Modifiers) (z : Zipper) (s : AppState)
    → IsPlain e m
    → Shows z s
    → Edits (edit e z) s (on_edit_key (key_of e) m s)
unfolding on_edit_key on_char edit_parts
on_edit_key-Edits (type c) m z s p h =
    rw (p.1) (stay_lem s (type_char (c ∷ []) s) (type_char-Leads s c z.before z.after p.0 h))
on_edit_key-Edits erase_before m z s p h =
    stay_lem s (backspace s) (backspace-Leads s z.before z.after h)
on_edit_key-Edits erase_after m z s p h = stay_lem s (delete s) (delete-Leads s z.before z.after h)
on_edit_key-Edits go_left m z s p h =
    (cursor_left s, refl, cursor_left-Shows s z.before z.after h, cursor_left-Keeps s)
on_edit_key-Edits go_right m z s p h =
    (cursor_right s, refl, cursor_right-Shows s z.before z.after h, cursor_right-Keeps s)
on_edit_key-Edits go_home m z s p h = (
  move_to 0 s,
  refl,
  record {
    text = h.text;
    cursor = refl;
    ascii_before = tt;
    ascii_after = rev_onto-All z.before z.after h.ascii_before h.ascii_after;
  },
  (refl, refl, refl),
)
on_edit_key-Edits go_end m z s p h =
    (move_to (length s.input) s, refl, end-Shows s z.before z.after h, (refl, refl, refl))
on_edit_key-Edits clear m z s p h = (
  clear_input s,
  refl,
  record { text = refl; cursor = refl; ascii_before = tt; ascii_after = tt },
  (refl, refl, refl),
)
