-- ===== src/Cli/Panes/Fits.antt =====
-- That the panes hold what is drawn in them, and which messages those are.
use iridium_stomp.Base.{
  ℕ, zero, suc, ◌-◌, ◌≤◌, ◌<◌, Bool, false, not, ◌&&◌, ◌≡◌, refl, sym, ap, ◌∙◌, inl, inr, List, [],
  ◌∷◌, ◌++◌, map, append_assoc, append-nil, arith, Bool-cases, leb, length, take, drop, is_empty,
  length-append, length-drop,
}
use iridium_stomp.Cli.Panes.{
  Line, first_visible, message_line, push_lines, push_message, push_messages, message_lines,
  first_line, rest_lines, wrapped_headers, push_error, push_errors, error_lines,
}
use iridium_stomp.Cli.State.{DisplayMessage, AppState}
use iridium_stomp.Cli.Summary.{Formats}

push_lines_le :
    (height : ℕ) (lines xs : List Line)
    → length lines ≤ height
    → length (push_lines height lines xs) ≤ height
unfolding push_lines
push_lines_le height lines [] h = h
push_lines_le height lines (x ∷ xs) h = elim (Bool-cases (leb height (length lines))) [
  | inl full ↦ rw full h
  | inr room ↦
      rw room
        (push_lines_le height (lines ++ x ∷ []) xs (ground (arith, length-append lines (x ∷ []))))
]

module _ (formats : Formats) (show_headers : Bool) (height : ℕ) where
  push_message_le :
      (lines : List Line) (m : DisplayMessage)
      → length lines < height
      → length (push_message formats show_headers height lines m) ≤ height
  unfolding push_message
  push_message_le lines m h =
      let shown = lines ++ message_line formats m ∷ [] in
      let fits : length shown ≤ height =
        omega (arith, length-append lines (message_line formats m ∷ [])) in
      elim (Bool-cases (show_headers && not (is_empty m.headers))) [
        | inl more ↦ rw more (push_lines_le height shown _ fits)
        | inr alone ↦ rw alone fits
      ]

  push_messages_le :
      (lines : List Line) (ms : List DisplayMessage)
      → length lines ≤ height
      → length (push_messages formats show_headers height lines ms) ≤ height
  unfolding push_messages
  push_messages_le lines [] h = h
  push_messages_le lines (m ∷ ms) h = elim (Bool-cases (leb height (length lines))) [
    | inl full ↦ rw full h
    | inr room ↦ rw room (
        push_messages_le (push_message formats show_headers height lines m) ms
          (push_message_le lines m (ground arith)))
  ]

  module _ (width : ℕ) where
    push_error_le :
        (lines : List Line) (e : DisplayMessage)
        → length lines < height
        → length (push_error formats show_headers width height lines e) ≤ height
    unfolding push_error
    push_error_le lines e h =
        let first = first_line formats width e in
        let l1 = lines ++ first ∷ [] in
        let fits : length l1 ≤ height = omega (arith, length-append lines (first ∷ [])) in
        let wrapped = push_lines_le height l1 (rest_lines formats width e) fits in
        elim (Bool-cases show_headers) [
          | inl more ↦ rw more (
              push_lines_le height _ _
                (push_lines_le height _ (wrapped_headers width e.headers) wrapped))
          | inr alone ↦ rw alone (push_lines_le height _ _ wrapped)
        ]

    push_errors_le :
        (lines : List Line) (es : List DisplayMessage)
        → length lines ≤ height
        → length (push_errors formats show_headers width height lines es) ≤ height
    unfolding push_errors
    push_errors_le lines [] h = h
    push_errors_le lines (e ∷ es) h = elim (Bool-cases (leb height (length lines))) [
      | inl full ↦ rw full h
      | inr room ↦ rw room (
          push_errors_le (push_error formats show_headers width height lines e) es
            (push_error_le lines e (ground arith)))
    ]

take_nil : (n : ℕ) → take {A = DisplayMessage} n [] ≡ []
take_nil zero = refl
take_nil (suc n) = refl

-- Without headers each message is one line.
push_messages_plain :
    (formats : Formats) (height : ℕ) (lines : List Line) (ms : List DisplayMessage)
    → push_messages formats false height lines ms
      ≡ lines ++ map (message_line formats) (take (height - length lines) ms)
unfolding push_messages push_message
push_messages_plain formats height lines [] = sym (
    ap (λ xs. lines ++ map (message_line formats) xs) (take_nil (height - length lines))
    ∙ append-nil lines)
push_messages_plain formats height lines (m ∷ ms) = elim (Bool-cases (leb height (length lines))) [
  | inl full ↦
      let none_left : height - length lines ≡ 0 = ground arith in
      rw (full, none_left) (sym (append-nil lines))
  | inr room ↦
      let line = message_line formats m in
      let size = length-append lines (line ∷ []) in
      let left : height - length lines ≡ suc (height - length (lines ++ line ∷ [])) =
        ground (arith, size) in
      rw (room, left)
        (push_messages_plain formats height (lines ++ line ∷ []) ms
          ∙ append_assoc lines (line ∷ []) _)
]

-- The panes of messages and of errors never have more lines than they are high, wherever they are
-- scrolled to, and with the headers of the messages shown or hidden.
panes_le :
    (formats : Formats) (width height : ℕ) (s : AppState)
    → (length (message_lines formats height s) ≤ height)
      × (length (error_lines formats width height s) ≤ height)
unfolding message_lines error_lines
panes_le formats width height s = (
  push_messages_le formats s.show_headers height [] _ (omega arith),
  push_errors_le formats s.show_headers height width [] _ (omega arith),
)

take_all : (n : ℕ) (ms : List DisplayMessage) → length ms ≤ n → take n ms ≡ ms
take_all n [] h = take_nil n
take_all (suc n) (m ∷ ms) h = ap (◌∷◌ m) (take_all n ms (omega arith))
take_all zero (m ∷ ms) h = absurd (omega arith)

-- With the headers hidden and the pane not scrolled, it shows one line for each of the last
-- messages, as many as it has room for, the newest at the bottom.
pub message_lines-latest :
    (formats : Formats) (height : ℕ) (s : AppState)
    → s.show_headers ≡ false
    → s.scroll_offset ≡ 0
    → message_lines formats height s
      ≡ map (message_line formats) (drop (length s.messages - height) s.messages)
unfolding message_lines first_visible
message_lines-latest formats height s hidden still =
    let shown = drop (length s.messages - height) s.messages in
    let from : first_visible s.scroll_offset (length s.messages) height
        ≡ length s.messages - height =
      rw still (ground arith) in
    let room : height - length {A = Line} [] ≡ height = omega arith in
    let all : take height shown ≡ shown =
      take_all height shown (omega (arith, length-drop (length s.messages - height) s.messages)) in
    rw (hidden, from)
      (push_messages_plain formats height [] shown
        ∙ ap (λ n. map (message_line formats) (take n shown)) room
        ∙ ap (map (message_line formats)) all)
