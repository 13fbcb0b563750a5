-- ===== src/Cli/Commands/Quitting.antt =====
-- Which lines end an interactive session.
use iridium_stomp.Base.{
  ℕ, Bool, true, false, ◌||◌, ◌≡◌, refl, ◌∙◌, ◌⊎◌, inl, inr, List, [], ◌∷◌, arith, if◌then◌else◌,
  Bool-cases, Result-cases,
}
use iridium_stomp.Base.Text.Search.{starts_with}
use iridium_stomp.Base.Text.Utf8.{Bytes, bytes_eq, codes, trim}
use iridium_stomp.Channel.{Mpsc}
use iridium_stomp.Cli.Commands.{
  Session, Surroundings, CommandResult, done, quit, info, error, Verb, nothing, leave, send,
  subscribe, about, summary, report, clear, help, unknown, verb_of, splitn, FileOutcome, written,
  not_created, not_written, text_frame, send_command, sub_command, about_command, text_command,
  help_command, warn, pattern_warning, is_common_pattern, execute_verb, execute_parts,
  execute_command,
}
use iridium_stomp.Client.{Links, send_frame}

pub CommandResult-cases :
    (x : CommandResult)
    → (x ≡ done) ⊎ (x ≡ quit) ⊎ ((t : Bytes) × (x ≡ info t)) ⊎ ((t : Bytes) × (x ≡ error t))
CommandResult-cases done = inl refl
CommandResult-cases quit = inr (inl refl)
CommandResult-cases (info t) = inr (inr (inl (t, refl)))
CommandResult-cases (error t) = inr (inr (inr (t, refl)))

abbrev pub ends : CommandResult → Bool
ends quit = true
ends done = false
ends (info text) = false
ends (error text) = false

-- The words that end the session, as the first of a line.
abbrev pub is_farewell : Bytes → Bool
is_farewell word =
    bytes_eq word (codes "quit") || bytes_eq word (codes "exit") || bytes_eq word (codes "q")

abbrev first_is_farewell : List Bytes → Bool
first_is_farewell [] = false
first_is_farewell (word ∷ words) = is_farewell word

abbrev pub quits : Bytes → Bool
quits line = first_is_farewell (splitn 3 (trim line))

abbrev is_leave : Verb → Bool
is_leave leave = true
is_leave v = false

if_leave : (b : Bool) (w : Verb) → is_leave w ≡ false → is_leave (if b then leave else w) ≡ b
if_leave true w h = refl
if_leave false w h = h

if_other :
    (b : Bool) (v w : Verb)
    → is_leave v ≡ false
    → is_leave w ≡ false
    → is_leave (if b then v else w) ≡ false
if_other true v w h k = h
if_other false v w h k = k

verb_of-is_farewell : (word : Bytes) → is_leave (verb_of word) ≡ is_farewell word
unfolding verb_of bytes_eq
verb_of-is_farewell [] = refl
verb_of-is_farewell (c ∷ word) = search (if_leave, if_other) depth 12

module _ (l : Links) (r : Mpsc Bytes) where
  send_command-ends :
      (tui_mode : Bool) (now : ℕ) (parts : List Bytes) (s : Session l r)
      → ends (send_command l r tui_mode now parts s).1 ≡ false
  unfolding send_command
  send_command-ends tui_mode now [] s = refl
  send_command-ends tui_mode now (dest ∷ []) s = refl
  send_command-ends tui_mode now (dest ∷ msg ∷ rest) s =
      elim (Bool-cases (starts_with (codes "/") dest)) [
        | inl good ↦ elim (Result-cases (send_frame l (text_frame dest msg) s.client).1) [
          | inl (u, e) ↦ rw (good, e, send_command) refl
          | inr (x, e) ↦ rw (good, e, send_command) refl
        ]
        | inr bad ↦ rw (bad, send_command) refl
      ]

  sub_command-ends :
      (tui_mode : Bool) (now : ℕ) (parts : List Bytes) (s : Session l r)
      → ends (sub_command l r tui_mode now parts s).1 ≡ false
  unfolding sub_command
  sub_command-ends tui_mode now [] s = refl
  sub_command-ends tui_mode now (dest ∷ rest) s =
      let warned =
        if is_common_pattern dest then s else warn l r tui_mode now (pattern_warning dest) s in
      elim (Bool-cases (starts_with (codes "/") dest)) [
        | inl good ↦ elim (Bool-cases (r.send warned.requests dest).1) [
          | inl accepted ↦ rw (good, accepted) refl
          | inr refused ↦ rw (good, refused) refl
        ]
        | inr bad ↦ rw bad refl
      ]

  text_command-ends :
      (tui_mode : Bool) (disk : FileOutcome) (kind kind_lower text : Bytes) (parts : List Bytes)
      (s : Session l r)
      → ends (text_command l r tui_mode disk kind kind_lower text parts s).1 ≡ false
  unfolding text_command
  text_command-ends true written kind kind_lower text (filename ∷ rest) s = refl
  text_command-ends false written kind kind_lower text (filename ∷ rest) s = refl
  text_command-ends tui_mode (not_created e) kind kind_lower text (filename ∷ rest) s = refl
  text_command-ends tui_mode (not_written part e) kind kind_lower text (filename ∷ rest) s = refl
  text_command-ends true disk kind kind_lower text [] s = refl
  text_command-ends false disk kind kind_lower text [] s = refl

  about_command-ends :
      (tui_mode : Bool) (version : Bytes) (s : Session l r)
      → ends (about_command l r tui_mode version s).1 ≡ false
  unfolding about_command
  about_command-ends true version s = refl
  about_command-ends false version s = refl

  help_command-ends :
      (tui_mode : Bool) (s : Session l r) → ends (help_command l r tui_mode s).1 ≡ false
  unfolding help_command
  help_command-ends true s = refl
  help_command-ends false s = refl

  execute_verb-ends :
      (v : Verb) (tui_mode : Bool) (w : Surroundings) (parts : List Bytes) (s : Session l r)
      → ends (execute_verb l r v tui_mode w parts s).1 ≡ is_leave v
  unfolding execute_verb
  execute_verb-ends nothing tui_mode w parts s = refl
  execute_verb-ends leave tui_mode w parts s = refl
  execute_verb-ends send tui_mode w parts s = send_command-ends tui_mode w.now parts s
  execute_verb-ends subscribe tui_mode w parts s = sub_command-ends tui_mode w.now parts s
  execute_verb-ends about tui_mode w parts s = about_command-ends tui_mode w.version s
  execute_verb-ends summary tui_mode w parts s =
      text_command-ends tui_mode w.disk (codes "Summary") (codes "summary") _ parts s
  execute_verb-ends report tui_mode w parts s =
      text_command-ends tui_mode w.disk (codes "Report") (codes "report") _ parts s
  execute_verb-ends clear tui_mode w parts s = refl
  execute_verb-ends help tui_mode w parts s = help_command-ends tui_mode s
  execute_verb-ends (unknown name) tui_mode w parts s = refl

  execute_parts-ends :
      (tui_mode : Bool) (w : Surroundings) (parts : List Bytes) (s : Session l r)
      → ends (execute_parts l r tui_mode w parts s).1 ≡ first_is_farewell parts
  unfolding execute_parts
  execute_parts-ends tui_mode w [] s = refl
  execute_parts-ends tui_mode w (name ∷ rest) s =
      execute_verb-ends (verb_of name) tui_mode w rest s ∙ verb_of-is_farewell name

  -- Whether a line ends the session depends on its first word only.
  pub execute_command-ends :
      (tui_mode : Bool) (w : Surroundings) (line : Bytes) (s : Session l r)
      → ends (execute_command l r tui_mode w line s).1 ≡ quits line
  unfolding execute_command
  execute_command-ends tui_mode w line s = execute_parts-ends tui_mode w (splitn 3 (trim line)) s

  execute_verb-leave :
      (v : Verb) (tui_mode : Bool) (w : Surroundings) (parts : List Bytes) (s : Session l r)
      → is_leave v ≡ true
      → execute_verb l r v tui_mode w parts s ≡ (s, quit)
  unfolding execute_verb
  execute_verb-leave leave tui_mode w parts s h = refl
  execute_verb-leave v tui_mode w parts s h = ground arith

  execute_parts-quit :
      (tui_mode : Bool) (w : Surroundings) (parts : List Bytes) (s : Session l r)
      → first_is_farewell parts ≡ true
      → execute_parts l r tui_mode w parts s ≡ (s, quit)
  unfolding execute_parts
  execute_parts-quit tui_mode w [] s h = ground arith
  execute_parts-quit tui_mode w (name ∷ rest) s h =
      execute_verb-leave (verb_of name) tui_mode w rest s (verb_of-is_farewell name ∙ h)

  -- A line that quits does nothing else.
  pub execute_command-quit :
      (tui_mode : Bool) (w : Surroundings) (line : Bytes) (s : Session l r)
      → quits line ≡ true
      → execute_command l r tui_mode w line s ≡ (s, quit)
  unfolding execute_command
  execute_command-quit tui_mode w line s h =
      execute_parts-quit tui_mode w (splitn 3 (trim line)) s h
