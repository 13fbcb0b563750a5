-- ===== src/Cli/Keys/Commands.antt =====
-- What the commands leave of the input line and the history.
use iridium_stomp.Base.{
  ℕ, Bool, true, false, List, [], ◌∷◌, Option, arith, All, ◌≡◌, refl, sym, ◌∙◌, Bool-cases, ◌≤◌,
  length, if◌then◌else◌, inl, inr, Result-cases,
}
use iridium_stomp.Base.Text.Search.{starts_with}
use iridium_stomp.Base.Text.Utf8.{Bytes, trim, codes}
use iridium_stomp.Channel.{Mpsc}
use iridium_stomp.Cli.Commands.{
  Verb, nothing, leave, send, subscribe, about, summary, report, clear, help, unknown, verb_of,
  execute_verb, Session, Surroundings, FileOutcome, written, not_created, not_written, warn,
  report_sent, send_command, sub_command, about_command, text_command, help_command, execute_parts,
  execute_command, splitn, text_frame, sent_text, is_common_pattern, pattern_warning,
}
use iridium_stomp.Cli.Keys.Safety.{IsAsciiText, IsIndex, IsSound}
use iridium_stomp.Cli.State.{
  AppState, record_error, count, show_message, record_message, clear_messages,
}
use iridium_stomp.Client.{Links, send_frame}
use iridium_stomp.Frame.{Header}
use mathlib.Core.Path.{subst}

-- What the keys of the input line work on.
abbrev pub editor : AppState → Bytes × ℕ × Bytes × List Bytes × Option ℕ
editor s = (s.input, s.cursor_pos, s.saved_input, s.command_history, s.history_index)

abbrev SoundAt : Bytes × ℕ × Bytes × List Bytes × Option ℕ → Type 0
SoundAt e =
    IsAsciiText e.0
    × (e.1 ≤ length e.0)
    × IsAsciiText e.2
    × All IsAsciiText e.3
    × IsIndex e.4 (length e.3)

pub editor-IsSound : (s t : AppState) → editor t ≡ editor s → IsSound s → IsSound t
editor-IsSound s t e h = subst SoundAt (sym e) h

count-editor : (d : Bytes) (s : AppState) → editor (count d s) ≡ editor s
unfolding count
count-editor d s = ground arith

pub record_message-editor :
    (now : ℕ) (d body : Bytes) (headers : List Header) (s : AppState)
    → editor (record_message now d body headers s) ≡ editor s
unfolding record_message record_error show_message
record_message-editor now d body headers s = ground (arith, count-editor d s)

module _ (l : Links) (r : Mpsc Bytes) where
  warn-editor :
      (tui_mode : Bool) (now : ℕ) (text : Bytes) (s : Session l r)
      → editor (warn l r tui_mode now text s).app ≡ editor s.app
  unfolding warn
  warn-editor true now text s = record_message-editor now (codes "WARN") text [] s.app
  warn-editor false now text s = refl

  warn_if-editor :
      (b tui_mode : Bool) (now : ℕ) (text : Bytes) (s : Session l r)
      → editor (if b then warn l r tui_mode now text s else s).app ≡ editor s.app
  warn_if-editor true tui_mode now text s = warn-editor tui_mode now text s
  warn_if-editor false tui_mode now text s = refl

  warn_unless-editor :
      (b tui_mode : Bool) (now : ℕ) (text : Bytes) (s : Session l r)
      → editor (if b then s else warn l r tui_mode now text s).app ≡ editor s.app
  warn_unless-editor true tui_mode now text s = refl
  warn_unless-editor false tui_mode now text s = warn-editor tui_mode now text s

  report_sent-editor :
      (tui_mode : Bool) (now : ℕ) (dest msg : Bytes) (s : Session l r)
      → editor (report_sent l r tui_mode now dest msg s).app ≡ editor s.app
  unfolding report_sent
  report_sent-editor true now dest msg s =
      record_message-editor now (codes "SENT") (sent_text dest msg) [] _
      ∙ warn_if-editor _ true now (pattern_warning dest) s
  report_sent-editor false now dest msg s = warn_if-editor _ false now (pattern_warning dest) s

  send_command-editor :
      (tui_mode : Bool) (now : ℕ) (parts : List Bytes) (s : Session l r)
      → editor (send_command l r tui_mode now parts s).0.app ≡ editor s.app
  unfolding send_command
  send_command-editor tui_mode now [] s = refl
  send_command-editor tui_mode now (dest ∷ []) s = refl
  send_command-editor tui_mode now (dest ∷ msg ∷ rest) s =
      let sent = send_frame l (text_frame dest msg) s.client in
      let s1 : Session l r = record s { client = sent.0 } in
      let reported = report_sent-editor tui_mode now dest msg s1 in
      elim (Bool-cases (starts_with (codes "/") dest)) [
        | inl good ↦ elim (Result-cases sent.1) [
          | inl (u, e) ↦ rw (good, e, send_command) reported
          | inr (x, e) ↦ rw (good, e, send_command) refl
        ]
        | inr bad ↦ rw (bad, send_command) refl
      ]

  sub_command-editor :
      (tui_mode : Bool) (now : ℕ) (parts : List Bytes) (s : Session l r)
      → editor (sub_command l r tui_mode now parts s).0.app ≡ editor s.app
  unfolding sub_command
  sub_command-editor tui_mode now [] s = refl
  sub_command-editor tui_mode now (dest ∷ rest) s =
      let s1 =
        if is_common_pattern dest then s else warn l r tui_mode now (pattern_warning dest) s in
      let warned =
        warn_unless-editor (is_common_pattern dest) tui_mode now (pattern_warning dest) s in
      elim (Bool-cases (starts_with (codes "/") dest)) [
        | inl good ↦ elim (Bool-cases (r.send s1.requests dest).1) [
          | inl accepted ↦ rw (good, accepted) warned
          | inr refused ↦ rw (good, refused) warned
        ]
        | inr bad ↦ rw bad refl
      ]

  text_command-editor :
      (tui_mode : Bool) (disk : FileOutcome) (kind lower text : Bytes) (parts : List Bytes)
      (s : Session l r)
      → editor (text_command l r tui_mode disk kind lower text parts s).0.app ≡ editor s.app
  unfolding text_command
  text_command-editor true written kind lower text (f ∷ rest) s = refl
  text_command-editor false written kind lower text (f ∷ rest) s = refl
  text_command-editor tui_mode (not_created e) kind lower text (f ∷ rest) s = refl
  text_command-editor tui_mode (not_written part e) kind lower text (f ∷ rest) s = refl
  text_command-editor true disk kind lower text [] s = refl
  text_command-editor false disk kind lower text [] s = refl

  about_command-editor :
      (tui_mode : Bool) (version : Bytes) (s : Session l r)
      → editor (about_command l r tui_mode version s).0.app ≡ editor s.app
  unfolding about_command
  about_command-editor true version s = refl
  about_command-editor false version s = refl

  help_command-editor :
      (tui_mode : Bool) (s : Session l r)
      → editor (help_command l r tui_mode s).0.app ≡ editor s.app
  unfolding help_command
  help_command-editor true s = refl
  help_command-editor false s = refl

  execute_verb-editor :
      (v : Verb) (tui_mode : Bool) (w : Surroundings) (rest : List Bytes) (s : Session l r)
      → editor (execute_verb l r v tui_mode w rest s).0.app ≡ editor s.app
  unfolding execute_verb clear_messages
  execute_verb-editor nothing tui_mode w rest s = refl
  execute_verb-editor leave tui_mode w rest s = refl
  execute_verb-editor send tui_mode w rest s = send_command-editor tui_mode w.now rest s
  execute_verb-editor subscribe tui_mode w rest s = sub_command-editor tui_mode w.now rest s
  execute_verb-editor about tui_mode w rest s = about_command-editor tui_mode w.version s
  execute_verb-editor summary tui_mode w rest s =
      text_command-editor tui_mode w.disk (codes "Summary") (codes "summary") _ rest s
  execute_verb-editor report tui_mode w rest s =
      text_command-editor tui_mode w.disk (codes "Report") (codes "report") _ rest s
  execute_verb-editor clear tui_mode w rest s = refl
  execute_verb-editor help tui_mode w rest s = help_command-editor tui_mode s
  execute_verb-editor (unknown name) tui_mode w rest s = refl

  execute_parts-editor :
      (tui_mode : Bool) (w : Surroundings) (parts : List Bytes) (s : Session l r)
      → editor (execute_parts l r tui_mode w parts s).0.app ≡ editor s.app
  unfolding execute_parts
  execute_parts-editor tui_mode w [] s = refl
  execute_parts-editor tui_mode w (name ∷ rest) s =
      execute_verb-editor (verb_of name) tui_mode w rest s

  -- No command touches the input line or the history.
  pub execute_command-editor :
      (tui_mode : Bool) (w : Surroundings) (line : Bytes) (s : Session l r)
      → editor (execute_command l r tui_mode w line s).0.app ≡ editor s.app
  unfolding execute_command
  execute_command-editor tui_mode w line s =
      execute_parts-editor tui_mode w (splitn 3 (trim line)) s
