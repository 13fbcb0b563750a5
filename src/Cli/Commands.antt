-- ===== src/Cli/Commands.antt =====
-- src/bin/cli/commands.rs: parsing and executing a command. What is printed is kept as the lines of
-- the two streams, and what the file system does with a file is an argument.
pub mod Sending
pub mod Quitting
use iridium_stomp.Base.{
  ℕ, zero, suc, Bool, true, false, not, ◌&&◌, ◌||◌, List, [], ◌∷◌, ◌++◌, Option, none, some,
  if◌then◌else◌, ok, err, is_some, ◌==◌, is_empty,
}
use iridium_stomp.Base.Maps
use iridium_stomp.Base.Maps.{Map}
use iridium_stomp.Base.Text.Search.{starts_with}
use iridium_stomp.Base.Text.Utf8.{Bytes, bytes_eq, codes, trim}
use iridium_stomp.Channel.{Mpsc}
use iridium_stomp.Cli.State.{AppState, record_message, clear_messages}
use iridium_stomp.Cli.Summary.{Formats, generate_summary, generate_summary_with_options}
use iridium_stomp.Client.{Links, Client, send_frame}
use iridium_stomp.Frame
use iridium_stomp.Frame.{Frame, header, set_body}
use iridium_stomp.ServerError.Display.{conn_error_text}

pub data CommandResult : Type 0 where
  done quit : CommandResult
  info error : Bytes → CommandResult

-- What becomes of a file that is to be written: the whole text, nothing, or a part of it.
pub data FileOutcome : Type 0 where
  written : FileOutcome
  not_created : Bytes → FileOutcome
  not_written : Bytes → Bytes → FileOutcome

-- What a command works on. `requests` leads to the task that subscribes.
pub record Session (l : Links) (r : Mpsc Bytes) : Type 0 where
  pub client : Client l
  pub app : AppState
  pub requests : r.Sender
  pub stdout : List Bytes
  pub stderr : List Bytes
  pub files : Map Bytes

-- The clock, the dates, the crate's version and the file system.
pub record Surroundings : Type 0 where
  pub now : ℕ
  pub formats : Formats
  pub version : Bytes
  pub disk : FileOutcome

-- The text up to the first space, and what is behind it.
unfoldable pub split_space : Bytes → Bytes × Option Bytes
split_space [] = ([], none)
split_space (c ∷ s) =
    let (w, rest) = split_space s in if c == 32 then ([], some s) else (c ∷ w, rest)

-- `splitn(n, ' ')`
unfoldable pub splitn : ℕ → Bytes → List Bytes
unfolding split_space
splitn zero s = []
splitn (suc zero) s = s ∷ []
splitn (suc (suc n)) s =
    let (w, rest) = split_space s in w ∷ elim rest [ none ↦ [] | some t ↦ splitn (suc n) t ]

unfoldable pub is_common_pattern : Bytes → Bool
unfolding starts_with
is_common_pattern dest =
    starts_with (codes "/topic/") dest
    || starts_with (codes "/queue/") dest
    || starts_with (codes "/amq/") dest
    || starts_with (codes "/exchange/") dest

abbrev pub invalid_destination : Bytes → Bytes
invalid_destination dest =
    codes "Invalid destination '"
    ++ (dest ++ codes "'. Must start with / (e.g., /topic/test, /queue/test)")

abbrev pub pattern_warning : Bytes → Bytes
pattern_warning dest =
    codes "Warning: '"
    ++ (dest ++ codes "' doesn't match common patterns (/topic/, /queue/, /amq/, /exchange/)")

abbrev pub text_frame : Bytes → Bytes → Frame
text_frame dest msg =
    set_body
      (header (header (Frame.new (codes "SEND")) (codes "destination") dest) (codes "content-type")
        (codes "text/plain"))
      msg

abbrev pub sent_text : Bytes → Bytes → Bytes
sent_text dest msg = b'[' ∷ (dest ++ (codes "] " ++ msg))

abbrev pub help_text : List Bytes
help_text =
    codes "Commands:"
    ∷ codes "  send <destination> <message>  - Send a message"
    ∷ codes "  sub <destination>             - Subscribe to a destination"
    ∷ codes "  about                         - Show copyright and license"
    ∷ codes "  summary [file]                - Print session summary (or save to file)"
    ∷ codes "  report [file]                 - Full report with message history (or save to file)"
    ∷ codes "  clear                         - Clear message history"
    ∷ codes "  quit                          - Exit"
    ∷ []

-- U+00A9 in UTF-8.
abbrev pub copyright : Bytes
copyright = 0xc2 ∷ 0xa9 ∷ codes " 2025 Brad Siegfreid"

abbrev pub about_text : Bytes → List Bytes
about_text version =
    []
    ∷ (codes "iridium-stomp v" ++ version)
    ∷ []
    ∷ copyright
    ∷ []
    ∷ codes "Licensed under MIT OR Apache-2.0, at your option."
    ∷ codes "See https://github.com/iridiumdesign/iridium-stomp for more information."
    ∷ []
    ∷ []

-- What the first word of a line asks for.
pub data Verb : Type 0 where
  nothing leave send subscribe about summary report clear help : Verb
  unknown : Bytes → Verb

unfoldable pub verb_of : Bytes → Verb
verb_of name =
    let is = bytes_eq name in
    if is_empty name
    then nothing
    else if is (codes "quit") || is (codes "exit") || is (codes "q")
    then leave
    else if is (codes "send")
    then send
    else if is (codes "sub") || is (codes "subscribe")
    then subscribe
    else if is (codes "about")
    then about
    else if is (codes "summary")
    then summary
    else if is (codes "report")
    then report
    else if is (codes "clear")
    then clear
    else if is (codes "help") || is (codes "?")
    then help
    else unknown name

module _ (l : Links) (r : Mpsc Bytes) where
  abbrev pub print : List Bytes → Session l r → Session l r
  print lines s = record s { stdout = s.stdout ++ lines }

  abbrev pub complain : Bytes → Session l r → Session l r
  complain line s = record s { stderr = s.stderr ++ line ∷ [] }

  abbrev pub record_in : ℕ → Bytes → Bytes → Session l r → Session l r
  record_in now label text s = record s { app = record_message now label text [] s.app }

  -- A warning goes to the message pane or to the error stream.
  unfoldable pub warn : Bool → ℕ → Bytes → Session l r → Session l r
  warn tui_mode now text s =
      if tui_mode then record_in now (codes "WARN") text s else complain text s

  unfoldable pub report_sent : Bool → ℕ → Bytes → Bytes → Session l r → Session l r
  unfolding warn is_common_pattern
  report_sent tui_mode now dest msg s0 =
      let known = is_some (Maps.get dest s0.app.subscriptions) in
      let s1 =
        if not known && not (is_common_pattern dest)
        then warn tui_mode now (pattern_warning dest) s0
        else s0 in
      if tui_mode
      then record_in now (codes "SENT") (sent_text dest msg) s1
      else print ((codes "Sent to " ++ dest) ∷ []) s1

  unfoldable pub send_command : Bool → ℕ → List Bytes → Session l r → Session l r × CommandResult
  unfolding report_sent starts_with
  send_command tui_mode now [] s = (s, error (codes "Usage: send <destination> <message>"))
  send_command tui_mode now (dest ∷ []) s = (s, error (codes "Usage: send <destination> <message>"))
  send_command tui_mode now (dest ∷ msg ∷ rest) s =
      if starts_with (codes "/") dest
      then (let (c, outcome) = send_frame l (text_frame dest msg) s.client in
          let s1 : Session l r = record s { client = c } in
          elim outcome [
            | ok _ ↦ (report_sent tui_mode now dest msg s1, done)
            | err e ↦ (s1, error (codes "Send error: " ++ conn_error_text e))
          ])
      else (s, error (invalid_destination dest))

  unfoldable pub sub_command : Bool → ℕ → List Bytes → Session l r → Session l r × CommandResult
  unfolding warn is_common_pattern starts_with
  sub_command tui_mode now [] s = (s, error (codes "Usage: sub <destination>"))
  sub_command tui_mode now (dest ∷ rest) s0 =
      if starts_with (codes "/") dest
      then (let s1 =
            if is_common_pattern dest then s0 else warn tui_mode now (pattern_warning dest) s0 in
          let (q, accepted) = r.send s1.requests dest in
          let s2 : Session l r = record s1 { requests = q } in
          if accepted then (s2, done) else (s2, error (codes "Failed to request subscription")))
      else (s0, error (invalid_destination dest))

  unfoldable pub about_command : Bool → Bytes → Session l r → Session l r × CommandResult
  about_command tui_mode version s =
      if tui_mode
      then (
        s,
        info (
            codes "iridium-stomp v"
            ++ (version ++ (codes " - " ++ (copyright ++ codes " - MIT OR Apache-2.0")))),
      )
      else (print (about_text version) s, done)

  -- `summary` and `report`: `kind` is the word for the user.
  unfoldable pub text_command :
      Bool
      → FileOutcome
      → Bytes
      → Bytes
      → Bytes
      → List Bytes
      → Session l r
      → Session l r × CommandResult
  text_command tui_mode disk kind kind_lower text (filename ∷ rest) s = elim disk [
    | written ↦
        let s1 : Session l r = record s {
          files = Maps.insert filename (text ++ b'\n' ∷ []) s.files;
        } in
        let message = kind ++ (codes " written to " ++ filename) in
        if tui_mode then (s1, info message) else (print (message ∷ []) s1, done)
    | not_created e ↦ (s, error (codes "Failed to create file: " ++ e))
    | not_written part e ↦ (
      record s { files = Maps.insert filename part s.files },
      error (codes "Failed to write " ++ (kind_lower ++ (codes ": " ++ e))),
    )
  ]
  text_command tui_mode disk kind kind_lower text [] s =
      if tui_mode
      then (s, error (codes "Usage: " ++ (kind_lower ++ codes " <filename>")))
      else (print (text ∷ []) s, done)

  unfoldable pub help_command : Bool → Session l r → Session l r × CommandResult
  help_command tui_mode s =
      if tui_mode
      then (s, info (codes "Commands: send, sub, summary <file>, report <file>, clear, quit"))
      else (print help_text s, done)

  unfoldable pub execute_verb :
      Verb → Bool → Surroundings → List Bytes → Session l r → Session l r × CommandResult
  unfolding send_command sub_command about_command text_command help_command
  execute_verb nothing tui_mode w rest s = (s, done)
  execute_verb leave tui_mode w rest s = (s, quit)
  execute_verb send tui_mode w rest s = send_command tui_mode w.now rest s
  execute_verb subscribe tui_mode w rest s = sub_command tui_mode w.now rest s
  execute_verb about tui_mode w rest s = about_command tui_mode w.version s
  execute_verb summary tui_mode w rest s =
      text_command tui_mode w.disk (codes "Summary") (codes "summary")
        (generate_summary w.formats w.now s.app) rest s
  execute_verb report tui_mode w rest s =
      text_command tui_mode w.disk (codes "Report") (codes "report")
        (generate_summary_with_options w.formats w.now true 80 s.app) rest s
  execute_verb clear tui_mode w rest s = (record s { app = clear_messages s.app }, done)
  execute_verb help tui_mode w rest s = help_command tui_mode s
  execute_verb (unknown name) tui_mode w rest s =
      (s, error (codes "Unknown command: " ++ (name ++ codes ". Type 'help' for commands.")))

  unfoldable pub execute_parts :
      Bool → Surroundings → List Bytes → Session l r → Session l r × CommandResult
  unfolding execute_verb verb_of
  execute_parts tui_mode w [] s = (s, done)
  execute_parts tui_mode w (name ∷ rest) s = execute_verb (verb_of name) tui_mode w rest s

  unfoldable pub execute_command :
      Bool → Surroundings → Bytes → Session l r → Session l r × CommandResult
  unfolding execute_parts splitn
  execute_command tui_mode w line s = execute_parts tui_mode w (splitn 3 (trim line)) s
