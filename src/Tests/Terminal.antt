-- ===== src/Tests/Terminal.antt =====
-- Runs of the command line client.
use iridium_stomp.Base.{
  true, false, List, [], ◌∷◌, ◌++◌, none, some, ◌≡◌, refl, arith, length, All, drop, map, ◌-◌,
}
use iridium_stomp.Base.Maps
use iridium_stomp.Base.Text.Utf8.{Bytes, codes, chars, bytes_eq, trim}
use iridium_stomp.Channel.Bounded.{bounded}
use iridium_stomp.Cli.Commands.{Session, Surroundings, written, execute_command}
use iridium_stomp.Cli.Commands.Sending.{Sends, send_line, execute_command-Sends}
use iridium_stomp.Cli.History.{get_elem?, history_prev, history_next}
use iridium_stomp.Cli.History.Walk.{repeat, browsing, returned, history-walk}
use iridium_stomp.Cli.Keys.Editor.{
  Zipper, zip, Shows, edit, Edits, key_of, erase_before, on_edit_key-Edits,
}
use iridium_stomp.Cli.Keys.Multibyte.{typed, on_edit_key-panics}
use iridium_stomp.Cli.Keys.{Modifiers, char, delete_key, on_edit_key}
use iridium_stomp.Cli.Panes.Fits.{message_lines-latest}
use iridium_stomp.Cli.Panes.{message_line, message_lines}
use iridium_stomp.Cli.Plain.ExitCodes.{code, Exits, run-exit_code}
use iridium_stomp.Cli.Plain.Oneshot
use iridium_stomp.Cli.Plain.Oneshot.{Meantime, send_and_close}
use iridium_stomp.Cli.Plain.{ErrorKind, other}
use iridium_stomp.Cli.Tasks.{success}
use iridium_stomp.Frame.{Frame, get_header}
use iridium_stomp.Client.Confirming.{send_frame_confirmed}
use iridium_stomp.Base.Text.Ascii.{eq_ignore_ascii_case}
use iridium_stomp.Base.Text.Decimal.{to_string}
use iridium_stomp.ServerError.{confirmed}
use iridium_stomp.Cli.State.Journal
use iridium_stomp.Cli.State.Journal.{blank}
use iridium_stomp.Cli.State.Runs.{Event, message, heartbeat, cleared, run, journal, new-run-Shows}
use iridium_stomp.Cli.State.{AppState, new, record_message}
use iridium_stomp.Cli.Summary.{Formats}
use iridium_stomp.Cli.Text.Laws.{Fits, char_wrap_lem}
use iridium_stomp.Cli.Text.{truncate_str, char_wrap}
use iridium_stomp.Client.{
  Client, send_frame, settle_receipt, elapsed, send_frame_with_receipt, wait,
}
use iridium_stomp.Base.Text.Search.{starts_with, is_char_boundary}
use iridium_stomp.Tests.Session.{links, room}
use iridium_stomp.Task.Steps.{connected_client}
use mathlib.Core.List.{flatten}

-- `é` in UTF-8.
abbrev e_acute : Bytes
e_acute = 0xc3 ∷ 0xa9 ∷ []

cut_text :
    truncate_str (codes "aaaa" ++ (e_acute ++ codes "aaaaaaaaaa")) 8
    ≡ codes "aaaa" ++ (e_acute ++ codes "...")
unfolding truncate_str chars flatten
cut_text = refl

char_wrap_lem_example :
    (flatten (char_wrap (codes "aabbdd") 4) ≡ codes "aabbdd")
    × All (Fits 4) (char_wrap (codes "aabbdd") 4)
char_wrap_lem_example = char_wrap_lem (codes "aabbdd") 4 (omega arith)

abbrev events : List Event
events =
    message 1 (codes "/topic/a") (codes "one") []
    ∷ heartbeat 2
    ∷ message 3 (codes "BROKER ERROR") (codes "no") []
    ∷ cleared
    ∷ message 4 (codes "SENT") (codes "two") []
    ∷ []

abbrev fresh : AppState
fresh = new 0 (codes "h") (codes "u") 10000

new-run-Shows_example : Journal.Shows (run events fresh) (journal events blank)
new-run-Shows_example = new-run-Shows events 0 (codes "h") (codes "u") 10000

abbrev seasoned : AppState
seasoned = record fresh {
  command_history = codes "help" ∷ codes "quit" ∷ [];
  input = codes "dr";
  cursor_pos = 2;
}

history-walk_example :
    (cmd : Bytes) × (get_elem? seasoned.command_history 0 ≡ some cmd)
    × (repeat 2 history_prev seasoned ≡ some (browsing seasoned 0 cmd))
    × (repeat 2 history_next (browsing seasoned 0 cmd) ≡ some (returned seasoned))
unfolding new
history-walk_example = history-walk seasoned 1 refl (omega arith)

abbrev formats : Formats
formats = record { date_time = λ n. codes "today"; clock_time = λ n. codes "12:00:00" }

abbrev around : Surroundings
around = record { now = 5; formats = formats; version = codes "0.6.0"; disk = written }

abbrev session : Session links (bounded Bytes)
session = record {
  client = connected_client links room 1;
  app = fresh;
  requests = room;
  stdout = [];
  stderr = [];
  files = [];
}

sends_hi :
    (execute_command links
      (bounded Bytes)
      true
      around
      (send_line (codes "/q/a") (codes "hi you"))
      session).0.app.messages
    ≡ record {
      timestamp = 5;
      destination = codes "WARN";
      body =
          codes
            "Warning: '/q/a' doesn't match common patterns (/topic/, /queue/, /amq/, /exchange/)";
      headers = [];
    }
      ∷ record {
        timestamp = 5;
        destination = codes "SENT";
        body = codes "[/q/a] hi you";
        headers = [];
      }
      ∷ []
unfolding execute_command trim chars flatten bytes_eq send_frame connected_client record_message
    Maps.get new
sends_hi = refl

trimmed :
    trim (send_line (codes "/q/a") (codes "hi you")) ≡ send_line (codes "/q/a") (codes "hi you")
unfolding trim chars flatten
trimmed = refl

slash : starts_with (codes "/") (codes "/q/a") ≡ true
unfolding starts_with
slash = refl

execute_command-Sends_example :
    Sends links (bounded Bytes) (codes "/q/a") (codes "hi you") session (
      execute_command links
        (bounded Bytes)
        true
        around
        (send_line (codes "/q/a") (codes "hi you"))
        session)
execute_command-Sends_example =
    execute_command-Sends links (bounded Bytes) true around (codes "/q/a") (codes "hi you") session
      slash (omega arith) trimmed

abbrev bare : Modifiers
bare = record { control = false; others = false }

abbrev written_line : Zipper
written_line = zip (codes "rd") (codes "op")

shown : Shows written_line (record fresh { input = codes "drop"; cursor_pos = 2 })
shown = record { text = refl; cursor = refl; ascii_before = omega arith; ascii_after = omega arith }

on_edit_key-Edits_example :
    Edits
      (edit erase_before written_line)
      (record fresh { input = codes "drop"; cursor_pos = 2 })
      (on_edit_key
        (key_of erase_before)
        bare
        (record fresh { input = codes "drop"; cursor_pos = 2 }))
on_edit_key-Edits_example =
    on_edit_key-Edits erase_before bare written_line
      (record fresh { input = codes "drop"; cursor_pos = 2 }) tt shown

starts : is_char_boundary fresh.cursor_pos fresh.input ≡ true
unfolding is_char_boundary new
starts = refl

on_edit_key-panics_example :
    (on_edit_key (char e_acute) bare fresh ≡ some (typed 0xc3 0xa9 [] fresh, false))
    × (on_edit_key (char e_acute) bare (typed 0xc3 0xa9 [] fresh) ≡ none)
    × (on_edit_key delete_key bare (typed 0xc3 0xa9 [] fresh) ≡ none)
on_edit_key-panics_example = on_edit_key-panics fresh 0xc3 0xa9 [] starts bare e_acute refl refl

abbrev busy : AppState
busy = run events fresh

message_lines-latest_example :
    message_lines formats 1 (record fresh { messages = busy.messages })
    ≡ map (message_line formats) (drop (length busy.messages - 1) busy.messages)
unfolding new
message_lines-latest_example =
    message_lines-latest formats 1 (record fresh { messages = busy.messages }) refl refl

abbrev receipt_frame : Frame
receipt_frame = record {
  command = codes "RECEIPT";
  headers = (codes "receipt-id", codes "rcpt-1") ∷ [];
  body = [];
}

abbrev connected_here : Client links
connected_here = connected_client links room 1

-- The broker confirms the first receipt.
abbrev meantime : Meantime links
meantime = record {
  sending = settle_receipt links receipt_frame confirmed;
  sent_ending = elapsed;
  closing = λ c. c;
  close_ending = elapsed;
}

kind : Bytes → ErrorKind
kind e = other

run-exit_code_example :
    Exits links kind (codes "h:1") (codes "/q/a") (codes "hi") 5 meantime connected_here
run-exit_code_example =
    run-exit_code links kind (codes "h:1") (codes "/q/a") (codes "hi") 5 meantime connected_here
      slash

confirmed_exit :
    code links kind (codes "h:1") (codes "/q/a") (codes "hi") 5 meantime connected_here ≡ success
unfolding Oneshot.run send_and_close starts_with send_frame_confirmed send_frame_with_receipt
    connected_client wait Maps.get settle_receipt get_header eq_ignore_ascii_case bytes_eq to_string
    Maps.insert
confirmed_exit = refl
