-- ===== src/Cli/Plain.antt =====
-- src/bin/cli/plain.rs: messages of errors with their exit codes, the handling of what arrives, and
-- the loop over the lines of the terminal. The prompt is not kept. `kind_of` is `io::Error::kind`.
pub mod Oneshot
pub mod ExitCodes
pub mod Loop
pub mod Quitting
use iridium_stomp.Base.{
  ℕ, ◌^◌, Bool, true, false, List, [], ◌∷◌, ◌++◌, Option, none, some, ltb, ◌==◌, if◌then◌else◌,
  length, is_empty, map, Result, ok, err,
}
use iridium_stomp.Base.Text.Decimal.{parse_u64, to_string}
use iridium_stomp.Base.Text.Utf8.{Bytes, codes, is_utf8, trim}
use iridium_stomp.Channel.{Mpsc}
use iridium_stomp.Cli.Commands.{
  Session, Surroundings, CommandResult, done, quit, info, error, print, complain, execute_command,
}
use iridium_stomp.Cli.State.{AppState, record_message, register_subscription}
use iridium_stomp.Cli.Summary.{generate_summary}
use iridium_stomp.Cli.Tasks.{
  Failure, network_error, auth_error, protocol_error, rejected_frame, success, body_of, broker_text,
  receive_message, receive_frame, register_destination,
}
use iridium_stomp.Client.{Links, Client}
use iridium_stomp.Client.Subscribing.{subscribe}
use iridium_stomp.Frame.{Frame, Header}
use iridium_stomp.Heartbeat.{first_two}
use iridium_stomp.ServerError.Display.{conn_error_text}
use iridium_stomp.ServerError.{
  ServerError, ConnError, io, protocol, receipt_timeout, server_rejected, frame_rejected,
  missing_ack_id, ReceivedFrame,
}
use iridium_stomp.Subscription.{auto}

pub data ErrorKind : Type 0 where
  connection_refused timed_out other : ErrorKind

abbrev io_text : ErrorKind → Bytes → Bytes → Bytes
io_text connection_refused e address = codes "Connection refused: " ++ address
io_text timed_out e address = codes "Connection timed out: " ++ address
io_text other e address = codes "Connection failed: " ++ e

abbrev in_parentheses : Option Bytes → Bytes
in_parentheses none = []
in_parentheses (some body) = codes " (" ++ (body ++ codes ")")

unfoldable pub format_connection_error : (Bytes → ErrorKind) → ConnError → Bytes → Failure
format_connection_error kind_of (io e) address = (io_text (kind_of e) e address, network_error)
format_connection_error kind_of (server_rejected e) address =
    (codes "Authentication failed: " ++ (e.message ++ in_parentheses e.body), auth_error)
format_connection_error kind_of (frame_rejected e) address =
    (codes "Frame rejected: " ++ (e.message ++ in_parentheses e.body), rejected_frame)
format_connection_error kind_of (protocol text) address =
    (codes "Protocol error: " ++ text, protocol_error)
format_connection_error kind_of (receipt_timeout id) address =
    (codes "Receipt timeout: " ++ id, protocol_error)
format_connection_error kind_of missing_ack_id address =
    (codes "Connection failed: " ++ conn_error_text missing_ack_id, protocol_error)

-- What `main` exits with.
abbrev pub exit_code : Result {0, 0} (Unit {0}) Failure → ℕ
exit_code (ok u) = success
exit_code (err e) = e.1

-- The receive interval of the heart-beat option, a `u32`.
unfoldable pub heartbeat_interval : Bytes → ℕ
unfolding first_two
heartbeat_interval heartbeat = elim (first_two heartbeat).1 [
  | none ↦ 10000
  | some field ↦ elim (parse_u64 (trim field)) [
    | none ↦ 10000
    | some n ↦ if ltb n (2 ^ 32) then n else 10000
  ]
]

abbrev header_line : Header → Bytes
header_line (k, v) = codes "  " ++ (k ++ (codes ": " ++ v))

module _ (l : Links) (r : Mpsc Bytes) where
  -- A message that a subscription got is recorded and printed.
  unfoldable pub handle_message : ℕ → Bytes → Frame → Session l r → Session l r
  unfolding receive_message
  handle_message now dest f s =
      let body = if is_empty f.body then [] else (codes "  Body: " ++ body_of f) ∷ [] in
      let title = b'[' ∷ (dest ++ codes "] MESSAGE received:") in
      print l r ([] ∷ title ∷ map header_line f.headers ++ body) (receive_message l r now dest f s)

  -- What `next_frame` yields: only an ERROR is shown here.
  unfoldable pub handle_frame : ℕ → ReceivedFrame → Session l r → Session l r
  unfolding receive_frame
  handle_frame now (ReceivedFrame.frame f) s = s
  handle_frame now (ReceivedFrame.error e) s0 =
      let s1 = receive_frame l r now (ReceivedFrame.error e) s0 in
      record s1 {
        stderr =
            s1.stderr
            ++ ([] ∷ (codes "[BROKER ERROR] " ++ broker_text e) ∷ map header_line e.frame.headers);
      }

  -- A destination that is subscribed to is printed.
  unfoldable pub subscribe_destination :
      Bytes → Session l r → Session l r × Result {0, 0} (Unit {0}) Failure
  unfolding register_destination
  subscribe_destination dest s0 =
      let (s1, outcome) = register_destination l r dest s0 in
      elim outcome [
        | err e ↦ (s1, err e)
        | ok u ↦ (print l r ((codes "Subscribed to: " ++ dest) ∷ []) s1, ok u)
      ]

  -- A line that is read from the terminal, and whether the loop ends; closing comes behind it.
  unfoldable pub on_line : Bool → Surroundings → Bytes → Session l r → Session l r × Bool
  unfolding execute_command
  on_line summary w line s0 =
      let (s1, result) = execute_command l r false w line s0 in
      elim result [
        | done ↦ (s1, false)
        | info text ↦ (print l r (text ∷ []) s1, false)
        | error text ↦ (complain l r text s1, false)
        | quit ↦
            let s2 = print l r (codes "Disconnecting..." ∷ []) s1 in
            (
              if summary then print l r (generate_summary w.formats w.now s2.app ∷ []) s2 else s2,
              true,
            )
      ]
