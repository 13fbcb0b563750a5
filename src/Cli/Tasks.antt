-- ===== src/Cli/Tasks.antt =====
-- src/bin/cli/tui.rs: the tasks of the full-screen client that subscribe and that handle what arrives,
-- and the exit codes of src/bin/cli/mod.rs. The plain client does the same and prints.
use iridium_stomp.Base.{ℕ, [], ◌++◌, none, some, if◌then◌else◌, length, is_empty, Result, ok, err}
use iridium_stomp.Base.Text.Decimal.{to_string}
use iridium_stomp.Base.Text.Utf8.{Bytes, codes, is_utf8}
use iridium_stomp.Channel.{Mpsc}
use iridium_stomp.Cli.Commands.{Session, record_in}
use iridium_stomp.Cli.State.{record_message, register_subscription}
use iridium_stomp.Client.{Links}
use iridium_stomp.Client.Subscribing.{subscribe}
use iridium_stomp.Frame.{Frame}
use iridium_stomp.ServerError.Display.{conn_error_text}
use iridium_stomp.ServerError.{ServerError, ReceivedFrame}
use iridium_stomp.Subscription.{auto}

-- The exit codes of src/bin/cli/mod.rs.
abbrev pub success : ℕ
success = 0

abbrev pub network_error : ℕ
network_error = 1

abbrev pub auth_error : ℕ
auth_error = 2

abbrev pub protocol_error : ℕ
protocol_error = 3

abbrev pub rejected_frame : ℕ
rejected_frame = 4

-- An error for the user, with its exit code.
abbrev pub Failure : Type 0
Failure = Bytes × ℕ

-- The body of a message as text.
unfoldable pub body_of : Frame → Bytes
body_of f =
    if is_empty f.body
    then []
    else if is_utf8 f.body
    then f.body
    else codes "(" ++ (to_string (length f.body) ++ codes " bytes, binary)")

-- The text of an ERROR frame.
abbrev pub broker_text : ServerError → Bytes
broker_text e = elim e.body [ none ↦ e.message | some body ↦ e.message ++ (codes ": " ++ body) ]

module _ (l : Links) (r : Mpsc Bytes) where
  -- A message that a subscription got.
  unfoldable pub receive_message : ℕ → Bytes → Frame → Session l r → Session l r
  unfolding body_of
  receive_message now dest f s = record s {
    app = record_message now dest (body_of f) f.headers s.app;
  }

  -- What `next_frame` yields: only an ERROR is shown here.
  unfoldable pub receive_frame : ℕ → ReceivedFrame → Session l r → Session l r
  receive_frame now (ReceivedFrame.frame f) s = s
  receive_frame now (ReceivedFrame.error e) s = record s {
    app = record_message now (codes "BROKER ERROR") (broker_text e) e.frame.headers s.app;
  }

  unfoldable pub register_destination :
      Bytes → Session l r → Session l r × Result {0, 0} (Unit {0}) Failure
  unfolding subscribe
  register_destination dest s0 =
      let (c, outcome) = subscribe l dest auto s0.client in
      let s1 : Session l r = record s0 { client = c } in
      elim outcome [
        | err e ↦ (
          s1,
          err (
            codes "Failed to subscribe to '" ++ (dest ++ (codes "': " ++ conn_error_text e)),
            protocol_error,
          ),
        )
        | ok handle ↦ (record s1 { app = register_subscription dest s1.app }, ok tt)
      ]

  -- A destination that the `sub` command asked for.
  unfoldable pub serve_request : ℕ → Bytes → Session l r → Session l r
  unfolding register_destination
  serve_request now dest s0 =
      let (s1, outcome) = register_destination dest s0 in
      elim outcome [
        | ok u ↦ record_in l r now (codes "INFO") (codes "Subscribed to " ++ dest) s1
        | err e ↦ record_in l r now (codes "ERROR") e.0 s1
      ]
