-- ===== src/Cli/Keys/Screens.antt =====
-- src/bin/cli/tui.rs: `run`, from the connection to the end of the loop over the keys in `run_app`.
-- What is drawn, and the terminal's modes, are not kept; `none` is a panic.
use iridium_stomp.Base.{ℕ, List, [], ◌∷◌, Option, none, some, if◌then◌else◌, Result, ok, err}
use iridium_stomp.Base.Text.Utf8.{Bytes}
use iridium_stomp.Channel.{Mpsc}
use iridium_stomp.Cli.Commands.{Session, Surroundings, print}
use iridium_stomp.Cli.Keys.{KeyCode, Modifiers, on_key}
use iridium_stomp.Cli.Plain.{ErrorKind, format_connection_error}
use iridium_stomp.Cli.Startup.{
  Args, TaskEvent, got, yielded, beat, asked, elsewhere, Farewell, subscribe_all, new_session,
  close_session, on_beat,
}
use iridium_stomp.Cli.Summary.{generate_summary}
use iridium_stomp.Cli.Tasks.{
  Failure, receive_message, receive_frame, register_destination, serve_request,
}
use iridium_stomp.Client.{Links, Client}
use iridium_stomp.ServerError.{ConnError}

-- A key, another event of the terminal or none in time, a failure to draw or to read an event, or
-- something that a task does.
pub data ScreenEvent (l : Links) : Type 0 where
  pressed : Surroundings → KeyCode → Modifiers → ScreenEvent l
  idle : ScreenEvent l
  broken : Bytes → ScreenEvent l
  task : TaskEvent l → ScreenEvent l

-- The client that could not start, that waits for the next event, and that is over.
pub data Screen (l : Links) (r : Mpsc Bytes) : Type 0 where
  not_started : Failure → Screen l r
  running : Session l r → Screen l r
  closed : Session l r → Result {0, 0} (Unit {0}) Failure → Screen l r

module _ (l : Links) (r : Mpsc Bytes) where
  unfoldable pub on_task : TaskEvent l → Session l r → Session l r
  unfolding receive_message receive_frame serve_request on_beat
  on_task (got now dest f) s = receive_message l r now dest f s
  on_task (yielded now f) s = receive_frame l r now f s
  on_task (beat now) s = on_beat l r now s
  on_task (asked now dest) s = serve_request l r now dest s
  on_task (elsewhere change) s = record s { client = change s.client }

  -- The summary, on the restored terminal, and the close of the connection.
  unfoldable pub leave_screen :
      Args → Surroundings → Farewell l → Result {0, 0} (Unit {0}) Failure → Session l r → Screen l r
  unfolding close_session
  leave_screen args w farewell result s0 =
      let s1 =
        if args.summary then print l r (generate_summary w.formats w.now s0.app ∷ []) s0 else s0 in
      closed (close_session l r farewell s1) result

  -- The loop of `run_app`, and what `run` does behind it.
  unfoldable pub key_loop :
      Args → Surroundings → Farewell l → List (ScreenEvent l) → Session l r → Option (Screen l r)
  unfolding on_key on_task leave_screen
  key_loop args end farewell [] s = some (running s)
  key_loop args end farewell (task e ∷ es) s = key_loop args end farewell es (on_task e s)
  key_loop args end farewell (idle ∷ es) s = key_loop args end farewell es s
  key_loop args end farewell (broken text ∷ es) s =
      some (leave_screen args end farewell (err (text, 1)) s)
  key_loop args end farewell (pressed w code m ∷ es) s = elim (on_key l r w code m s) [
    | none ↦ none
    | some t ↦
        let rest = key_loop args end farewell es t.0 in
        if t.1 then some (leave_screen args end farewell (ok tt) t.0) else rest
  ]

  module _ (kind_of : Bytes → ErrorKind) where
    -- `attempt` is what connecting within the timeout gives, and `setup` the error of the
    -- terminal, if there is one.
    unfoldable pub run :
        ℕ
        → Args
        → Result (Client l) ConnError
        → (ℕ → Client l → Client l)
        → Option Bytes
        → Surroundings
        → Farewell l
        → List (ScreenEvent l)
        → Option (Screen l r)
    unfolding format_connection_error subscribe_all key_loop
    run now args (err e) meanwhile setup end farewell es =
        some (not_started (format_connection_error kind_of e args.address))
    run now args (ok c) meanwhile setup end farewell es =
        let (s, outcome) =
          subscribe_all l r (register_destination l r) meanwhile 0 args.subscribe
            (new_session l r now args c []) in
        elim outcome [
          | err e ↦ some (not_started e)
          | ok u ↦ elim setup [
            | some text ↦ some (not_started (text, 1))
            | none ↦ key_loop args end farewell es s
          ]
        ]
