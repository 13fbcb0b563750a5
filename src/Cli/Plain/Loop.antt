-- ===== src/Cli/Plain/Loop.antt =====
-- src/bin/cli/plain.rs: `run`, from the connection to the end of its loop over the lines.
use iridium_stomp.Base.{ℕ, Bool, true, false, List, [], ◌∷◌, ◌++◌, if◌then◌else◌, Result, ok, err}
use iridium_stomp.Base.Text.Utf8.{Bytes, codes}
use iridium_stomp.Channel.{Mpsc}
use iridium_stomp.Cli.Commands.{Session, Surroundings, complain, print, help_text}
use iridium_stomp.Cli.Plain.{
  ErrorKind, format_connection_error, handle_message, handle_frame, subscribe_destination, on_line,
}
use iridium_stomp.Cli.Startup.{
  Args, TaskEvent, got, yielded, beat, asked, elsewhere, Farewell, subscribe_all, new_session,
  close_session, on_beat,
}
use iridium_stomp.Cli.Tasks.{Failure}
use iridium_stomp.Client.{Links, Client}
use iridium_stomp.ServerError.{ConnError}

-- A line of the terminal, with what the world does to its command, or something else than a line.
pub data Event (l : Links) : Type 0 where
  typed : Surroundings → Farewell l → Bytes → Event l
  task : TaskEvent l → Event l

module _ (l : Links) (r : Mpsc Bytes) where
  -- A destination that the `sub` command asked for.
  unfoldable pub serve_asked : Bytes → Session l r → Session l r
  unfolding subscribe_destination
  serve_asked dest s0 =
      let (s1, outcome) = subscribe_destination l r dest s0 in
      elim outcome [ ok u ↦ s1 | err e ↦ complain l r e.0 s1 ]

  unfoldable pub on_task : TaskEvent l → Session l r → Session l r
  unfolding handle_message handle_frame serve_asked on_beat
  on_task (got now dest f) s = handle_message l r now dest f s
  on_task (yielded now f) s = handle_frame l r now f s
  on_task (beat now) s = on_beat l r now s
  on_task (asked now dest) s = serve_asked dest s
  on_task (elsewhere change) s = record s { client = change s.client }

  -- The loop over the lines, which ends with the input, where the list ends, or with a line that
  -- quits; the second component tells which.
  unfoldable pub command_loop : Bool → List (Event l) → Session l r → Session l r × Bool
  unfolding on_line on_task close_session
  command_loop summary [] s = (s, false)
  command_loop summary (task e ∷ es) s = command_loop summary es (on_task e s)
  command_loop summary (typed w farewell line ∷ es) s0 =
      let (s1, leave) = on_line l r summary w line s0 in
      let rest = command_loop summary es s1 in
      if leave then (close_session l r farewell s1, true) else rest

  module _ (kind_of : Bytes → ErrorKind) where
    -- `attempt` is what connecting within the timeout gives.
    unfoldable pub run :
        ℕ
        → Args
        → Result (Client l) ConnError
        → (ℕ → Client l → Client l)
        → List (Event l)
        → Result (Session l r) Failure
    unfolding format_connection_error subscribe_all command_loop
    run now args (err e) meanwhile es = err (format_connection_error kind_of e args.address)
    run now args (ok c) meanwhile es =
        let (s, outcome) =
          subscribe_all l r (subscribe_destination l r) meanwhile 0 args.subscribe (
            new_session l r now args c (
              (codes "Connecting to " ++ (args.address ++ codes "..."))
              ∷ codes "Connected."
              ∷ [])) in
        elim outcome [
          | err e ↦ err e
          | ok u ↦ ok (command_loop args.summary es (print l r ([] ∷ help_text ++ [] ∷ []) s)).0
        ]
