-- ===== src/Cli/Startup.antt =====
-- src/bin/cli/plain.rs, src/bin/cli/tui.rs and src/bin/cli/args.rs: what both interactive clients do
-- to start, what their tasks do, and how they close the connection. The tasks run between two reads
-- of the terminal, in any order.
use iridium_stomp.Base.{ℕ, ◌+◌, Bool, List, [], ◌∷◌, ◌++◌, Result, ok, err}
use iridium_stomp.Base.Text.Utf8.{Bytes, codes}
use iridium_stomp.Channel.{Mpsc}
use iridium_stomp.Cli.Commands.{Session, complain}
use iridium_stomp.Cli.Plain.{heartbeat_interval}
use iridium_stomp.Cli.State.{AppState, record_heartbeat}
use iridium_stomp.Cli.State
use iridium_stomp.Cli.Tasks.{Failure}
use iridium_stomp.Client.{Links, Client, Ending}
use iridium_stomp.Client.Confirming.{close}
use iridium_stomp.Frame.{Frame}
use iridium_stomp.ServerError.Display.{conn_error_text}
use iridium_stomp.ServerError.{ReceivedFrame}

-- The arguments that an interactive client reads.
pub record Args : Type 0 where
  pub address : Bytes
  pub login : Bytes
  pub heartbeat : Bytes
  pub subscribe : List Bytes
  pub summary : Bool

-- What wakes a task: a message on a subscription, a frame from `next_frame`, a heart-beat, or a
-- destination to subscribe to. The connection's own task does something to the client.
pub data TaskEvent (l : Links) : Type 0 where
  got : ℕ → Bytes → Frame → TaskEvent l
  yielded : ℕ → ReceivedFrame → TaskEvent l
  beat : ℕ → TaskEvent l
  asked : ℕ → Bytes → TaskEvent l
  elsewhere : (Client l → Client l) → TaskEvent l

-- What the client's own task does while the DISCONNECT waits for its receipt.
pub record Farewell (l : Links) : Type 0 where
  pub meanwhile : Client l → Client l
  pub ending : Ending

module _ (l : Links) (r : Mpsc Bytes) where
  abbrev pub Subscribe : Type 0
  Subscribe = Bytes → Session l r → Session l r × Result {0, 0} (Unit {0}) Failure

  -- The destinations of the command line, up to the first that cannot be subscribed to. The n-th
  -- `meanwhile` is what happens to the client before the n-th of them.
  unfoldable pub subscribe_all :
      Subscribe
      → (ℕ → Client l → Client l)
      → ℕ
      → List Bytes
      → Session l r
      → Session l r × Result {0, 0} (Unit {0}) Failure
  subscribe_all one meanwhile n [] s = (s, ok tt)
  subscribe_all one meanwhile n (dest ∷ dests) s0 =
      let (s1, outcome) = one dest (record s0 { client = meanwhile n s0.client }) in
      let rest = subscribe_all one meanwhile (n + 1) dests s1 in
      elim outcome [ ok u ↦ rest | err e ↦ (s1, err e) ]

  -- The session of a client that is connected.
  abbrev pub new_session : ℕ → Args → Client l → List Bytes → Session l r
  new_session now args c lines = record {
    client = c;
    app = State.new now args.address args.login (heartbeat_interval args.heartbeat);
    requests = r.channel 16;
    stdout = lines;
    stderr = [];
    files = [];
  }

  -- The close of the connection, and the warning if the broker did not confirm it.
  unfoldable pub close_session : Farewell l → Session l r → Session l r
  unfolding close
  close_session f s0 =
      let (c, closed) = close l f.meanwhile f.ending s0.client in
      let s1 : Session l r = record s0 { client = c } in
      elim closed [
        | ok u ↦ s1
        | err e ↦
            complain l r
              (codes "Warning: broker did not confirm the disconnect: " ++ conn_error_text e) s1
      ]

  -- A heart-beat that the connection reports.
  unfoldable pub on_beat : ℕ → Session l r → Session l r
  unfolding record_heartbeat
  on_beat now s = record s { app = record_heartbeat now s.app }
