-- ===== src/Cli/Keys/Runs.antt =====
-- That the full-screen client never panics while only ASCII is typed.
use iridium_stomp.Base.{Option, none, some}
use iridium_stomp.Base.Text.Utf8.{Bytes}
use iridium_stomp.Channel.{Mpsc}
use iridium_stomp.Cli.Keys.Screens.{
  ScreenEvent, pressed, idle, broken, task, Screen, not_started, running, closed,
}
use iridium_stomp.Cli.Keys.Panics.{IsAsciiKey}
use iridium_stomp.Cli.Keys.Safety.{IsSound}
use iridium_stomp.Cli.State
use iridium_stomp.Client.{Links, Client}

module _ (l : Links) (r : Mpsc Bytes) where
  -- Only ASCII is typed.
  abbrev pub IsAsciiEvent : ScreenEvent l → Type 0
  IsAsciiEvent (pressed w k m) = IsAsciiKey k
  IsAsciiEvent idle = Unit
  IsAsciiEvent (broken text) = Unit
  IsAsciiEvent (task e) = Unit

  -- The client has not panicked, and its line, cursor and history are in order.
  abbrev pub IsOpenOrOver : Option (Screen l r) → Type 0
  IsOpenOrOver none = ⊥
  IsOpenOrOver (some (not_started e)) = Unit
  IsOpenOrOver (some (running s)) = IsSound s.app
  IsOpenOrOver (some (closed s result)) = IsSound s.app
