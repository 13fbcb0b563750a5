-- ===== src/Tests/Loops.antt =====
-- Whole runs of the interactive clients.
use iridium_stomp.Base.{ℕ, List, [], ◌∷◌, some, ◌≡◌, refl, true, false, ok}
use iridium_stomp.Base.Text.Utf8.{Bytes, codes, bytes_eq, trim}
use iridium_stomp.Channel.Bounded.{bounded}
use iridium_stomp.Cli.Commands.{Surroundings, splitn, split_space, written}
use iridium_stomp.Cli.Keys.{Modifiers, char, enter, up, backspace_key}
use iridium_stomp.Cli.Keys.Screens
use iridium_stomp.Cli.Keys.Screens.{ScreenEvent, pressed, idle}
use iridium_stomp.Cli.Plain.Loop
use iridium_stomp.Cli.Plain.Loop.{Event, typed}
use iridium_stomp.Cli.Plain.Quitting.{Runs, run-Runs, first_leave}
use iridium_stomp.Cli.Plain.{ErrorKind, other}
use iridium_stomp.Cli.Startup.{Args, Farewell, got, asked}
use iridium_stomp.Client.{Client, elapsed}
use iridium_stomp.Frame.{Frame}
use iridium_stomp.Task.Steps.{connected_client}
use iridium_stomp.Tests.Session.{links, room}
use mathlib.Core.List.{flatten}

abbrev here : Args
here = record {
  address = codes "h:1";
  login = codes "u";
  heartbeat = codes "0,5000";
  subscribe = codes "/q/a" ∷ [];
  summary = true;
}

abbrev moment : Surroundings
moment = record {
  now = 5;
  formats = record { date_time = λ n. codes "d"; clock_time = λ n. codes "t" };
  version = codes "0.6.0";
  disk = written;
}

abbrev unanswered : Farewell links
unanswered = record { meanwhile = λ c. c; ending = elapsed }

abbrev unknown_kind : Bytes → ErrorKind
unknown_kind e = other

abbrev nothing_else : ℕ → Client links → Client links
nothing_else n c = c

abbrev arrival : Frame
arrival = record { command = codes "MESSAGE"; headers = []; body = codes "hi" }

abbrev lines : List (Event links)
lines =
    typed moment unanswered (codes "send /q/a hello you")
    ∷ Loop.task (got 6 (codes "/q/a") arrival)
    ∷ typed moment unanswered (codes " exit now ")
    ∷ typed moment unanswered (codes "help")
    ∷ []

-- The second line ends the session.
lines_left : (first_leave links lines).1 ≡ some (moment, unanswered)
unfolding splitn split_space trim bytes_eq flatten
lines_left = refl

run-Runs_example :
    Runs links
      (bounded Bytes)
      unknown_kind
      0
      here
      nothing_else
      lines
      (connected_client links room 1)
      (Loop.run links
        (bounded Bytes)
        unknown_kind
        0
        here
        (ok (connected_client links room 1))
        nothing_else
        lines)
run-Runs_example =
    run-Runs links (bounded Bytes) unknown_kind 0 here nothing_else lines
      (connected_client links room 1)

abbrev unmodified : Modifiers
unmodified = record { control = false; others = false }

abbrev keys : List (ScreenEvent links)
keys =
    pressed moment (char (codes "q")) unmodified
    ∷ Screens.task (asked 6 (codes "/q/b"))
    ∷ pressed moment up unmodified
    ∷ idle
    ∷ pressed moment backspace_key unmodified
    ∷ pressed moment enter unmodified
    ∷ []
