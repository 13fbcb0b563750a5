-- ===== src/Tests/Reconnects.antt =====
-- Runs of the loop over a lost connection.
use iridium_stomp.Base.{◌≡◌, refl, none, [], ◌∷◌, ok, err, length, ◌≤◌, ◌+◌, ◌*◌, suc}
use iridium_stomp.Base.Text.Utf8.{codes, bytes_eq}
use iridium_stomp.Codec.{frame}
use iridium_stomp.Frame.{get_header}
use iridium_stomp.Registry.{resubscribe_frames}
use iridium_stomp.ServerError.{io}
use iridium_stomp.Task.Recovery.{Steps, waited, recovered, recovered-Steps}
use iridium_stomp.Task.Replaying.{Replays}
use iridium_stomp.Handshake.{Attempt, unreached, answered, item, attempt_result}
use iridium_stomp.Task.{Task}
use iridium_stomp.Task.Lifecycle.{start_connection, on_incoming, on_attempt, end_connection}
use iridium_stomp.Task.Steps.{
  phase_after, phase_of_attempt, connected, lost, reconnecting, incoming, run_branch,
  connected_client, spawn, turn, lose, try, Reachable, start, step,
}
use iridium_stomp.Task.Waiting.Events.{IsPaced, Reachable-IsPaced}
use iridium_stomp.Tests.Session.{links, same, room, started, subscribed}

abbrev cut : Task links
cut = (run_branch links same (incoming none) started).0

-- The connection lasted a second.
abbrev backing : Task links
backing = end_connection links 1000 cut

abbrev failing : Attempt
failing = unreached (codes "refused")

abbrev again : Task links
again = (on_attempt links (codes "0,0") failing backing).0

again_runs : again.backoff_secs ≡ 4
unfolding run_branch on_incoming start_connection spawn connected_client end_connection on_attempt
    attempt_result
again_runs = refl

reached : Reachable links same reconnecting again
unfolding run_branch on_incoming on_attempt attempt_result phase_after phase_of_attempt
reached =
    step reconnecting reconnecting backing again
      (step lost reconnecting cut backing
        (step connected lost started cut (start room 1 room room) (turn started (incoming none)))
        (lose cut 1000))
      (try backing (codes "0,0") failing)

Reachable-IsPaced_example : IsPaced links again
Reachable-IsPaced_example = Reachable-IsPaced links same reached

abbrev welcomed : Attempt
welcomed =
    answered (item (frame (record { command = codes "CONNECTED"; headers = []; body = [] })) ∷ [])

welcomed_result : attempt_result welcomed ≡ ok (codes "0,0")
unfolding attempt_result bytes_eq get_header
welcomed_result = refl

failing_result : attempt_result failing ≡ err (io (codes "refused"))
unfolding attempt_result
failing_result = refl

recovered-Steps_example :
    Steps links same lost subscribed connected
      (recovered links same (codes "0,0") 1000 (failing ∷ failing ∷ []) welcomed subscribed)
    × ((end_connection links 1000 subscribed).backoff_secs
          + waited links same
              (codes "0,0")
              (failing ∷ failing ∷ [])
              (end_connection links 1000 subscribed)
        ≤ 30 * suc (length {A = Attempt} (failing ∷ failing ∷ [])))
    × Replays links
        (resubscribe_frames subscribed.client.subscriptions)
        subscribed
        (recovered links same (codes "0,0") 1000 (failing ∷ failing ∷ []) welcomed subscribed)
recovered-Steps_example =
    recovered-Steps links same (codes "0,0") 1000 (failing ∷ failing ∷ []) welcomed (codes "0,0")
      subscribed
      ((io (codes "refused"), failing_result), ((io (codes "refused"), failing_result), tt))
      welcomed_result
