-- ===== src/Cli/Plain/Oneshot.antt =====
-- src/bin/cli/oneshot.rs: `--send`, whose exit code tells whether the broker took the message.
use iridium_stomp.Base.{ℕ, ◌++◌, if◌then◌else◌, Result, err, map_err}
use iridium_stomp.Base.Text.Decimal.{to_string}
use iridium_stomp.Base.Text.Search.{starts_with}
use iridium_stomp.Base.Text.Utf8.{Bytes, codes}
use iridium_stomp.Cli.Commands.{text_frame, invalid_destination}
use iridium_stomp.Cli.Plain.{ErrorKind, format_connection_error}
use iridium_stomp.Cli.Tasks.{Failure, network_error, protocol_error}
use iridium_stomp.Client.{Links, Client, Ending}
use iridium_stomp.Client.Confirming.{send_frame_confirmed, close}
use iridium_stomp.ServerError.{ConnError}

-- How the attempt to connect within the timeout ends.
pub data Connecting (l : Links) : Type 0 where
  timed_out : Connecting l
  failed : ConnError → Connecting l
  connected : Client l → Connecting l

abbrev pub timeout_text : ℕ → Bytes → Bytes
timeout_text timeout address =
    codes "Timed out after " ++ (to_string timeout ++ (codes "s connecting to " ++ address))

-- What happens to the client while it waits for the receipt of the message, and of the DISCONNECT,
-- and how the waits end without an answer.
pub record Meantime (l : Links) : Type 0 where
  pub sending : Client l → Client l
  pub sent_ending : Ending
  pub closing : Client l → Client l
  pub close_ending : Ending

module _ (l : Links) (kind_of : Bytes → ErrorKind) where
  -- What was sent decides, however the DISCONNECT is answered.
  unfoldable pub send_and_close :
      Bytes → Bytes → Bytes → Meantime l → Client l → Client l × Result {0, 0} (Unit {0}) Failure
  send_and_close address destination body m c0 =
      let (c1, sent) =
        send_frame_confirmed l (text_frame destination body) m.sending m.sent_ending c0 in
      let (c2, closed) = close l m.closing m.close_ending c1 in
      (c2, map_err (λ e. format_connection_error kind_of e address) sent)

  unfoldable pub run :
      Bytes → ℕ → Bytes → Bytes → Connecting l → Meantime l → Result {0, 0} (Unit {0}) Failure
  unfolding send_and_close
  run address timeout destination body attempt m =
      if starts_with (codes "/") destination
      then elim attempt [
        | timed_out ↦ err (timeout_text timeout address, network_error)
        | failed e ↦ err (format_connection_error kind_of e address)
        | connected c ↦ (send_and_close address destination body m c).1
      ]
      else err (invalid_destination destination, protocol_error)
