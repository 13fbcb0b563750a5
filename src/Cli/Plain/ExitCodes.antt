-- ===== src/Cli/Plain/ExitCodes.antt =====
-- The exit code of `--send`.
use iridium_stomp.Base.{
  ℕ, true, Option, none, some, ◌≡◌, refl, ◌∙◌, ◌⊎◌, inl, inr, Result, ok, err, map_err,
}
use iridium_stomp.Base.Maps
use iridium_stomp.Base.Text.Search.{starts_with}
use iridium_stomp.Base.Text.Utf8.{Bytes, codes}
use iridium_stomp.Cli.Commands.{text_frame}
use iridium_stomp.Cli.Plain.{ErrorKind, exit_code, format_connection_error}
use iridium_stomp.Cli.Tasks.{protocol_error, rejected_frame, success}
use iridium_stomp.Cli.Plain.Oneshot.{connected, Meantime, send_and_close, run}
use iridium_stomp.Client.{
  Links, Client, Ending, dropped, elapsed, send_frame_with_receipt, wait, receipt_id_of,
  channel_closed,
}
use iridium_stomp.Client.Confirming.{send_frame_confirmed}
use iridium_stomp.Client.Receipts.{send_frame_with_receipt-Registers}
use iridium_stomp.ServerError.{ConnError, ServerError, ReceiptOutcome, confirmed, refused}

module _ (l : Links) (kind_of : Bytes → ErrorKind) where
  -- The code for what the send gave.
  abbrev code_of : Bytes → Result {0, 0} (Unit {0}) ConnError → ℕ
  code_of address r = exit_code (map_err (λ e. format_connection_error kind_of e address) r)

  wait-code_of :
      (address id : Bytes) (ending : Ending) (c : Client l) (found : Option ReceiptOutcome)
      → Maps.get id c.answers ≡ found
      → ((found ≡ some confirmed) × (code_of address (wait l id ending c).1 ≡ success))
        ⊎ ((e : ServerError) × (found ≡ some (refused e))
            × (code_of address (wait l id ending c).1 ≡ rejected_frame))
        ⊎ ((found ≡ none) × (code_of address (wait l id ending c).1 ≡ protocol_error))
  unfolding wait format_connection_error
  wait-code_of address id ending c (some confirmed) e = inl (refl, rw (e, wait) refl)
  wait-code_of address id ending c (some (refused x)) e = inr (inl (x, refl, rw (e, wait) refl))
  wait-code_of address id dropped c none e = inr (inr (refl, rw (e, wait) refl))
  wait-code_of address id elapsed c none e = inr (inr (refl, rw (e, wait) refl))

  module _ (address destination body : Bytes) (timeout : ℕ) (m : Meantime l) (c : Client l) where
    abbrev pub first : Client l × Result {0, 0} Bytes ConnError
    first = send_frame_with_receipt l (text_frame destination body) c

    abbrev pub receipt : Bytes
    receipt = receipt_id_of c.receipt_counter

    -- The broker's answer to the message, if it gave one in time.
    abbrev pub found : Option ReceiptOutcome
    found = Maps.get receipt (m.sending first.0).answers

    abbrev pub code : ℕ
    code = exit_code (run l kind_of address timeout destination body (connected c) m)

    -- 0 for a message that was queued and confirmed, 4 for one that was queued and refused, and 3
    -- where there was no answer or no connection.
    abbrev pub Exits : Type 0
    Exits =
        ((first.1 ≡ ok receipt) × (found ≡ some confirmed) × (code ≡ success))
        ⊎ ((first.1 ≡ ok receipt)
            × ((e : ServerError) × (found ≡ some (refused e)) × (code ≡ rejected_frame)))
        ⊎ (((found ≡ none) ⊎ (first.1 ≡ err channel_closed)) × (code ≡ protocol_error))

    run-sent :
        starts_with (codes "/") destination ≡ true
        → first.1 ≡ ok receipt
        → code ≡ code_of address (wait l receipt m.sent_ending (m.sending first.0)).1
    unfolding run send_and_close send_frame_confirmed
    run-sent h e = rw h (rw (e, send_frame_confirmed) refl)

    run-unsent :
        starts_with (codes "/") destination ≡ true
        → first.1 ≡ err channel_closed
        → code ≡ protocol_error
    unfolding run send_and_close send_frame_confirmed format_connection_error
    run-unsent h e = rw h (rw (e, send_frame_confirmed) refl)

    -- Once connected, whatever else happens meanwhile and however the disconnect goes, `--send` of a
    -- destination with a slash exits with 0 if the message was queued and the broker confirmed it,
    -- with 4 if it was queued and the broker refused it, and with 3 if no answer came in time or the
    -- connection was gone before the message was queued.
    pub run-exit_code : starts_with (codes "/") destination ≡ true → Exits
    run-exit_code h = elim (send_frame_with_receipt-Registers l (text_frame destination body) c) [
      | inl (sent, awaited, g) ↦
          let run_code = run-sent h sent in
          elim (wait-code_of address receipt m.sent_ending (m.sending first.0) found refl) [
            | inl (e, k) ↦ inl (sent, e, run_code ∙ k)
            | inr (inl (x, e, k)) ↦ inr (inl (sent, (x, e, run_code ∙ k)))
            | inr (inr (e, k)) ↦ inr (inr (inl e, run_code ∙ k))
          ]
      | inr (unsent, gone, same) ↦ inr (inr (inr unsent, run-unsent h unsent))
    ]
