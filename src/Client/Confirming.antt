-- ===== src/Client/Confirming.antt =====
-- connection.rs: the calls that send a frame and wait for its receipt. `meanwhile` is what else
-- happens to the shared state between the two.
use iridium_stomp.Base.{true, List, ◌∷◌, ◌≡◌, ◌⊎◌, refl, inl, inr, some, ok, err, arith}
use iridium_stomp.Base.Text.Bytes.{bytes_eq_iff}
use iridium_stomp.Base.Text.Utf8.{Bytes, codes}
use iridium_stomp.Client.{
  Links, Client, Outcome, Ending, channel_closed, receipt_id_of, is_awaited,
  send_frame_with_receipt, wait, settle_receipt,
}
use iridium_stomp.Client.Receipts.{send_frame_with_receipt-Registers, answer, wait-settle_receipt}
use iridium_stomp.Client.Sending.{queued}
use iridium_stomp.Frame.{Frame, get_header}
use iridium_stomp.Frame
use iridium_stomp.ServerError.{ReceiptOutcome}

module _ (l : Links) where
  unfoldable pub send_frame_confirmed :
      Frame → (Client l → Client l) → Ending → Client l → Outcome l Unit
  send_frame_confirmed f meanwhile ending c0 =
      let (c1, sent) = send_frame_with_receipt l f c0 in
      elim sent [ ok id ↦ wait l id ending (meanwhile c1) | err e ↦ (c1, err e) ]

  -- The task is told to shut down however the broker answered.
  unfoldable pub close : (Client l → Client l) → Ending → Client l → Outcome l Unit
  unfolding send_frame_confirmed
  close meanwhile ending c =
      let (d, result) = send_frame_confirmed (Frame.new (codes "DISCONNECT")) meanwhile ending c in
      (record d { shutdown = true }, result)

  is_awaited_first :
      (id : Bytes) (ids rest : List Bytes) → ids ≡ id ∷ rest → is_awaited id ids ≡ true
  is_awaited_first id ids rest e = rw e (ground (arith, bytes_eq_iff id id))

  -- If the broker answers the receipt, a frame that is sent and confirmed gives that answer; or the
  -- channel to the task is closed, which the call fails with, and nothing is queued.
  pub send_frame_confirmed-answer :
      (f g : Frame) (o : ReceiptOutcome) (ending : Ending) (c : Client l)
      → get_header g (codes "receipt-id") ≡ some (receipt_id_of c.receipt_counter)
      → ((send_frame_confirmed f (settle_receipt l g o) ending c).1 ≡ answer o)
        ⊎ (((send_frame_confirmed f (settle_receipt l g o) ending c).1 ≡ err channel_closed)
            × (queued l (send_frame_confirmed f (settle_receipt l g o) ending c).0 ≡ queued l c))
  unfolding send_frame_confirmed
  send_frame_confirmed-answer f g o ending c h =
      let id = receipt_id_of c.receipt_counter in
      let sent = send_frame_with_receipt l f c in
      elim (send_frame_with_receipt-Registers l f c) [
        | inl (accepted, awaited, out) ↦ inl (
            rw (accepted, send_frame_confirmed)
              (wait-settle_receipt l g g id o o ending sent.0 h h
                (is_awaited_first id sent.0.awaited c.awaited awaited)).0)
        | inr (refused, gone, out) ↦ inr (rw (refused, send_frame_confirmed) (refl, out))
      ]
