-- ===== src/Client/Receipts.antt =====
-- Receipts: the header that asks for one, the registration, and the answer.
use iridium_stomp.Base.{
  true, false, not, List, [], ◌∷◌, ◌++◌, ◌≡◌, ◌⊎◌, inl, inr, refl, ap, ◌∙◌, some, Result, ok, err,
  arith, append-nil, if◌then◌else◌, retain, Bool-cases,
}
use iridium_stomp.Base.Maps
use iridium_stomp.Base.Maps.Laws.{get-insert}
use iridium_stomp.Base.Text.Ascii.{eq_ignore_ascii_case}
use iridium_stomp.Base.Text.Bytes.{bytes_eq_iff}
use iridium_stomp.Base.Text.Utf8.{Bytes, codes, bytes_eq}
use iridium_stomp.Client.{
  Links, Client, Outcome, Ending, channel_closed, enqueue, send_frame, without_receipt,
  receipt_id_of, generate_receipt_id, deregister, is_awaited, send_frame_with_receipt, wait,
  settle_receipt,
}
use iridium_stomp.Client.Sending.{queued}
use iridium_stomp.Codec.{frame}
use iridium_stomp.Frame.{Frame, Header, receipt, get_header}
use iridium_stomp.Outbound.{item}
use iridium_stomp.ServerError.{ReceiptOutcome, confirmed, refused, ConnError, frame_rejected}

-- The values of all headers that ask for a receipt.
abbrev pub receipts : List Header → List Bytes
receipts [] = []
receipts ((k, v) ∷ hs) =
    if eq_ignore_ascii_case k (codes "receipt") then v ∷ receipts hs else receipts hs

-- The other headers.
abbrev pub others : List Header → List Header
others hs = retain (λ h. not (eq_ignore_ascii_case h.0 (codes "receipt"))) hs

receipts-append : (hs ks : List Header) → receipts (hs ++ ks) ≡ receipts hs ++ receipts ks
receipts-append [] ks = refl
receipts-append ((k, v) ∷ hs) ks = ground (arith, receipts-append hs ks)

receipts-others : (hs : List Header) → receipts (others hs) ≡ []
receipts-others [] = refl
receipts-others ((k, v) ∷ hs) = ground (arith, receipts-others hs)

others-append : (hs ks : List Header) → others (hs ++ ks) ≡ others hs ++ others ks
others-append [] ks = refl
others-append ((k, v) ∷ hs) ks = ground (arith, others-append hs ks)

others-others : (hs : List Header) → others (others hs) ≡ others hs
others-others [] = refl
others-others ((k, v) ∷ hs) = ground (arith, others-others hs)

-- `g` is `f` but that it asks for the receipt `id` and no other.
pub record Asks (id : Bytes) (f g : Frame) : Type 0 where
  pub command : g.command ≡ f.command
  pub body : g.body ≡ f.body
  pub rest : others g.headers ≡ others f.headers
  pub asked : receipts g.headers ≡ id ∷ []

receipt-Asks : (id : Bytes) (f : Frame) → Asks id f (receipt (without_receipt f) id)
unfolding without_receipt eq_ignore_ascii_case
receipt-Asks id f = record {
  command = refl;
  body = refl;
  rest =
      others-append (others f.headers) _
      ∙ append-nil (others (others f.headers))
      ∙ others-others f.headers;
  asked = receipts-append (others f.headers) _ ∙ ap (λ x. x ++ id ∷ []) (receipts-others f.headers);
}

deregister-is_awaited :
    (id : Bytes) (ids : List Bytes) → is_awaited id (retain (λ j. not (bytes_eq j id)) ids) ≡ false
deregister-is_awaited id [] = refl
deregister-is_awaited id (j ∷ ids) = ground (arith, deregister-is_awaited id ids)

-- What the handle's wait gives.
abbrev pub answer : ReceiptOutcome → Result {0, 0} Unit ConnError
answer confirmed = ok tt
answer (refused e) = err (frame_rejected e)

module _ (l : Links) where
  -- What sending with a receipt comes to.
  abbrev pub Registers : Frame → Client l → Outcome l Bytes → Type 0
  Registers f c r =
      ((r.1 ≡ ok (receipt_id_of c.receipt_counter))
        × (r.0.awaited ≡ receipt_id_of c.receipt_counter ∷ c.awaited)
        × ((g : Frame) × Asks (receipt_id_of c.receipt_counter) f g
            × (queued l r.0 ≡ queued l c ++ item (frame g) ∷ [])))
      ⊎ ((r.1 ≡ err channel_closed)
          × (is_awaited (receipt_id_of c.receipt_counter) r.0.awaited ≡ false)
          × (queued l r.0 ≡ queued l c))

  -- Sending a frame with a receipt queues that frame with one `receipt` header, whatever the
  -- caller had set, and registers its id; or the channel is closed, nothing is queued and no such
  -- id is registered.
  pub send_frame_with_receipt-Registers :
      (f : Frame) (c : Client l) → Registers f c (send_frame_with_receipt l f c)
  unfolding send_frame_with_receipt generate_receipt_id send_frame enqueue
  send_frame_with_receipt-Registers f c =
      let id = receipt_id_of c.receipt_counter in
      let o = item (frame (receipt (without_receipt f) id)) in
      elim (Bool-cases (l.outbound.send c.outbound o).1) [
        | inl accepted ↦ inl (
          rw (accepted, send_frame_with_receipt) refl,
          rw (accepted, send_frame_with_receipt) refl,
          (
            receipt (without_receipt f) id,
            receipt-Asks id f,
            rw (accepted, send_frame_with_receipt) (l.outbound.send_true c.outbound o accepted),
          ),
        )
        | inr rejected ↦ inr (
          rw (rejected, send_frame_with_receipt) refl,
          rw (rejected, send_frame_with_receipt) (deregister-is_awaited id (id ∷ c.awaited)),
          rw (rejected, send_frame_with_receipt) (l.outbound.send_false c.outbound o rejected),
        )
      ]

  wait-answered :
      (c : Client l) (id : Bytes) (o : ReceiptOutcome) (ending : Ending)
      → Maps.get id c.answers ≡ some o
      → (wait l id ending c).1 ≡ answer o
  unfolding wait
  wait-answered c id o ending h = rw (h, wait) refl

  -- The broker's answer to a receipt that is waited for is what the wait gives, and the first answer
  -- counts: another one for the same receipt changes nothing.
  pub wait-settle_receipt :
      (f g : Frame) (id : Bytes) (o p : ReceiptOutcome) (ending : Ending) (c : Client l)
      → get_header f (codes "receipt-id") ≡ some id
      → get_header g (codes "receipt-id") ≡ some id
      → is_awaited id c.awaited ≡ true
      → ((wait l id ending (settle_receipt l f o c)).1 ≡ answer o)
        × (settle_receipt l g p (settle_receipt l f o c) ≡ settle_receipt l f o c)
  unfolding settle_receipt wait
  wait-settle_receipt f g id o p ending c hf hg h =
      let settled : Client l = record (deregister l id c) {
        answers = Maps.insert id o c.answers;
      } in
      let run : settle_receipt l f o c ≡ settled = rw (hf, h, settle_receipt) refl in
      rw run (
        wait-answered settled id o ending
            (rw (get-insert id id o c.answers) (ground (arith, bytes_eq_iff id id))),
        rw (hg, deregister-is_awaited id c.awaited, settle_receipt) refl,
      )
