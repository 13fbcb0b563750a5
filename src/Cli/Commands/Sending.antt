-- ===== src/Cli/Commands/Sending.antt =====
-- What the interactive `send` command puts on the connection.
use iridium_stomp.Base.{
  ℕ, suc, Bool, true, false, ◌≡◌, refl, ap, ◌∙◌, ◌⊎◌, inl, inr, List, [], ◌∷◌, ◌++◌, some, arith,
  if◌then◌else◌, Bool-cases,
}
use iridium_stomp.Base.Text.Bytes.{Lacks}
use iridium_stomp.Base.Text.Search.{starts_with}
use iridium_stomp.Base.Text.Utf8.{Bytes, bytes_eq, codes, trim}
use iridium_stomp.Channel.{Mpsc}
use iridium_stomp.Cli.Commands.{
  Session, Surroundings, CommandResult, done, error, split_space, splitn, text_frame,
  pattern_warning, warn, report_sent, send_command, execute_parts, execute_command,
}
use iridium_stomp.Client.{Links, Client, send_frame, enqueue, channel_closed}
use iridium_stomp.Client.Sending.{queued}
use iridium_stomp.Codec
use iridium_stomp.Outbound.{Outbound, item}
use iridium_stomp.ServerError.Display.{conn_error_text}

abbrev space : ℕ
space = 32

split_space_word : (w s : Bytes) → Lacks space w → split_space (w ++ (space ∷ s)) ≡ (w, some s)
unfolding split_space
split_space_word [] s h = refl
split_space_word (c ∷ w) s h = ground (arith, split_space_word w s h.1, h.0)

splitn_word :
    (n : ℕ) (w s : Bytes)
    → Lacks space w
    → splitn (suc (suc n)) (w ++ (space ∷ s)) ≡ w ∷ splitn (suc n) s
unfolding splitn
splitn_word n w s h = rw (split_space_word w s h) refl

-- The line that the user types.
abbrev pub send_line : Bytes → Bytes → Bytes
send_line dest msg = codes "send" ++ (space ∷ (dest ++ (space ∷ msg)))

splitn_send :
    (dest msg : Bytes)
    → Lacks space dest
    → splitn 3 (send_line dest msg) ≡ codes "send" ∷ dest ∷ msg ∷ []
splitn_send dest msg h =
    splitn_word 1 (codes "send") (dest ++ (space ∷ msg)) (omega arith)
    ∙ ap (λ ps. codes "send" ∷ ps) (splitn_word 0 dest msg h ∙ unfold splitn in refl)

module _ (l : Links) (r : Mpsc Bytes) where
  -- What sending from the command line comes to.
  abbrev pub Sends : Bytes → Bytes → Session l r → Session l r × CommandResult → Type 0
  Sends dest msg s t =
      ((t.1 ≡ done)
        × (queued l t.0.client
            ≡ queued l s.client ++ item (Codec.frame (text_frame dest msg)) ∷ []))
      ⊎ ((t.1 ≡ error (codes "Send error: " ++ conn_error_text channel_closed))
          × (queued l t.0.client ≡ queued l s.client)
          × (t.0.app ≡ s.app))

  warn-client :
      (tui_mode : Bool) (now : ℕ) (text : Bytes) (s : Session l r)
      → (warn l r tui_mode now text s).client ≡ s.client
  unfolding warn
  warn-client true now text s = refl
  warn-client false now text s = refl

  warn_if-client :
      (b tui_mode : Bool) (now : ℕ) (text : Bytes) (s : Session l r)
      → (if b then warn l r tui_mode now text s else s).client ≡ s.client
  warn_if-client true tui_mode now text s = warn-client tui_mode now text s
  warn_if-client false tui_mode now text s = refl

  report_sent-client :
      (tui_mode : Bool) (now : ℕ) (dest msg : Bytes) (s : Session l r)
      → (report_sent l r tui_mode now dest msg s).client ≡ s.client
  unfolding report_sent
  report_sent-client true now dest msg s = warn_if-client _ true now (pattern_warning dest) s
  report_sent-client false now dest msg s = warn_if-client _ false now (pattern_warning dest) s

  send_command-Sends :
      (tui_mode : Bool) (now : ℕ) (dest msg : Bytes) (rest : List Bytes) (s : Session l r)
      → starts_with (codes "/") dest ≡ true
      → Sends dest msg s (send_command l r tui_mode now (dest ∷ msg ∷ rest) s)
  unfolding send_command send_frame enqueue
  send_command-Sends tui_mode now dest msg rest s h =
      let o : Outbound = item (Codec.frame (text_frame dest msg)) in
      let sent = l.outbound.send s.client.outbound o in
      elim (Bool-cases sent.1) [
        | inl accepted ↦
            let c : Client l = record s.client { outbound = sent.0 } in
            let t : Session l r = record s { client = c } in
            rw (h, accepted, send_command)
              (inl (
                refl,
                ap (queued l) (report_sent-client tui_mode now dest msg t)
                    ∙ l.outbound.send_true s.client.outbound o accepted,
              ))
        | inr rejected ↦
            rw (h, rejected, send_command)
              (inr (refl, l.outbound.send_false s.client.outbound o rejected, refl))
      ]

  execute_parts-send :
      (tui_mode : Bool) (w : Surroundings) (rest : List Bytes) (s : Session l r)
      → execute_parts l r tui_mode w (codes "send" ∷ rest) s
        ≡ send_command l r tui_mode w.now rest s
  unfolding execute_parts bytes_eq
  execute_parts-send tui_mode w rest s = refl

  execute_command-parts :
      (tui_mode : Bool) (w : Surroundings) (line : Bytes) (s : Session l r)
      → execute_command l r tui_mode w line s
        ≡ execute_parts l r tui_mode w (splitn 3 (trim line)) s
  unfolding execute_command
  execute_command-parts tui_mode w line s = refl

  execute_command-send_line :
      (tui_mode : Bool) (w : Surroundings) (dest msg : Bytes) (s : Session l r)
      → Lacks space dest
      → trim (send_line dest msg) ≡ send_line dest msg
      → execute_command l r tui_mode w (send_line dest msg) s
        ≡ send_command l r tui_mode w.now (dest ∷ msg ∷ []) s
  execute_command-send_line tui_mode w dest msg s k e =
      execute_command-parts tui_mode w (send_line dest msg) s
      ∙ ap (λ ps. execute_parts l r tui_mode w ps s) (ap (splitn 3) e ∙ splitn_send dest msg k)
      ∙ execute_parts-send tui_mode w (dest ∷ msg ∷ []) s

  -- A line that says `send`, a destination that starts with a slash and has no space, and a
  -- message, with no white space around it all, puts on the connection's queue exactly the SEND
  -- frame with that destination and the message as its body, spaces included. Only if the
  -- connection is gone it does not: then the user is told, and nothing is queued or recorded.
  pub execute_command-Sends :
      (tui_mode : Bool) (w : Surroundings) (dest msg : Bytes) (s : Session l r)
      → starts_with (codes "/") dest ≡ true
      → Lacks space dest
      → trim (send_line dest msg) ≡ send_line dest msg
      → Sends dest msg s (execute_command l r tui_mode w (send_line dest msg) s)
  execute_command-Sends tui_mode w dest msg s h k e =
      rw (execute_command-send_line tui_mode w dest msg s k e)
        (send_command-Sends tui_mode w.now dest msg [] s h)
