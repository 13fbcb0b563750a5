-- ===== src/Cli/Plain/Quitting.antt =====
-- The plain client from its start to its end.
use iridium_stomp.Base.{
  ℕ, ◌+◌, Bool, true, false, ◌≡◌, refl, ◌∙◌, ap, ◌⊎◌, inl, inr, List, [], ◌∷◌, ◌++◌, Option, none,
  arith, is_some, ◌||◌, some, if◌then◌else◌, Bool-cases, Result-cases, Result, ok, err,
}
use iridium_stomp.Base.Text.Utf8.{Bytes, codes}
use iridium_stomp.Channel.{Mpsc}
use iridium_stomp.Cli.Commands.{Session, Surroundings, print, help_text, execute_command}
use iridium_stomp.Cli.Commands.Quitting.{
  quits, CommandResult-cases, execute_command-ends, execute_command-quit,
}
use iridium_stomp.Cli.Plain.{ErrorKind, on_line, subscribe_destination}
use iridium_stomp.Cli.Plain.Loop.{Event, typed, task, on_task, command_loop, run}
use iridium_stomp.Cli.Startup.{Args, Farewell, subscribe_all, new_session, close_session}
use iridium_stomp.Cli.Summary.{generate_summary}
use iridium_stomp.Cli.Tasks.{Failure, protocol_error, register_destination}
use iridium_stomp.Client.{Links, Client}
use iridium_stomp.Client.Confirming.{close}
use iridium_stomp.Client.Subscribing.{subscribe}
use iridium_stomp.Subscription.{auto}

module _ (l : Links) where
  -- A line that quits, with the world around it.
  abbrev pub Leave : Type 0
  Leave = Surroundings × Farewell l

  -- The events before the first line that quits, and that line.
  abbrev pub first_leave : List (Event l) → List (Event l) × Option Leave
  first_leave [] = ([], none)
  first_leave (task e ∷ es) = let (before, leave) = first_leave es in (task e ∷ before, leave)
  first_leave (typed w farewell line ∷ es) =
      let (before, leave) = first_leave es in
      if quits line then ([], some (w, farewell)) else (typed w farewell line ∷ before, leave)

  module _ (r : Mpsc Bytes) (summary : Bool) where
    -- Each event on its own.
    abbrev pub after : List (Event l) → Session l r → Session l r
    after [] s = s
    after (task e ∷ es) s = after es (on_task l r e s)
    after (typed w farewell line ∷ es) s = after es (on_line l r summary w line s).0

    -- What is printed on leaving.
    abbrev pub goodbye : Surroundings → Session l r → Session l r
    goodbye w s =
        let told = print l r (codes "Disconnecting..." ∷ []) s in
        if summary then print l r (generate_summary w.formats w.now told.app ∷ []) told else told

    abbrev pub leaving : Option Leave → Session l r → Session l r × Bool
    leaving none s = (s, false)
    leaving (some (w, farewell)) s = (close_session l r farewell (goodbye w s), true)

    on_line-stays :
        (w : Surroundings) (line : Bytes) (s : Session l r)
        → quits line ≡ false
        → (on_line l r summary w line s).1 ≡ false
    unfolding on_line
    on_line-stays w line s h =
        let x = execute_command l r false w line s in
        let stays = execute_command-ends l r false w line s ∙ h in
        elim (CommandResult-cases x.1) [
          | inl e ↦ rw (e, on_line) refl
          | inr (inl e) ↦ ground (arith, e, stays)
          | inr (inr (inl (t, e))) ↦ rw (e, on_line) refl
          | inr (inr (inr (t, e))) ↦ rw (e, on_line) refl
        ]

    on_line-leaves :
        (w : Surroundings) (line : Bytes) (s : Session l r)
        → quits line ≡ true
        → on_line l r summary w line s ≡ (goodbye w s, true)
    unfolding on_line
    on_line-leaves w line s h =
        let e = execute_command-quit l r false w line s h in
        rw (ap (λ p. p.1) e, ap (λ p. p.0) e, on_line) refl

    command_loop-leaving :
        (es : List (Event l)) (s : Session l r)
        → command_loop l r summary es s ≡ leaving (first_leave es).1 (after (first_leave es).0 s)
    unfolding command_loop
    command_loop-leaving [] s = refl
    command_loop-leaving (task e ∷ es) s = command_loop-leaving es (on_task l r e s)
    command_loop-leaving (typed w farewell line ∷ es) s = elim (Bool-cases (quits line)) [
      | inl q ↦ rw (q, on_line-leaves w line s q) refl
      | inr q ↦
          rw (q, on_line-stays w line s q)
            (command_loop-leaving es (on_line l r summary w line s).0)
    ]

    close_session-shutdown :
        (f : Farewell l) (s : Session l r) → (close_session l r f s).client.shutdown ≡ true
    unfolding close_session
    close_session-shutdown f s = elim (Result-cases (close l f.meanwhile f.ending s.client).1) [
      | inl (u, e) ↦ rw (e, close_session) refl
      | inr (x, e) ↦ rw (e, close_session) refl
    ]

    leaving-shutdown :
        (q : Option Leave) (s : Session l r)
        → (leaving q s).0.client.shutdown ≡ is_some q || s.client.shutdown
    leaving-shutdown none s = refl
    leaving-shutdown (some (w, f)) s = close_session-shutdown f (goodbye w s)

  module _ (r : Mpsc Bytes) where
    -- Without an error, or with the exit code for a protocol error.
    abbrev Subscribes : Session l r × Result {0, 0} (Unit {0}) Failure → Type 0
    Subscribes t = (t.1 ≡ ok tt) ⊎ ((text : Bytes) × (t.1 ≡ err (text, protocol_error)))

    subscribe_destination-Subscribes :
        (dest : Bytes) (s : Session l r) → Subscribes (subscribe_destination l r dest s)
    unfolding subscribe_destination register_destination
    subscribe_destination-Subscribes dest s =
        elim (Result-cases (subscribe l dest auto s.client).1) [
          | inl (h, e) ↦ rw (e, subscribe_destination, register_destination) (inl refl)
          | inr (x, e) ↦ rw (e, subscribe_destination, register_destination) (inr (_, refl))
        ]

    subscribe_all-Subscribes :
        (meanwhile : ℕ → Client l → Client l) (n : ℕ) (dests : List Bytes) (s : Session l r)
        → Subscribes (subscribe_all l r (subscribe_destination l r) meanwhile n dests s)
    unfolding subscribe_all
    subscribe_all-Subscribes meanwhile n [] s = inl refl
    subscribe_all-Subscribes meanwhile n (dest ∷ dests) s =
        let t : Session l r = record s { client = meanwhile n s.client } in
        elim (subscribe_destination-Subscribes dest t) [
          | inl e ↦
              rw (e, subscribe_all)
                (subscribe_all-Subscribes meanwhile (n + 1) dests
                  (subscribe_destination l r dest t).0)
          | inr (text, e) ↦ rw (e, subscribe_all) (inr (text, refl))
        ]

    module _ (kind_of : Bytes → ErrorKind) (now : ℕ) (args : Args)
        (meanwhile : ℕ → Client l → Client l) where
      abbrev pub connected_session : Client l → Session l r
      connected_session c =
          new_session l r now args c
            ((codes "Connecting to " ++ (args.address ++ codes "...")) ∷ codes "Connected." ∷ [])

      -- The client once it has asked for the destinations of the command line.
      abbrev pub opened : Client l → Session l r × Result {0, 0} (Unit {0}) Failure
      opened c =
          subscribe_all l r (subscribe_destination l r) meanwhile 0 args.subscribe
            (connected_session c)

      -- The session before the first line that quits.
      abbrev pub until_leave : List (Event l) → Client l → Session l r
      until_leave es c =
          after r args.summary (first_leave es).0
            (print l r ([] ∷ help_text ++ [] ∷ []) (opened c).0)

      -- The session when the loop is over.
      abbrev pub over : List (Event l) → Client l → Session l r
      over es c = (leaving r args.summary (first_leave es).1 (until_leave es c)).0

      abbrev pub Runs : List (Event l) → Client l → Result (Session l r) Failure → Type 0
      Runs es c result =
          ((result ≡ ok (over es c))
            × ((over es c).client.shutdown
                ≡ is_some (first_leave es).1 || (until_leave es c).client.shutdown))
          ⊎ ((text : Bytes) × ((opened c).1 ≡ err (text, protocol_error))
              × (result ≡ err (text, protocol_error)))

      -- A plain session on a connected client first asks for the destinations of the command line.
      -- If one of them cannot be queued, it fails with the exit code for a protocol error, and no
      -- line is executed. Otherwise it succeeds, and comes to this: all events up to the first line
      -- whose first word is `quit`, `exit` or `q` are handled one by one, and nothing behind it,
      -- whatever the state is; that line does nothing but say goodbye and close the connection,
      -- and the task is told to shut down even if the broker does not confirm the close.
      pub run-Runs :
          (es : List (Event l)) (c : Client l)
          → Runs es c (run l r kind_of now args (ok c) meanwhile es)
      unfolding run
      run-Runs es c =
          elim (subscribe_all-Subscribes meanwhile 0 args.subscribe (connected_session c)) [
            | inl e ↦ inl (
              rw (e, run)
                  (ap (λ p. ok p.0)
                    (command_loop-leaving r args.summary es
                      (print l r ([] ∷ help_text ++ [] ∷ []) (opened c).0))),
              leaving-shutdown r args.summary (first_leave es).1 (until_leave es c),
            )
            | inr (text, e) ↦ inr (text, e, rw (e, run) refl)
          ]
