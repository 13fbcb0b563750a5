-- ===== src/Task/Recovery.antt =====
-- connection.rs: the outer loop of the task, from a lost connection to the next one.
use iridium_stomp.Base.{
  ℕ, suc, true, none, some, ◌+◌, ◌*◌, ◌≤◌, List, [], ◌∷◌, ◌≡◌, refl, ◌∙◌, ap, ap₂, arith, All, map,
  ◌++◌, length, ok, err,
}
use iridium_stomp.Base.Text.Utf8.{Bytes}
use iridium_stomp.Client.{Links}
use iridium_stomp.Codec.{frame}
use iridium_stomp.Handshake.{Attempt, attempt_result, next_backoff, agreed_intervals}
use iridium_stomp.Registry.{resubscribe_frames}
use iridium_stomp.ServerError.{ConnError}
use iridium_stomp.Task.{Task}
use iridium_stomp.Task.Lifecycle.{start_connection, on_attempt, end_connection}
use iridium_stomp.Task.Replaying.{Replays, sent, accepted, start_connection-Replays}
use iridium_stomp.Task.Steps.{
  Phase, connected, lost, reconnecting, phase_of_attempt, Step, lose, try,
}
use mathlib.Core.Path.{subst}

module _ (l : Links) (lowercase : Bytes → Bytes) where
  -- Any number of steps.
  pub data Steps : Phase → Task l → Phase → Task l → Type 0 where
    done : (p : Phase) (t : Task l) → Steps p t p t
    step :
        (p q r : Phase) (t u v : Task l) → Step l lowercase p t q u → Steps q u r v → Steps p t r v

  module _ (client_hb : Bytes) where
    -- The task after attempts to reconnect that come one after the other.
    abbrev pub after_attempts : List Attempt → Task l → Task l
    after_attempts [] t = t
    after_attempts (a ∷ more) t = after_attempts more (on_attempt l client_hb a t).0

    -- The seconds that it sleeps, each time before the back-off doubles.
    abbrev pub waited : List Attempt → Task l → ℕ
    waited [] t = 0
    waited (a ∷ more) t = t.backoff_secs + waited more (on_attempt l client_hb a t).0

    abbrev pub Fails : Attempt → Type 0
    Fails a = (e : ConnError) × (attempt_result a ≡ err e)

    -- A failing attempt only makes the next wait longer.
    abbrev backed_off : Task l → Task l
    backed_off t = record t { backoff_secs = next_backoff t.backoff_secs }

    on_attempt-Fails :
        (a : Attempt) (e : ConnError) (t : Task l)
        → attempt_result a ≡ err e
        → on_attempt l client_hb a t ≡ (backed_off t, none)
    unfolding on_attempt
    on_attempt-Fails a e t h = rw (h, on_attempt) refl

    failing-Step :
        (a : Attempt) (e : ConnError) (t : Task l)
        → attempt_result a ≡ err e
        → Step l lowercase reconnecting t reconnecting (on_attempt l client_hb a t).0
    unfolding phase_of_attempt
    failing-Step a e t h =
        subst
          (λ o. Step l lowercase reconnecting t (phase_of_attempt o) (on_attempt l client_hb a t).0)
          (ap (λ r. r.1) (on_attempt-Fails a e t h)) (try t client_hb a)

    chain-Steps :
        (fails : List Attempt) (u : Phase) (t v : Task l)
        → All Fails fails
        → Steps reconnecting (after_attempts fails t) u v
        → Steps reconnecting t u v
    chain-Steps [] u t v h rest = rest
    chain-Steps (a ∷ fails) u t v h rest =
        step reconnecting reconnecting u t (on_attempt l client_hb a t).0 v
          (failing-Step a h.0.0 t h.0.1)
          (chain-Steps fails u (on_attempt l client_hb a t).0 v h.1 rest)

    waited_le :
        (fails : List Attempt) (t : Task l)
        → t.backoff_secs ≤ 30
        → All Fails fails
        → waited fails t ≤ 30 * length fails
    waited_le [] t k h = omega arith
    waited_le (a ∷ fails) t k h =
        rw (on_attempt-Fails a h.0.0 t h.0.1)
          (omega (arith, waited_le fails (backed_off t) (omega arith) h.1))

    after_attempts-same :
        (fails : List Attempt) (t : Task l)
        → All Fails fails
        → ((after_attempts fails t).client ≡ t.client) × ((after_attempts fails t).sink ≡ t.sink)
    after_attempts-same [] t h = (refl, refl)
    after_attempts-same (a ∷ fails) t h =
        rw (on_attempt-Fails a h.0.0 t h.0.1, after_attempts)
          (after_attempts-same fails (backed_off t) h.1)

    on_attempt-ok :
        (a : Attempt) (server_hb : Bytes) (t : Task l)
        → attempt_result a ≡ ok server_hb
        → on_attempt l client_hb a t
          ≡ (start_connection l true t, some (agreed_intervals client_hb server_hb))
    unfolding on_attempt
    on_attempt-ok a server_hb t h = rw (h, on_attempt) refl

    success-Step :
        (a : Attempt) (server_hb : Bytes) (t : Task l)
        → attempt_result a ≡ ok server_hb
        → Step l lowercase reconnecting t connected (on_attempt l client_hb a t).0
    unfolding phase_of_attempt
    success-Step a server_hb t h =
        subst
          (λ o. Step l lowercase reconnecting t (phase_of_attempt o) (on_attempt l client_hb a t).0)
          (ap (λ r. r.1) (on_attempt-ok a server_hb t h)) (try t client_hb a)

    -- The task behind a lost connection and attempts that fail, and with the one that succeeds.
    abbrev pub recovered : ℕ → List Attempt → Attempt → Task l → Task l
    recovered stable_ms fails a t =
        (on_attempt l client_hb a (after_attempts fails (end_connection l stable_ms t))).0

    end_connection-backoff_le :
        (stable_ms : ℕ) (t : Task l) → (end_connection l stable_ms t).backoff_secs ≤ 30
    unfolding end_connection
    end_connection-backoff_le stable_ms t = ground arith

    recovered-Replays :
        (stable_ms : ℕ) (fails : List Attempt) (a : Attempt) (server_hb : Bytes) (t : Task l)
        → All Fails fails
        → attempt_result a ≡ ok server_hb
        → Replays l (resubscribe_frames t.client.subscriptions) t (recovered stable_ms fails a t)
    unfolding end_connection
    recovered-Replays stable_ms fails a server_hb t h good =
        let u = after_attempts fails (end_connection l stable_ms t) in
        let same = after_attempts-same fails (end_connection l stable_ms t) h in
        ap (λ r. sent l r.0) (on_attempt-ok a server_hb u good)
        ∙ ((start_connection-Replays l u).0
            ∙ ap₂
                (λ s c.
                  l.sink.sent s ++ accepted l s (map frame (resubscribe_frames c.subscriptions)))
                same.1 same.0)

    -- A lost connection is recovered. If nothing is called meanwhile, then once an attempt to
    -- reconnect succeeds, however many have failed before it, the task is back in the loop of a
    -- connection. It has then slept at most 30 seconds for the loss and 30 for each failed attempt,
    -- and what it has written since the loss is the SUBSCRIBE frames of the subscriptions that were
    -- registered, in their order, each unless the sink refuses it.
    pub recovered-Steps :
        (stable_ms : ℕ) (fails : List Attempt) (a : Attempt) (server_hb : Bytes) (t : Task l)
        → All Fails fails
        → attempt_result a ≡ ok server_hb
        → Steps lost t connected (recovered stable_ms fails a t)
          × ((end_connection l stable_ms t).backoff_secs
                + waited fails (end_connection l stable_ms t)
              ≤ 30 * suc (length fails))
          × Replays l (resubscribe_frames t.client.subscriptions) t (recovered stable_ms fails a t)
    recovered-Steps stable_ms fails a server_hb t h good =
        let u = end_connection l stable_ms t in
        let v = after_attempts fails u in
        let w = recovered stable_ms fails a t in
        (
          step lost reconnecting connected t u w (lose t stable_ms) (
              chain-Steps fails connected u w h (
                step reconnecting connected connected v w w (success-Step a server_hb v good)
                  (done connected w))),
          omega (
            arith,
            end_connection-backoff_le stable_ms t,
            waited_le fails u (end_connection-backoff_le stable_ms t) h,
          ),
          recovered-Replays stable_ms fails a server_hb t h good,
        )
