-- ===== src/Task/Steps.antt =====
-- connection.rs: the background task's loop and the application's calls as the steps of one machine.
-- The calls and the branches of the `select!` interleave in any order; which outbound item is next,
-- what the broker sends and how long things take are the environment's choice.
use iridium_stomp.Base.{ℕ, Bool, List, [], Option, none, some}
use iridium_stomp.Base.Text.Utf8.{Bytes}
use iridium_stomp.Client.{
  Links, Client, Ending, send_frame, send_transaction_frame, send_frame_with_receipt, wait,
}
use iridium_stomp.Client.Acknowledging.{acknowledge}
use iridium_stomp.Client.Subscribing.{subscribe_with_capacity, unsubscribe, unsubscribe_best_effort}
use iridium_stomp.Frame.{Frame, Header}
use iridium_stomp.Handshake.{Incoming, Attempt, Intervals}
use iridium_stomp.Outbound.{Outbound}
use iridium_stomp.Subscription.{AckMode}
use iridium_stomp.Task.{Task, Flow, next, broken, panicked, Turn, on_outbound}
use iridium_stomp.Task.Errors.{on_client}
use iridium_stomp.Task.Lifecycle.{
  start_connection, on_attempt, on_incoming, on_capacity, on_tick, on_watchdog, end_connection,
  finish,
}

-- The calls that reach the shared state; the others are made of these.
pub data Call : Type 0 where
  sending : Frame → Call
  transaction : Bytes → Bytes → Call
  sending_with_receipt : Frame → Call
  waiting : Bytes → Ending → Call
  subscribing : Bytes → AckMode → List Header → ℕ → ℕ → Call
  unsubscribing : Bytes → Call
  dropping : Bool → Bool → Bytes → Call
  acknowledging : Bytes → Bytes → Bytes → Call

-- The branches of the loop's `select!`, but for the shutdown.
pub data Branch : Type 0 where
  outbound : Outbound → Branch
  incoming : Option Incoming → Branch
  capacity : Bytes → Branch
  tick : Option ℕ → ℕ → Branch
  watchdog : Option ℕ → ℕ → Branch

-- Where the task is: in the loop of a connection, behind it, between two attempts to reconnect,
-- ended, or dead of a panic.
pub data Phase : Type 0 where
  connected lost reconnecting ended crashed : Phase

unfoldable pub phase_after : Flow → Phase
phase_after next = connected
phase_after broken = lost
phase_after panicked = crashed

unfoldable pub phase_of_attempt : Option Intervals → Phase
phase_of_attempt none = reconnecting
phase_of_attempt (some i) = connected

module _ (l : Links) where
  unfoldable pub run_call : Call → Client l → Client l
  run_call (sending f) c = (send_frame l f c).0
  run_call (transaction command id) c = (send_transaction_frame l command id c).0
  run_call (sending_with_receipt f) c = (send_frame_with_receipt l f c).0
  run_call (waiting id ending) c = (wait l id ending c).0
  run_call (subscribing dest mode headers size limit) c =
      (subscribe_with_capacity l dest mode headers size limit c).0
  run_call (unsubscribing id) c = (unsubscribe l id c).0
  run_call (dropping registry_free pending_free id) c =
      unsubscribe_best_effort l registry_free pending_free id c
  run_call (acknowledging command sub id) c = (acknowledge l command sub id c).0

  unfoldable pub run_branch : (Bytes → Bytes) → Branch → Task l → Turn l
  run_branch lowercase (outbound o) t = on_outbound l o t
  run_branch lowercase (incoming i) t = on_incoming l lowercase i t
  run_branch lowercase (capacity id) t = on_capacity l id t
  run_branch lowercase (tick interval idle) t = on_tick l interval idle t
  run_branch lowercase (watchdog interval silence) t = on_watchdog l interval silence t

  -- The state after `connect_with_options`. The receipt counter is the process's.
  unfoldable pub connected_client : l.outbound.Sender → ℕ → Client l
  connected_client out receipts = record {
    outbound = out;
    subscriptions = [];
    ended = [];
    sub_id_counter = 1;
    pending = [];
    awaited = [];
    answers = [];
    receipt_counter = receipts;
    shutdown = Bool.false;
  }

  unfoldable pub spawn : Client l → l.frames.Sender → l.sink.Sender → Task l
  spawn c inbound sink = record {
    client = c;
    session = 0;
    subscription_errors = [];
    abandoned_sub_ids = [];
    overflowed_sub_ids = [];
    parked = [];
    inbound = inbound;
    sink = sink;
    backoff_secs = 1;
  }

  pub data Step (lowercase : Bytes → Bytes) : Phase → Task l → Phase → Task l → Type 0 where
    call : (p : Phase) (t : Task l) (c : Call) → Step lowercase p t p (on_client l (run_call c) t)
    turn :
        (t : Task l) (b : Branch)
        → Step lowercase connected t
            (phase_after (run_branch lowercase b t).1)
            (run_branch lowercase b t).0
    lose :
        (t : Task l) (stable_ms : ℕ)
        → Step lowercase lost t reconnecting (end_connection l stable_ms t)
    try :
        (t : Task l) (client_hb : Bytes) (a : Attempt)
        → Step lowercase reconnecting t
            (phase_of_attempt (on_attempt l client_hb a t).1)
            (on_attempt l client_hb a t).0
    shut_down : (p : Phase) (t : Task l) → Step lowercase p t ended (finish l t)

  -- What the task can come to from the connection that `connect` made.
  pub data Reachable (lowercase : Bytes → Bytes) : Phase → Task l → Type 0 where
    start :
        (out : l.outbound.Sender) (receipts : ℕ) (inbound : l.frames.Sender) (sink : l.sink.Sender)
        → Reachable lowercase connected
            (start_connection l Bool.false (spawn (connected_client out receipts) inbound sink))
    step :
        (p q : Phase) (t u : Task l)
        → Reachable lowercase p t
        → Step lowercase p t q u
        → Reachable lowercase q u
