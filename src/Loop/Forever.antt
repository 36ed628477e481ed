-- ===== src/Loop/Forever.antt =====
-- `mosquitto_loop_forever` of mosquitto/lib/mosquitto.c, as a run over the answers that the calls of
-- `mosquitto_loop` and the attempts to reconnect meet; no other thread calls the client.
use moscapsule.Prelude.{ℕ, Bool, true, false, List, [], ◌∷◌, if◌then◌else◌, ◌||◌, not}
use moscapsule.Types.{Rc, success, connect_async, Errno, proto}
use moscapsule.Outcome.{ok, err, crash}
use moscapsule.Conn.{Env}
use moscapsule.Client.{Mosquitto, with_conn}
use moscapsule.Connect.{reconnect}
use moscapsule.Loop.{is_disconnecting, is_fatal, reconnect_step}
use moscapsule.Loop.Polling.{Selected, loop}

-- A round: what select answers, and the world after the call, or after the sleep before an attempt.
pub record Round : Type 0 where
  pub selected : Selected
  pub env : Env

-- How far the run has come: it has returned, it goes on, or the process has stopped.
pub data Run : Type 0 where
  returned : Rc → Mosquitto → Run
  running : Mosquitto → Run
  crashed : Run

-- The inner loop over `mosquitto_loop`, and the inner loop over the attempts to reconnect.
pub data Stage : Type 0 where
  looping reconnecting : Stage

abbrev pub is_proto : Errno → Bool
is_proto proto = true
is_proto _ = false

-- `mosq->state == mosq_cs_disconnecting || !mosq->reconnect_enabled`
abbrev pub is_over_now : Mosquitto → Bool
is_over_now m = is_disconnecting m.conn.state || not m.reconnect_enabled

abbrev pub in_env : Env → Mosquitto → Mosquitto
in_env env m = with_conn (record (m.conn) { env = env }) m

-- `run = 0`, or else another attempt.
abbrev pub unless_over : Run → Mosquitto → Run
unless_over again n = if is_over_now n then returned success n else again

-- Quit after fatal errors, or else go on to reconnect.
abbrev pub unless_fatal : Rc → Run → Mosquitto → Run
unless_fatal rc again n =
    if is_fatal rc || is_proto n.err_no then returned rc n else unless_over again n

module _ (max_packets : ℕ) where
  -- The `while(run)`, with `reconnects`.
  unfoldable pub run_rounds : List Round → Stage → ℕ → Mosquitto → Run
  run_rounds [] stage reconnects m = running m
  run_rounds (round ∷ rest) looping reconnects m = elim (loop max_packets round.selected m) [
    | ok _ n ↦ run_rounds rest looping 0 (in_env round.env n)
    | err rc n ↦ unless_fatal rc (run_rounds rest reconnecting reconnects n) n
    | crash ↦ crashed
  ]
  run_rounds (round ∷ rest) reconnecting reconnects m = elim (reconnect true (in_env round.env m)) [
    | ok _ n ↦ run_rounds rest looping (reconnect_step m reconnects).1 n
    | err rc n ↦ unless_over (run_rounds rest reconnecting (reconnect_step m reconnects).1 n) n
    | crash ↦ crashed
  ]

  -- `mosquitto_loop_forever`; what the first attempt returns is ignored.
  unfoldable pub loop_forever : List Round → Mosquitto → Run
  unfolding run_rounds
  loop_forever rounds m = elim m.conn.state [
    | connect_async ↦ elim (reconnect true m) [
      | ok _ n ↦ run_rounds rounds looping 0 n
      | err _ n ↦ run_rounds rounds looping 0 n
      | crash ↦ crashed
    ]
    | _ ↦ run_rounds rounds looping 0 m
  ]
