-- ===== src/Connector/Dialing.antt =====
-- connectWithRetry and Reconnect of client/connector.go. What the network and the clock do in each
-- round of the loop is an argument, so the loop runs over a list of rounds; every number below
-- 2 ^ 53 is exact in the float64 products of the source, whose factors are 2 and 1.5.
pub mod Backoff
pub mod Attempts
pub mod Reconnecting
pub mod Counters
pub mod Callbacks
use tunnel_agent.Base.{
  ℕ, zero, suc, ◌+◌, ◌*◌, ◌/◌, Bool, true, false, ◌&&◌, List, [], ◌∷◌, ◌++◌, Option, none, some,
  codes, ltb, leb, ℤ, pos, negsuc, decimal, signed_decimal, if◌then◌else◌,
}
use tunnel_agent.Connector.{
  Connector, ConnectorCall, connected_call, error_call, Outcome, set_connection, disconnect,
}
use tunnel_agent.Errors.{GoError, context_canceled, wrapped, Result, ok, err}
use tunnel_agent.Globals.{Globals, count, note_health}
use tunnel_agent.Health.{healthy}
use tunnel_agent.Metrics.{
  increment_connections_total, increment_connections_active, set_last_connection_time,
  increment_reconnections_total, increment_reconnection_errors,
}

-- One round: whether the context was done at its start, what the dial gave, whether the context
-- ended the wait, and the time of the dial.
pub record Round : Type 0 where
  pub done_before : Bool
  pub dial : Result ℕ
  pub done_waiting : Bool
  pub now : ℕ

-- The variables of the loop, and what it has done: the waits that it began, and its callbacks.
pub record Loop : Type 0 where
  pub backoff : ℕ
  pub retries : ℕ
  pub consecutive_errors : ℕ
  pub waits : List ℕ
  pub calls : List ConnectorCall

abbrev pub max_consecutive_errors : ℕ
max_consecutive_errors = 5

abbrev pub cap_at : ℕ → ℕ → ℕ
cap_at limit backoff = if ltb limit backoff then limit else backoff

-- After five failures in a row the wait grows by three halves of the factor, up to twice the cap.
unfoldable pub aggressive : Connector → ℕ → ℕ → ℕ
aggressive c errors backoff =
    if leb max_consecutive_errors errors
    then cap_at (c.max_backoff * 2) (backoff * c.backoff_factor * 3 / 2)
    else backoff

unfoldable pub next_backoff : Connector → ℕ → ℕ
next_backoff c backoff = cap_at c.max_backoff (backoff * c.backoff_factor)

-- c.maxRetries > 0 && retries >= c.maxRetries
abbrev pub exhausted : ℤ → ℕ → Bool
exhausted (pos n) retries = ltb 0 n && leb n retries
exhausted (negsuc n) retries = false

abbrev pub failure_report : Connector → ℕ → GoError → GoError
failure_report c retries e =
    wrapped
      (codes "connection failed (retry "
        ++ (decimal (retries + 1) ++ (codes "/" ++ (signed_decimal c.max_retries ++ codes ")"))))
      e

abbrev pub give_up : ℕ → GoError → GoError
give_up retries e =
    wrapped (codes "max retries exceeded after " ++ (decimal retries ++ codes " attempts")) e

-- `dialing` when the rounds are over and the loop goes on.
pub data Dialed : Type 0 where
  dialed : Outcome → List ℕ → Dialed
  dialing : Loop → Dialed

abbrev pub stopped : Connector → Globals → Loop → Option GoError → Dialed
stopped c g l result =
    dialed (record { connector = c; globals = g; calls = l.calls; result = result }) l.waits

-- go c.writeLoop(conn, c.ctx)
abbrev pub start_writer : ℕ → Connector → Connector
start_writer conn c = record c { writers = c.writers ++ conn ∷ [] }

-- The branch of a successful dial.
abbrev pub established : ℕ → ℕ → Connector → Globals → Loop → Dialed
established conn now c g l =
    stopped (start_writer conn (set_connection conn c))
      (note_health (codes "connection") healthy (codes "Connected to server") now (
        count (set_last_connection_time now)
          (count increment_connections_active (count increment_connections_total g))))
      (record l { calls = l.calls ++ (if c.on_connected then connected_call conn ∷ [] else []) })
      none

-- The loop variables after a failed dial, up to the wait.
abbrev pub failed : Connector → GoError → Loop → Loop
failed c e l = record l {
  backoff = aggressive c (l.consecutive_errors + 1) l.backoff;
  consecutive_errors = l.consecutive_errors + 1;
  calls = l.calls ++ (if c.on_error then error_call (failure_report c l.retries e) ∷ [] else []);
}

-- The wait has begun, and has run out.
abbrev pub waiting : Loop → Loop
waiting l = record l { retries = l.retries + 1; waits = l.waits ++ l.backoff ∷ [] }

abbrev pub waited : Connector → Loop → Loop
waited c l = record (waiting l) { backoff = next_backoff c l.backoff }

-- What one round makes of the loop: it ends, or goes on with new variables.
pub data Turn : Type 0 where
  ends : Dialed → Turn
  goes_on : Loop → Turn

dial_result : Result ℕ → Round → Connector → Globals → Loop → Turn
dial_result (ok conn) r c g l = ends (established conn r.now c g l)
dial_result (err e) r c g l =
    let after = failed c e l in
    if exhausted c.max_retries after.retries
    then ends (stopped c g after (some (give_up after.retries e)))
    else if r.done_waiting
    then ends (stopped c g (waiting after) (some context_canceled))
    else goes_on (waited c after)

unfoldable pub connect_round : Round → Connector → Globals → Loop → Turn
unfolding dial_result
connect_round r c g l =
    if r.done_before
    then ends (stopped c g l (some context_canceled))
    else dial_result r.dial r c g l

unfoldable pub connect_loop : List Round → Connector → Globals → Loop → Dialed
connect_loop [] c g l = dialing l
connect_loop (r ∷ rs) c g l = elim (connect_round r c g l) [
  | ends d ↦ d
  | goes_on l' ↦ connect_loop rs c g l'
]

abbrev pub start_loop : Connector → Loop
start_loop c = record {
  backoff = c.retry_interval;
  retries = 0;
  consecutive_errors = 0;
  waits = [];
  calls = [];
}

unfoldable pub connect_with_retry : List Round → Connector → Globals → Dialed
connect_with_retry rs c g = connect_loop rs c g (start_loop c)

-- Connect()
abbrev pub connect : List Round → Connector → Globals → Dialed
connect = connect_with_retry

count_failure : Option GoError → Globals → Globals
count_failure none g = g
count_failure (some _) g = count increment_reconnection_errors g

reconnected : List ConnectorCall → Dialed → Dialed
reconnected before (dialed o waits) =
    dialed (record o { globals = count_failure o.result o.globals; calls = before ++ o.calls })
      waits
reconnected before (dialing l) = dialing (record l { calls = before ++ l.calls })

unfoldable pub reconnect : Option GoError → ℕ → List Round → Connector → Globals → Dialed
unfolding reconnected count_failure
reconnect closing now rs c g =
    let cut = disconnect closing now c (count increment_reconnections_total g) in
    reconnected cut.calls (connect_with_retry rs cut.connector cut.globals)
