-- ===== src/Connector.antt =====
-- client/connector.go: the connection to the core server, its send queue, and the dialling loop.
-- The locks make each method one step; durations are nanoseconds.
pub mod Queue
pub mod Dialing
pub mod Writing
use tunnel_agent.Base.{
  ℕ, ◌*◌, ◌+◌, Bool, true, false, List, [], ◌∷◌, ◌++◌, Option, none, some, Bytes, codes, length,
  ltb, ℤ, negsuc, if◌then◌else◌,
}
use tunnel_agent.Errors.{GoError, not_connected, queue_full}
use tunnel_agent.Globals.{Globals, count, note_health}
use tunnel_agent.Health.{unhealthy}
use tunnel_agent.Metrics.{decrement_connections_active}
use tunnel_agent.Protocol.{Frame}

abbrev pub second : ℕ
second = 1_000_000_000

-- A connection is known by a number. `writers` are the write loops that run, each by the connection
-- that it writes to. `cancelled` is the state of the context. The three flags tell whether the
-- callbacks are set.
pub record Connector : Type 0 where
  pub server_addr : Bytes
  pub conn : Option ℕ
  pub connected : Bool
  pub send_ch : List Frame
  pub writers : List ℕ
  pub max_retries : ℤ
  pub retry_interval : ℕ
  pub backoff_factor : ℕ
  pub max_backoff : ℕ
  pub on_connected : Bool
  pub on_disconnected : Bool
  pub on_error : Bool
  pub cancelled : Bool

-- The capacity of `sendCh`.
abbrev pub send_capacity : ℕ
send_capacity = 100

unfoldable pub new_connector : Bytes → Connector
new_connector server_addr = record {
  server_addr = server_addr;
  conn = none;
  connected = false;
  send_ch = [];
  writers = [];
  max_retries = negsuc 0;
  retry_interval = 1 * second;
  backoff_factor = 2;
  max_backoff = 60 * second;
  on_connected = false;
  on_disconnected = false;
  on_error = false;
  cancelled = false;
}

abbrev pub set_max_retries : ℤ → Connector → Connector
set_max_retries max_retries c = record c { max_retries = max_retries }

abbrev pub set_retry_interval : ℕ → Connector → Connector
set_retry_interval interval c = record c { retry_interval = interval }

abbrev pub set_on_connected : Connector → Connector
set_on_connected c = record c { on_connected = true }

abbrev pub set_on_disconnected : Connector → Connector
set_on_disconnected c = record c { on_disconnected = true }

abbrev pub set_on_error : Connector → Connector
set_on_error c = record c { on_error = true }

-- The calls of the callbacks. onConnected and onDisconnected are called last in their function,
-- and onError only reports, so the model returns the calls for the caller to run.
pub data ConnectorCall : Type 0 where
  connected_call : ℕ → ConnectorCall
  disconnected_call : ConnectorCall
  error_call : GoError → ConnectorCall

pub record Outcome : Type 0 where
  pub connector : Connector
  pub globals : Globals
  pub calls : List ConnectorCall
  pub result : Option GoError

abbrev pub set_connection : ℕ → Connector → Connector
set_connection conn c = record c { conn = some conn; connected = true }

abbrev pub get_connection : Connector → Option ℕ × Bool
get_connection c = (c.conn, c.connected)

abbrev pub is_connected : Connector → Bool
is_connected c = c.connected

-- What `c.conn.Close()` returns is the argument `closing`.
unfoldable pub disconnect_from : Option ℕ → Option GoError → ℕ → Connector → Globals → Outcome
disconnect_from none closing now c g = record {
  connector = c;
  globals = g;
  calls = [];
  result = none;
}
disconnect_from (some _) closing now c g = record {
  connector = record c { conn = none; connected = false };
  globals =
      note_health (codes "connection") unhealthy (codes "Disconnected from server") now
        (count decrement_connections_active g);
  calls = if c.on_disconnected then disconnected_call ∷ [] else [];
  result = closing;
}

unfoldable pub disconnect : Option GoError → ℕ → Connector → Globals → Outcome
unfolding disconnect_from
disconnect closing now c g = disconnect_from c.conn closing now c g

unfoldable pub close : Option GoError → ℕ → Connector → Globals → Outcome
unfolding disconnect
close closing now c g = disconnect closing now (record c { cancelled = true }) g

-- The connector after the call, and the error.
unfoldable pub send_frame : Frame → Connector → Connector × Option GoError
send_frame frame c =
    if c.connected
    then (if ltb (length c.send_ch) send_capacity
        then (record c { send_ch = c.send_ch ++ frame ∷ [] }, none)
        else (c, some queue_full))
    else (c, some not_connected)
