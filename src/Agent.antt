-- ===== src/Agent.antt =====
-- cmd/agent/main.go: the parts of the agent on one state, and the callbacks that join them.
pub mod Streams
pub mod Control
pub mod Forwarding
pub mod Runs
pub mod Network
use tunnel_agent.Base.{ℕ, ◌*◌, List, [], ◌∷◌, Option, none, Bytes, codes, ◌==◌, if◌then◌else◌}
use tunnel_agent.Auth.{Authenticator}
use tunnel_agent.Connector.{
  Connector, second, new_connector, set_retry_interval, set_on_connected, set_on_disconnected,
  set_on_error,
}
use tunnel_agent.Dispatcher.{Dispatcher, new_dispatcher}
use tunnel_agent.Globals.{Globals, count}
use tunnel_agent.Health.{
  HealthStatus, healthy, degraded, HealthChecker, no_checks, register_check, update_check,
}
use tunnel_agent.Heartbeat.{Heartbeat, new_heartbeat}
use tunnel_agent.Metrics.{
  increment_streams_total, increment_streams_active, decrement_streams_active,
  increment_streams_completed, get_snapshot, zero_metrics,
}
use tunnel_agent.Stream.{
  StreamManager, StreamCall, created_call, closed_call, new_stream_manager, set_on_stream_created,
  set_on_stream_closed,
}

-- A goroutine that forwards the request of a stream: the id, the pointer and the first payload.
pub record Forward : Type 0 where
  pub stream_id : ℕ
  pub stream : ℕ
  pub payload : Bytes

-- `forwards` are the goroutines that run, and `reconnects` counts those that call Reconnect. The
-- checks are the pointers that RegisterCheck gave.
pub record Agent : Type 0 where
  pub connector : Connector
  pub dispatcher : Dispatcher
  pub dispatcher_conn : Option ℕ
  pub streams : StreamManager
  pub authenticator : Authenticator
  pub heartbeat : Heartbeat
  pub globals : Globals
  pub forwards : List Forward
  pub reconnects : ℕ
  pub connection_check : ℕ
  pub stream_check : ℕ
  pub local_service_check : ℕ

-- check.UpdateCheck(status, message) on one of the agent's pointers
abbrev pub note_check : ℕ → HealthStatus → Bytes → ℕ → Globals → Globals
note_check check status message now g = record g {
  health = update_check check status message now g.health;
}

-- The callbacks that main sets on the stream manager.
unfoldable pub stream_callback : ℕ → ℕ → StreamCall → Globals → Globals
stream_callback check now (created_call stream_id) g =
    note_check check healthy (codes "Streams active") now
      (count increment_streams_active (count increment_streams_total g))
stream_callback check now (closed_call stream_id) g =
    let g' = count increment_streams_completed (count decrement_streams_active g) in
    if (get_snapshot g'.metrics).streams_active == 0
    then note_check check healthy (codes "No active streams") now g'
    else g'

unfoldable pub stream_callbacks : ℕ → ℕ → List StreamCall → Globals → Globals
stream_callbacks check now [] g = g
stream_callbacks check now (c ∷ cs) g =
    stream_callbacks check now cs (stream_callback check now c g)

-- The health checks that main registers, with their pointers.
unfoldable pub initial_checks : ℕ → HealthChecker × ℕ × ℕ × ℕ
unfolding register_check update_check
initial_checks now =
    let (h₁, connection) = register_check (codes "connection") now no_checks in
    let h₂ = update_check connection degraded (codes "Not connected") now h₁ in
    let (h₃, streams) = register_check (codes "streams") now h₂ in
    let h₄ = update_check streams healthy (codes "No active streams") now h₃ in
    let (h₅, local) = register_check (codes "local_service") now h₄ in
    (
      update_check local healthy (codes "Local service available") now h₅,
      connection,
      streams,
      local,
    )

-- The agent before it connects: every part made, every callback set.
unfoldable pub new_agent : Bytes → ℕ → Authenticator → ℕ → Agent
unfolding initial_checks new_connector new_dispatcher new_stream_manager set_on_stream_created
    set_on_stream_closed new_heartbeat
new_agent server_addr heartbeat_interval authenticator now =
    let (health, connection, streams, local) = initial_checks now in
    record {
      connector = set_on_error (
          set_on_disconnected
            (set_on_connected (set_retry_interval (1 * second) (new_connector server_addr))));
      dispatcher = new_dispatcher;
      dispatcher_conn = none;
      streams = set_on_stream_closed (set_on_stream_created new_stream_manager);
      authenticator = authenticator;
      heartbeat = new_heartbeat heartbeat_interval;
      globals = record { metrics = zero_metrics; health = health };
      forwards = [];
      reconnects = 0;
      connection_check = connection;
      stream_check = streams;
      local_service_check = local;
    }
