-- ===== src/Agent/Control.antt =====
-- The control handler, the connection's callbacks and the shutdown of cmd/agent/main.go. The
-- callbacks of the connector stand last in its methods, so they run behind the call.
pub mod Deaf
pub mod Sound
pub mod Handling
pub mod Startup
pub mod Backlog
use tunnel_agent.Base.{ℕ, suc, List, [], ◌∷◌, Option, none, some, codes, ◌==◌, if◌then◌else◌}
use tunnel_agent.Agent.{Agent, note_check}
use tunnel_agent.Auth.{Authenticator, Json, create_auth_frame, handle_auth_response}
use tunnel_agent.Connector.{
  ConnectorCall, connected_call, disconnected_call, error_call, Outcome, send_frame, disconnect,
  close,
}
use tunnel_agent.Connector.Dialing.{Round, Dialed, dialed, dialing, reconnect}
use tunnel_agent.Dispatcher.{Dispatcher, start, stop}
use tunnel_agent.Errors.{GoError, Result, ok, err}
use tunnel_agent.Health.{healthy, unhealthy}
use tunnel_agent.Heartbeat
use tunnel_agent.Protocol.{Protocol, Frame}

-- dispatcher.SetConnection(conn)
abbrev pub set_connection : ℕ → Agent → Agent
set_connection conn a = record a { dispatcher_conn = some conn }

module _ (p : Protocol) (json : Json) where
  auth_sent : Result Frame → Agent → Agent
  auth_sent (err e) a = a
  auth_sent (ok frame) a = record a { connector = (send_frame frame a.connector).0 }

  dispatcher_started : Dispatcher × Option GoError → Agent → Agent
  unfolding auth_sent
  dispatcher_started (d, some e) a = record a { dispatcher = d }
  dispatcher_started (d, none) a =
      auth_sent (create_auth_frame p json a.authenticator) (record a { dispatcher = d })

  -- The three callbacks that main sets on the connector.
  unfoldable pub connector_call : ConnectorCall → Agent → Agent
  unfolding dispatcher_started
  connector_call (connected_call conn) a =
      dispatcher_started (start a.dispatcher) (set_connection conn a)
  connector_call disconnected_call a = record a { dispatcher = stop a.dispatcher }
  connector_call (error_call e) a = a

  unfoldable pub connector_calls : List ConnectorCall → Agent → Agent
  connector_calls [] a = a
  connector_calls (c ∷ cs) a = connector_calls cs (connector_call c a)

  -- The state behind a method of the connector, its callbacks run.
  abbrev pub after_outcome : Outcome → Agent → Agent
  after_outcome o a =
      connector_calls o.calls (record a { connector = o.connector; globals = o.globals })

  auth_handled : ℕ → Authenticator × Option GoError → Agent → Agent × Option GoError
  auth_handled now (auth, some e) a = (
    record a {
      authenticator = auth;
      globals =
          note_check a.connection_check unhealthy (codes "Authentication failed") now a.globals;
    },
    some e,
  )
  auth_handled now (auth, none) a = (
    record a {
      authenticator = auth;
      globals = note_check a.connection_check healthy (codes "Authenticated") now a.globals;
      heartbeat = (Heartbeat.start a.heartbeat).0;
    },
    none,
  )

  -- The handler of control frames; `closing` is what closing the connection returns.
  unfoldable pub control_handler : Option GoError → ℕ → Frame → Agent → Agent × Option GoError
  unfolding auth_handled
  control_handler closing now frame a =
      if frame.type == p.frame_auth
      then auth_handled now (handle_auth_response p json frame a.authenticator) a
      else if frame.type == p.frame_heartbeat
      then (a, none)
      else if frame.type == p.frame_close
      then (let g =
            note_check a.connection_check unhealthy (codes "Server requested close") now
              a.globals in
          (after_outcome (disconnect closing now a.connector g) (record a { globals = g }), none))
      else (a, none)

  -- The callbacks onConnectionClosed and onError of the dispatcher: go connector.Reconnect()
  abbrev pub reconnect_started : Agent → Agent
  reconnect_started a = record a { reconnects = suc a.reconnects }

  reconnect_ended : Dialed → Agent → Option Agent
  reconnect_ended (dialed o waits) a = some (after_outcome o a)
  reconnect_ended (dialing l) a = none

  -- A whole Reconnect of the agent over the rounds of its dialling; `none` if they are too few.
  unfoldable pub reconnect_agent : Option GoError → ℕ → List Round → Agent → Option Agent
  unfolding reconnect_ended
  reconnect_agent closing now rs a =
      reconnect_ended (reconnect closing now rs a.connector a.globals) a

  abbrev pub close_frame : Frame
  close_frame = record {
    version = p.version;
    type = p.frame_close;
    flags = p.flag_none;
    stream_id = p.stream_id_control;
    array = none;
    payload = [];
  }

  -- What main does once it has got the signal. The write loop may run before `closing`.
  unfoldable pub shutdown : Option GoError → ℕ → Agent → Agent
  shutdown closing now a =
      let sent : Agent = record a { connector = (send_frame close_frame a.connector).0 } in
      let stopped : Agent = record sent {
        heartbeat = Heartbeat.stop a.heartbeat;
        dispatcher = stop a.dispatcher;
      } in
      after_outcome (close closing now stopped.connector stopped.globals) stopped
