-- ===== src/Examples/Control.antt =====
-- The agent's connection and the health checks on concrete data.
use tunnel_agent.Base.{suc, ◌≡◌, refl, true, [], ◌∷◌, Option, none, some, Bytes, string_eq, codes}
use tunnel_agent.Agent.{Agent, new_agent}
use tunnel_agent.Connector.{disconnect}
use tunnel_agent.Connector.Dialing.{reconnect, connect_with_retry, connect_loop, connect_round}
use tunnel_agent.Agent.Control.Handling.{Authenticates, control_handler-Authenticates}
use tunnel_agent.Heartbeat.Ticks.{Ticks, beat-Ticks}
use tunnel_agent.Agent.Control.{control_handler, reconnect_agent}
use tunnel_agent.Agent.Control.Deaf.{reconnect_agent_deaf}
use tunnel_agent.Dispatcher.{Host, read_loop}
use tunnel_agent.Examples.{
  demo, demo_json, frame, byte_net, connected_agent, answering_round, demo_agent,
}
use tunnel_agent.Health.{Check, degraded, register_check, get_overall_status}
use tunnel_agent.Health.Overall.{IsWorst, get_overall_status-IsWorst}

abbrev agent_host : Host Bytes Agent
agent_host = record {
  dispatcher = λ a. a.dispatcher;
  conn = λ a. some [];
  put_conn = λ w a. a;
  count = λ f a. a;
  control_handler = none;
  stream_handler = none;
  on_connection_closed = none;
  on_error = none;
}

abbrev reconnected : Option Agent
reconnected = reconnect_agent demo demo_json none 5 (answering_round ∷ []) connected_agent

abbrev or_demo : Option Agent → Agent
or_demo none = demo_agent
or_demo (some a) = a

reconnect_agent_deaf_example :
    read_loop demo byte_net agent_host (suc 3) (or_demo reconnected) ≡ (or_demo reconnected, true)
unfolding new_agent reconnect_agent reconnect connect_with_retry connect_loop connect_round
    disconnect
reconnect_agent_deaf_example =
    reconnect_agent_deaf demo demo_json byte_net agent_host (λ a. refl) none 5
      (answering_round ∷ []) connected_agent (or_demo reconnected) 1 3 refl refl refl

get_overall_status-IsWorst_example :
    IsWorst demo_agent.globals.health
      (get_overall_status demo_agent.globals.health)
      demo_agent.globals.health.checks
get_overall_status-IsWorst_example = get_overall_status-IsWorst demo_agent.globals.health

beat-Ticks_example : Ticks demo 4 connected_agent.connector connected_agent.globals
beat-Ticks_example = beat-Ticks demo 4 connected_agent.connector connected_agent.globals

-- The check of the connection as new_agent leaves it.
abbrev registered : Check
registered = record {
  name = codes "connection";
  status = degraded;
  message = codes "Not connected";
  last_check = 0;
}

control_handler-Authenticates_example :
    let r = control_handler demo demo_json none 4 (frame 1 2 0 []) connected_agent in
    Authenticates demo demo_json 4 (frame 1 2 0 []) registered connected_agent r.0 r.1
    × (r.0.connector ≡ connected_agent.connector)
unfolding new_agent register_check
control_handler-Authenticates_example =
    control_handler-Authenticates demo demo_json none 4 (frame 1 2 0 []) registered connected_agent
      refl refl
