-- ===== src/Examples/Startup.antt =====
-- The settings on concrete environments and texts.
use tunnel_agent.Base.{
  ◌≡◌, refl, true, false, arith, length, List, [], ◌∷◌, Option, none, some, Bytes, codes, bytes_eq,
  ℤ, pos, if◌then◌else◌,
}
use tunnel_agent.Agent.{Agent, new_agent}
use tunnel_agent.Agent.Control.{reconnect_agent}
use tunnel_agent.Agent.Control.Backlog.{reconnect_agent_backlog}
use tunnel_agent.Agent.Control.Startup.{start_agent, runs, IsOnline, start_agent-IsOnline}
use tunnel_agent.Agent.Streams.Accounting.{IsSound}
use tunnel_agent.Auth.{create_auth_frame}
use tunnel_agent.Connector.Dialing.{Round}
use tunnel_agent.Errors.{ok, err, foreign}
use tunnel_agent.Examples.{demo, demo_json, demo_auth, answering_round, frame, connected_agent}
use tunnel_agent.Protocol.{Frame}
use tunnel_agent.Forwarder.{new_local_forwarder}
use tunnel_agent.Services.Remote.{
  ConfigClient, Fetches, config_url, fetch_remote_config, fetch_remote_config-Fetches,
}
use tunnel_agent.Heartbeat.{new_heartbeat, start, ticker_made}
use tunnel_agent.Logger.{
  Level, level_debug, level_info, level_warn, level_error, Logging, init_logger, level_of,
  get_logger, log_with, severity, debug, info, error,
}
use tunnel_agent.Logger.Printing.{log_call, log_calls, printed_of}
use tunnel_agent.Settings.{
  default_settings, override, start_settings, parse_int, magnitude, digits_value,
}
use tunnel_agent.Settings.Environment.{start_settings-variables}

-- The variables that the README sets.
abbrev readme_environment : Bytes → Bytes
readme_environment name =
    if bytes_eq name (codes "TUNNEL_SERVER")
    then codes "core.example.com:8443"
    else if bytes_eq name (codes "TUNNEL_TOKEN")
    then codes "your-token"
    else []

abbrev empty_environment : Bytes → Bytes
empty_environment name = []

abbrev no_durations : Bytes → Option ℤ
no_durations text = none

readme_variables_ignored :
    start_settings no_durations readme_environment default_settings
    ≡ start_settings no_durations empty_environment default_settings
unfolding bytes_eq
readme_variables_ignored =
    start_settings-variables no_durations readme_environment empty_environment default_settings (
      refl,
      (
        refl,
        (refl, (refl, (refl, (refl, (refl, (refl, (refl, (refl, (refl, (refl, (refl, tt))))))))))),
      ),
    )

without_token : start_settings no_durations empty_environment default_settings ≡ none
unfolding start_settings override default_settings bytes_eq
without_token = refl

-- `TLS=1` turns TLS off.
abbrev numeric_flag : Bytes → Bytes
numeric_flag name = if bytes_eq name (codes "TLS") then codes "1" else []

plain_connection : (override no_durations numeric_flag default_settings).use_tls ≡ false
unfolding override default_settings bytes_eq
plain_connection = refl

too_large : parse_int (codes "9223372036854775808") ≡ none
unfolding parse_int magnitude digits_value
too_large = refl

zeros_and_signs :
    (parse_int (codes "+007") ≡ some (pos 7))
    × (parse_int (codes "-0") ≡ some (pos 0))
    × (parse_int (codes "-") ≡ none)
    × (parse_int (codes "1_000") ≡ none)
unfolding parse_int magnitude digits_value
zeros_and_signs = (refl, refl, refl, refl)

-- A management API that maps a subdomain twice.
abbrev mapping_client : ConfigClient
mapping_client = record {
  valid_url = λ url. true;
  do_request = λ url token. ok (200, codes "{}");
  decode = λ body. ok ((codes "a", codes "http://x") ∷ (codes "a", codes "http://y") ∷ []);
}

fetch_remote_config-Fetches_example :
    Fetches mapping_client
      (config_url (codes "http://localhost:9000"))
      (codes "t")
      (new_local_forwarder [] 30)
      (fetch_remote_config mapping_client
        (codes "http://localhost:9000")
        (codes "t")
        (new_local_forwarder [] 30))
fetch_remote_config-Fetches_example =
    fetch_remote_config-Fetches mapping_client (codes "http://localhost:9000") (codes "t")
      (new_local_forwarder [] 30)

-- A logger at `warn`, and one that nobody has set up.
abbrev silent : Logging
silent = record { default_logger = none; output = [] }

abbrev messages : List (Level × Bytes)
messages = (level_info, codes "a") ∷ (level_error, codes "b") ∷ (level_debug, codes "c") ∷ []

printed_messages :
    ((log_calls messages (init_logger (codes "warn") true silent)).output
      ≡ printed_of (level_warn, true) (level_error, codes "b") ∷ [])
    × (length (log_calls messages silent).output ≡ 2)
unfolding log_calls log_call init_logger level_of get_logger log_with severity bytes_eq debug info
    error
printed_messages = (refl, refl)

-- The first dial fails, the second gives connection 9.
abbrev auth_frame : Frame
auth_frame = frame 1 0 0 (codes "t")

abbrev refused_round : Round
refused_round = record {
  done_before = false;
  dial = err (foreign (codes "connection refused"));
  done_waiting = false;
  now = 1;
}

start_agent-IsOnline_example :
    (b : Agent) × (start_agent demo demo_json
        (refused_round ∷ answering_round ∷ [])
        (new_agent (codes "core:8443") 10 demo_auth 0)
      ≡ runs b)
    × IsOnline demo demo_json 9 auth_frame b
    × IsSound b
unfolding create_auth_frame
start_agent-IsOnline_example =
    start_agent-IsOnline demo demo_json (codes "core:8443") 10 demo_auth 0 (refused_round ∷ []) []
      answering_round 9 auth_frame ((refl, refl, (foreign (codes "connection refused"), refl)), tt)
      refl refl refl

-- An agent that loses its connection with a frame in the queue.
abbrev late_frame : Frame
late_frame = frame 4 0 5 (codes "late")

abbrev loaded_agent : Agent
loaded_agent = record connected_agent {
  connector = record connected_agent.connector { send_ch = late_frame ∷ [] };
}

reconnect_agent_backlog_example :
    (b : Agent) × (reconnect_agent demo demo_json none 7
        (refused_round ∷ answering_round ∷ [])
        loaded_agent
      ≡ some b)
    × (b.connector.conn ≡ some 9)
    × (b.connector.send_ch ≡ late_frame ∷ auth_frame ∷ [])
unfolding create_auth_frame new_agent
reconnect_agent_backlog_example =
    reconnect_agent_backlog demo demo_json none 7 (refused_round ∷ []) [] answering_round 9 1
      auth_frame loaded_agent refl refl refl (omega arith)
      ((refl, refl, (foreign (codes "connection refused"), refl)), tt) tt refl refl refl

-- With an interval of no time the loop that an authentication starts has no ticker.
no_ticker : ticker_made (start (new_heartbeat 0)).0 ≡ false
unfolding new_heartbeat start
no_ticker = refl
