-- ===== src/Metrics.antt =====
-- The counters of internal/metrics/metrics.go. A counter is an int64, kept as its bit pattern; an
-- atomic add is one step. Times are numbers, and a duration is a number of nanoseconds.
use tunnel_agent.Base.{ℕ, ◌/◌, inc64, dec64}

pub record Metrics : Type 0 where
  pub connections_total : ℕ
  pub connections_active : ℕ
  pub reconnections_total : ℕ
  pub reconnection_errors : ℕ
  pub streams_total : ℕ
  pub streams_active : ℕ
  pub streams_completed : ℕ
  pub streams_failed : ℕ
  pub requests_total : ℕ
  pub requests_success : ℕ
  pub requests_failed : ℕ
  pub request_duration : ℕ
  pub frames_received : ℕ
  pub frames_sent : ℕ
  pub frames_error : ℕ
  pub heartbeats_sent : ℕ
  pub heartbeats_failed : ℕ
  pub local_requests_total : ℕ
  pub local_requests_error : ℕ
  pub local_request_duration : ℕ
  pub last_connection_time : ℕ
  pub last_request_time : ℕ
  pub last_heartbeat_time : ℕ

abbrev pub zero_metrics : Metrics
zero_metrics = record {
  connections_total = 0;
  connections_active = 0;
  reconnections_total = 0;
  reconnection_errors = 0;
  streams_total = 0;
  streams_active = 0;
  streams_completed = 0;
  streams_failed = 0;
  requests_total = 0;
  requests_success = 0;
  requests_failed = 0;
  request_duration = 0;
  frames_received = 0;
  frames_sent = 0;
  frames_error = 0;
  heartbeats_sent = 0;
  heartbeats_failed = 0;
  local_requests_total = 0;
  local_requests_error = 0;
  local_request_duration = 0;
  last_connection_time = 0;
  last_request_time = 0;
  last_heartbeat_time = 0;
}

abbrev pub increment_connections_total : Metrics → Metrics
increment_connections_total m = record m { connections_total = inc64 m.connections_total }

abbrev pub increment_connections_active : Metrics → Metrics
increment_connections_active m = record m { connections_active = inc64 m.connections_active }

abbrev pub increment_reconnections_total : Metrics → Metrics
increment_reconnections_total m = record m { reconnections_total = inc64 m.reconnections_total }

abbrev pub increment_reconnection_errors : Metrics → Metrics
increment_reconnection_errors m = record m { reconnection_errors = inc64 m.reconnection_errors }

abbrev pub increment_streams_total : Metrics → Metrics
increment_streams_total m = record m { streams_total = inc64 m.streams_total }

abbrev pub increment_streams_active : Metrics → Metrics
increment_streams_active m = record m { streams_active = inc64 m.streams_active }

abbrev pub increment_streams_completed : Metrics → Metrics
increment_streams_completed m = record m { streams_completed = inc64 m.streams_completed }

abbrev pub increment_streams_failed : Metrics → Metrics
increment_streams_failed m = record m { streams_failed = inc64 m.streams_failed }

abbrev pub increment_requests_total : Metrics → Metrics
increment_requests_total m = record m { requests_total = inc64 m.requests_total }

abbrev pub increment_requests_success : Metrics → Metrics
increment_requests_success m = record m { requests_success = inc64 m.requests_success }

abbrev pub increment_requests_failed : Metrics → Metrics
increment_requests_failed m = record m { requests_failed = inc64 m.requests_failed }

abbrev pub increment_frames_received : Metrics → Metrics
increment_frames_received m = record m { frames_received = inc64 m.frames_received }

abbrev pub increment_frames_sent : Metrics → Metrics
increment_frames_sent m = record m { frames_sent = inc64 m.frames_sent }

abbrev pub increment_frames_error : Metrics → Metrics
increment_frames_error m = record m { frames_error = inc64 m.frames_error }

abbrev pub increment_heartbeats_sent : Metrics → Metrics
increment_heartbeats_sent m = record m { heartbeats_sent = inc64 m.heartbeats_sent }

abbrev pub increment_heartbeats_failed : Metrics → Metrics
increment_heartbeats_failed m = record m { heartbeats_failed = inc64 m.heartbeats_failed }

abbrev pub increment_local_requests_total : Metrics → Metrics
increment_local_requests_total m = record m { local_requests_total = inc64 m.local_requests_total }

abbrev pub increment_local_requests_error : Metrics → Metrics
increment_local_requests_error m = record m { local_requests_error = inc64 m.local_requests_error }

abbrev pub decrement_connections_active : Metrics → Metrics
decrement_connections_active m = record m { connections_active = dec64 m.connections_active }

abbrev pub decrement_streams_active : Metrics → Metrics
decrement_streams_active m = record m { streams_active = dec64 m.streams_active }

abbrev pub record_request_duration : ℕ → Metrics → Metrics
record_request_duration d m = record m { request_duration = d / 1000 }

abbrev pub record_local_request_duration : ℕ → Metrics → Metrics
record_local_request_duration d m = record m { local_request_duration = d / 1000 }

abbrev pub set_last_connection_time : ℕ → Metrics → Metrics
set_last_connection_time t m = record m { last_connection_time = t }

abbrev pub set_last_request_time : ℕ → Metrics → Metrics
set_last_request_time t m = record m { last_request_time = t }

abbrev pub set_last_heartbeat_time : ℕ → Metrics → Metrics
set_last_heartbeat_time t m = record m { last_heartbeat_time = t }

-- The snapshot copies every counter; as a value it is a `Metrics`.
abbrev pub get_snapshot : Metrics → Metrics
get_snapshot m = record {
  connections_total = m.connections_total;
  connections_active = m.connections_active;
  reconnections_total = m.reconnections_total;
  reconnection_errors = m.reconnection_errors;
  streams_total = m.streams_total;
  streams_active = m.streams_active;
  streams_completed = m.streams_completed;
  streams_failed = m.streams_failed;
  requests_total = m.requests_total;
  requests_success = m.requests_success;
  requests_failed = m.requests_failed;
  request_duration = m.request_duration;
  frames_received = m.frames_received;
  frames_sent = m.frames_sent;
  frames_error = m.frames_error;
  heartbeats_sent = m.heartbeats_sent;
  heartbeats_failed = m.heartbeats_failed;
  local_requests_total = m.local_requests_total;
  local_requests_error = m.local_requests_error;
  local_request_duration = m.local_request_duration;
  last_connection_time = m.last_connection_time;
  last_request_time = m.last_request_time;
  last_heartbeat_time = m.last_heartbeat_time;
}
