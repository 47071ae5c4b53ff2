-- ===== src/Heartbeat.antt =====
-- client/heartbeat.go: one frame for each tick while connected.
pub mod Ticks
use tunnel_agent.Base.{ℕ, Bool, true, false, [], Option, none, some, ltb, if◌then◌else◌}
use tunnel_agent.Connector.{Connector, is_connected, send_frame}
use tunnel_agent.Errors.{GoError}
use tunnel_agent.Globals.{Globals, count}
use tunnel_agent.Metrics.{
  increment_heartbeats_failed, increment_heartbeats_sent, set_last_heartbeat_time,
}
use tunnel_agent.Protocol.{Protocol, Frame}

pub record Heartbeat : Type 0 where
  pub interval : ℕ
  pub cancelled : Bool
  pub running : Bool

unfoldable pub new_heartbeat : ℕ → Heartbeat
new_heartbeat interval = record { interval = interval; cancelled = false; running = false }

-- The flag tells whether a loop is started.
unfoldable pub start : Heartbeat → Heartbeat × Bool
start h = if h.running then (h, false) else (record h { running = true }, true)

unfoldable pub stop : Heartbeat → Heartbeat
stop h = record h { cancelled = true; running = false }

-- Whether heartbeatLoop gets its ticker: time.NewTicker panics on an interval that is not positive.
-- A negative duration counts as 0.
abbrev pub ticker_made : Heartbeat → Bool
ticker_made h = ltb 0 h.interval

abbrev pub heartbeat_frame : Protocol → Frame
heartbeat_frame p = record {
  version = p.version;
  type = p.frame_heartbeat;
  flags = p.flag_none;
  stream_id = p.stream_id_control;
  array = none;
  payload = [];
}

note_sent : Connector × Option GoError → ℕ → Globals → Connector × Globals
note_sent (c, some e) now g = (c, count increment_heartbeats_failed g)
note_sent (c, none) now g =
    (c, count (set_last_heartbeat_time now) (count increment_heartbeats_sent g))

-- One round of the loop; `none` when the loop returns. `done` is the branch that `select` takes.
unfoldable pub beat : Protocol → Bool → ℕ → Connector → Globals → Option (Connector × Globals)
unfolding note_sent
beat p done now c g =
    if done
    then none
    else if is_connected c
    then some (note_sent (send_frame (heartbeat_frame p) c) now g)
    else some (c, g)
