-- ===== src/Examples/Connections.antt =====
-- The connector on concrete rounds and events.
use tunnel_agent.Base.{
  ℕ, ◌*◌, ◌≤◌, ◌≡◌, refl, true, false, List, [], ◌∷◌, none, some, codes, arith, All, pos, negsuc,
  length, inl, inc64,
}
use tunnel_agent.Connector.{Connector, Outcome, second, send_frame, disconnect}
use tunnel_agent.Connector.Queue.{IsConsistent}
use tunnel_agent.Connector.Dialing.{
  Round, Loop, Dialed, dialed, dialing, connect_with_retry, connect_loop, connect_round, reconnect,
  give_up, aggressive, next_backoff,
}
use tunnel_agent.Connector.{set_retry_interval}
use tunnel_agent.Base.{◌++◌}
use tunnel_agent.Connector.Dialing.Backoff.{waits_of, connect_with_retry-bounded}
use tunnel_agent.Connector.Dialing.Attempts.{
  connect_with_retry_gives_up, connect_with_retry_unlimited, connect_with_retry_succeeds,
}
use tunnel_agent.Connector.Dialing.Reconnecting.{IsSettled, reconnect-IsSettled}
use tunnel_agent.Connector.Writing.{Attempt, frame_taken, leaves, write_event}
use tunnel_agent.Connector.Writing.Order.{
  Traffic, TrafficEvent, sends, writes, traffic_run, traffic_step, IsOrdered, traffic_run-IsOrdered,
}
use tunnel_agent.Connector.Writing.Stale.{stale_flush_disconnects}
use tunnel_agent.Errors.{GoError, foreign, ok, err}
use tunnel_agent.Globals.{Globals}
use tunnel_agent.Examples.{frame}
use tunnel_agent.Health.{no_checks}
use tunnel_agent.Metrics.{zero_metrics}

abbrev refused : GoError
refused = foreign (codes "connection refused")

abbrev failing : Round
failing = record { done_before = false; dial = err refused; done_waiting = false; now = 0 }

abbrev answering : Round
answering = record { done_before = false; dial = ok 9; done_waiting = false; now = 3 }

abbrev globals : Globals
globals = record { metrics = zero_metrics; health = no_checks }

abbrev base : Connector
base = record {
  server_addr = codes "core:8443";
  conn = none;
  connected = false;
  send_ch = [];
  writers = [];
  max_retries = negsuc 0;
  retry_interval = second;
  backoff_factor = 2;
  max_backoff = 60 * second;
  on_connected = true;
  on_disconnected = true;
  on_error = false;
  cancelled = false;
}

abbrev twice : Connector
twice = record base { max_retries = pos 2 }

-- The waits in seconds after one failure up to seven: they are 1, 2, 4, 8, 48, 120 and 120.
seven_waits :
    waits_of (
      connect_with_retry
        (failing ∷ failing ∷ failing ∷ failing ∷ failing ∷ failing ∷ failing ∷ [])
        base
        globals)
    ≡ second ∷ 2 * second ∷ 4 * second ∷ 8 * second ∷ 48 * second ∷ 120 * second ∷ 120 * second ∷ []
unfolding connect_with_retry connect_loop connect_round aggressive next_backoff
seven_waits = refl

connect_with_retry-bounded_example :
    All
      (λ w. w ≤ 200 * second)
      (waits_of (
        connect_with_retry
          (failing ∷ answering ∷ [])
          (set_retry_interval (200 * second) base)
          globals))
connect_with_retry-bounded_example =
    connect_with_retry-bounded (failing ∷ answering ∷ []) (set_retry_interval (200 * second) base)
      globals (200 * second) (omega arith) (omega arith)

connect_with_retry_gives_up_example :
    (o : Outcome) × (waits : List ℕ) × (connect_with_retry
        (failing ∷ failing ∷ failing ∷ answering ∷ [])
        twice
        globals
      ≡ dialed o waits)
    × (o.connector ≡ twice)
    × (o.globals ≡ globals)
    × (length waits ≡ 2)
    × (o.result ≡ some (give_up 2 refused))
connect_with_retry_gives_up_example =
    connect_with_retry_gives_up 1 (failing ∷ failing ∷ []) (answering ∷ []) failing refused twice
      globals refl ((refl, refl, (refused, refl)), ((refl, refl, (refused, refl)), tt)) refl refl
      refl

connect_with_retry_unlimited_example :
    (l : Loop) × (connect_with_retry (failing ∷ failing ∷ []) base globals ≡ dialing l)
    × (length l.waits ≡ 2)
connect_with_retry_unlimited_example =
    connect_with_retry_unlimited (failing ∷ failing ∷ []) base globals (λ n e. cc)
      ((refl, refl, (refused, refl)), ((refl, refl, (refused, refl)), tt))

connect_with_retry_succeeds_example :
    (o : Outcome) × (waits : List ℕ) × (connect_with_retry (failing ∷ answering ∷ []) twice globals
      ≡ dialed o waits)
    × (o.result ≡ none)
    × (o.connector
        ≡ record twice { conn = some 9; connected = true; writers = twice.writers ++ 9 ∷ [] })
    × (o.globals.metrics.connections_total ≡ inc64 globals.metrics.connections_total)
    × (o.globals.metrics.connections_active ≡ inc64 globals.metrics.connections_active)
    × (length waits ≡ 1)
connect_with_retry_succeeds_example =
    connect_with_retry_succeeds (failing ∷ []) [] answering 9 twice globals
      ((refl, refl, (refused, refl)), tt) (omega arith) refl refl

-- A connector that is connected by connection 4 and its write loop.
abbrev linked : Connector
linked = record base { conn = some 4; connected = true; writers = 4 ∷ [] }

abbrev linked_globals : Globals
linked_globals = record globals { metrics = record zero_metrics { connections_active = 1 } }

abbrev redialed : Dialed
redialed = reconnect none 5 (failing ∷ answering ∷ []) linked linked_globals

abbrev outcome_of : Dialed → Outcome
outcome_of (dialed o waits) = o
outcome_of (dialing l) = record { connector = base; globals = globals; calls = []; result = none }

redialed-ends : redialed ≡ dialed (outcome_of redialed) (waits_of redialed)
unfolding reconnect connect_with_retry connect_loop connect_round disconnect
redialed-ends = refl

linked-IsConsistent : IsConsistent linked
linked-IsConsistent = record { linked = inl (refl, (4, refl)); bounded = omega arith }

reconnect-IsSettled_example : IsSettled linked (outcome_of redialed)
reconnect-IsSettled_example =
    reconnect-IsSettled none 5 (failing ∷ answering ∷ []) linked linked_globals
      (outcome_of redialed) (waits_of redialed) linked-IsConsistent refl redialed-ends

-- Two frames are sent, and one is written.
abbrev quiet : Attempt
quiet = record { encoding = none; flushing = none; closing = none; now = 0 }

abbrev traffic : Traffic
traffic = record {
  writer = record { conn = 4; written = [] };
  connector = linked;
  globals = globals;
  accepted = [];
}

abbrev events : List TrafficEvent
events = sends (frame 4 0 1 []) ∷ sends (frame 4 0 2 []) ∷ writes (frame_taken quiet) ∷ []

abbrev traffic_end : Traffic
traffic_end = record {
  writer = record { conn = 4; written = frame 4 0 1 [] ∷ [] };
  connector = record linked { send_ch = frame 4 0 2 [] ∷ [] };
  globals = record globals { metrics = record zero_metrics { frames_sent = 1 } };
  accepted = frame 4 0 1 [] ∷ frame 4 0 2 [] ∷ [];
}

traffic_run_ends : traffic_run events traffic ≡ some traffic_end
unfolding traffic_run traffic_step send_frame write_event inc64
traffic_run_ends = refl

traffic_run-IsOrdered_example : IsOrdered traffic_end
traffic_run-IsOrdered_example =
    traffic_run-IsOrdered events traffic traffic_end refl traffic_run_ends

-- The write loop of connection 3, with connection 4 in use.
abbrev broken : Attempt
broken = record quiet { flushing = some refused }

stale_flush_disconnects_example :
    (o : Outcome) × (write_event
        (frame_taken broken)
        (record { conn = 3; written = [] })
        (record linked { send_ch = frame 4 0 1 [] ∷ [] })
        globals
      ≡ leaves o)
    × (o.connector.connected ≡ false)
    × (o.connector.conn ≡ none)
    × (o.connector.send_ch ≡ [])
stale_flush_disconnects_example =
    stale_flush_disconnects broken (record { conn = 3; written = [] })
      (record linked { send_ch = frame 4 0 1 [] ∷ [] }) globals (frame 4 0 1 []) 4 refused refl
      (omega arith) refl refl refl
