-- ===== src/Monitoring.antt =====
-- The metrics server of cmd/agent/main.go: the texts that /metrics and /health answer with. The
-- routing of net/http is left out; time.Time.Format(time.RFC3339) is a parameter. A handler reads the
-- counters and checks as one step.
pub mod Reader
pub mod Objects
pub mod Answers
pub mod Checks
pub mod Quoted
use tunnel_agent.Base.{
  ℕ, Bool, true, false, List, [], ◌∷◌, ◌++◌, Option, none, some, Bytes, codes, ℤ, signed,
  signed_decimal, get_elem?, if◌then◌else◌,
}
use tunnel_agent.Health.{
  HealthStatus, healthy, degraded, unhealthy, HealthChecker, get_status, get_overall_status,
  get_all_checks,
}
use tunnel_agent.Metrics.{Metrics, get_snapshot}

-- The pieces of a call of fmt.Fprintf: text of the format, `%d` on an int64, `%s`.
pub data Piece : Type 0 where
  literal : Bytes → Piece
  number : ℕ → Piece
  string : Bytes → Piece

unfoldable pub piece_text : Piece → Bytes
piece_text (literal text) = text
piece_text (number x) = signed_decimal (signed x)
piece_text (string text) = text

unfoldable pub fprintf : List Piece → Bytes
unfolding piece_text
fprintf [] = []
fprintf (p ∷ ps) = piece_text p ++ fprintf ps

unfoldable pub status_text : HealthStatus → Bytes
status_text healthy = codes "healthy"
status_text degraded = codes "degraded"
status_text unhealthy = codes "unhealthy"

module _ (format_time : ℕ → Bytes) where
  abbrev pub metrics_pieces : Metrics → HealthStatus → List Piece
  metrics_pieces s status =
      literal (codes "{\n  \"connections\": {\n    \"total\": ")
      ∷ number s.connections_total
      ∷ literal (codes ",\n    \"active\": ")
      ∷ number s.connections_active
      ∷ literal (codes ",\n    \"reconnections\": ")
      ∷ number s.reconnections_total
      ∷ literal (codes ",\n    \"reconnection_errors\": ")
      ∷ number s.reconnection_errors
      ∷ literal (codes "\n  },\n  \"streams\": {\n    \"total\": ")
      ∷ number s.streams_total
      ∷ literal (codes ",\n    \"active\": ")
      ∷ number s.streams_active
      ∷ literal (codes ",\n    \"completed\": ")
      ∷ number s.streams_completed
      ∷ literal (codes ",\n    \"failed\": ")
      ∷ number s.streams_failed
      ∷ literal (codes "\n  },\n  \"requests\": {\n    \"total\": ")
      ∷ number s.requests_total
      ∷ literal (codes ",\n    \"success\": ")
      ∷ number s.requests_success
      ∷ literal (codes ",\n    \"failed\": ")
      ∷ number s.requests_failed
      ∷ literal (codes ",\n    \"duration_us\": ")
      ∷ number s.request_duration
      ∷ literal (codes "\n  },\n  \"frames\": {\n    \"received\": ")
      ∷ number s.frames_received
      ∷ literal (codes ",\n    \"sent\": ")
      ∷ number s.frames_sent
      ∷ literal (codes ",\n    \"errors\": ")
      ∷ number s.frames_error
      ∷ literal (codes "\n  },\n  \"heartbeat\": {\n    \"sent\": ")
      ∷ number s.heartbeats_sent
      ∷ literal (codes ",\n    \"failed\": ")
      ∷ number s.heartbeats_failed
      ∷ literal (codes "\n  },\n  \"local_service\": {\n    \"requests_total\": ")
      ∷ number s.local_requests_total
      ∷ literal (codes ",\n    \"requests_error\": ")
      ∷ number s.local_requests_error
      ∷ literal (codes ",\n    \"duration_us\": ")
      ∷ number s.local_request_duration
      ∷ literal (codes "\n  },\n  \"timestamps\": {\n    \"last_connection\": \"")
      ∷ string (format_time s.last_connection_time)
      ∷ literal (codes "\",\n    \"last_request\": \"")
      ∷ string (format_time s.last_request_time)
      ∷ literal (codes "\",\n    \"last_heartbeat\": \"")
      ∷ string (format_time s.last_heartbeat_time)
      ∷ literal (codes "\"\n  },\n  \"health\": {\n    \"status\": \"")
      ∷ string (status_text status)
      ∷ literal (codes "\"\n  }\n}")
      ∷ []

  -- The handler of /metrics.
  unfoldable pub metrics_answer : Metrics → HealthChecker → Bytes
  metrics_answer m hc = fprintf (metrics_pieces (get_snapshot m) (get_overall_status hc))

  -- What the loop prints for one check. A pointer off the store does not occur.
  abbrev pub check_pieces : Bytes → Option (HealthStatus × Bytes × ℕ) → List Piece
  check_pieces name none = []
  check_pieces name (some (status, message, last_check)) =
      literal (codes "\n    \"")
      ∷ string name
      ∷ literal (codes "\": {\n      \"status\": \"")
      ∷ string (status_text status)
      ∷ literal (codes "\",\n      \"message\": \"")
      ∷ string message
      ∷ literal (codes "\",\n      \"last_check\": \"")
      ∷ string (format_time last_check)
      ∷ literal (codes "\"\n    }")
      ∷ []

  abbrev pub comma : Bool → List Piece
  comma first = if first then [] else literal (codes ",") ∷ []

  -- The loop over the checks, with its flag.
  unfoldable pub checks_pieces : HealthChecker → Bool → List (Bytes × ℕ) → List Piece
  checks_pieces hc first [] = []
  checks_pieces hc first ((name, check) ∷ rest) =
      comma first ++ (check_pieces name (get_status check hc) ++ checks_pieces hc false rest)

  unfoldable pub health_pieces : HealthChecker → List Piece
  unfolding checks_pieces
  health_pieces hc =
      literal (codes "{\n  \"status\": \"")
      ∷ string (status_text (get_overall_status hc))
      ∷ literal (codes "\",\n  \"checks\": {")
      ∷ (checks_pieces hc true (get_all_checks hc) ++ literal (codes "\n  }\n}") ∷ [])

  -- The handler of /health.
  unfoldable pub health_answer : HealthChecker → Bytes
  unfolding health_pieces
  health_answer hc = fprintf (health_pieces hc)
