-- ===== src/Monitoring/Objects.antt =====
-- The JSON tokens of objects with members, for the answers of cmd/agent/main.go.
use tunnel_agent.Base.{ℕ, List, [], ◌∷◌, ◌++◌, Bytes, codes, signed, signed_decimal}
use tunnel_agent.Health.{HealthStatus}
use tunnel_agent.Metrics.{Metrics}
use tunnel_agent.Monitoring.{status_text}
use tunnel_agent.Monitoring.Reader.{Token, mark, word, numeral}

-- The tokens of a JSON object with these members, in their order.
abbrev pub more_members : List (List Token) → List Token
more_members [] = []
more_members (m ∷ ms) = mark b',' ∷ (m ++ more_members ms)

abbrev pub members : List (List Token) → List Token
members [] = []
members (m ∷ ms) = m ++ more_members ms

abbrev pub object : List (List Token) → List Token
object ms = mark b'{' ∷ (members ms ++ mark b'}' ∷ [])

abbrev pub member : Bytes → List Token → List Token
member key value = word key ∷ mark b':' ∷ value

abbrev pub int_value : ℕ → List Token
int_value x = numeral (signed_decimal (signed x)) ∷ []

abbrev pub text_value : Bytes → List Token
text_value text = word text ∷ []

module _ (format_time : ℕ → Bytes) where
  -- The object that the README describes.
  abbrev pub metrics_object : Metrics → HealthStatus → List Token
  metrics_object s status = object (
      member (codes "connections") (
        object (
          member (codes "total") (int_value s.connections_total)
          ∷ member (codes "active") (int_value s.connections_active)
          ∷ member (codes "reconnections") (int_value s.reconnections_total)
          ∷ member (codes "reconnection_errors") (int_value s.reconnection_errors)
          ∷ []))
      ∷ member (codes "streams") (
          object (
            member (codes "total") (int_value s.streams_total)
            ∷ member (codes "active") (int_value s.streams_active)
            ∷ member (codes "completed") (int_value s.streams_completed)
            ∷ member (codes "failed") (int_value s.streams_failed)
            ∷ []))
      ∷ member (codes "requests") (
          object (
            member (codes "total") (int_value s.requests_total)
            ∷ member (codes "success") (int_value s.requests_success)
            ∷ member (codes "failed") (int_value s.requests_failed)
            ∷ member (codes "duration_us") (int_value s.request_duration)
            ∷ []))
      ∷ member (codes "frames") (
          object (
            member (codes "received") (int_value s.frames_received)
            ∷ member (codes "sent") (int_value s.frames_sent)
            ∷ member (codes "errors") (int_value s.frames_error)
            ∷ []))
      ∷ member (codes "heartbeat") (
          object (
            member (codes "sent") (int_value s.heartbeats_sent)
            ∷ member (codes "failed") (int_value s.heartbeats_failed)
            ∷ []))
      ∷ member (codes "local_service") (
          object (
            member (codes "requests_total") (int_value s.local_requests_total)
            ∷ member (codes "requests_error") (int_value s.local_requests_error)
            ∷ member (codes "duration_us") (int_value s.local_request_duration)
            ∷ []))
      ∷ member (codes "timestamps") (
          object (
            member (codes "last_connection") (text_value (format_time s.last_connection_time))
            ∷ member (codes "last_request") (text_value (format_time s.last_request_time))
            ∷ member (codes "last_heartbeat") (text_value (format_time s.last_heartbeat_time))
            ∷ []))
      ∷ member (codes "health")
          (object (member (codes "status") (text_value (status_text status)) ∷ []))
      ∷ [])
