-- ===== src/Agent/Streams/Accounting/Forwards.antt =====
-- The end of a forwarding goroutine of cmd/agent/main.go.
use tunnel_agent.Base.{ℕ, refl, Option, none, some, nat_eq}
use tunnel_agent.Agent.{Agent, Forward, note_check}
use tunnel_agent.Agent.Streams.{finish_forward, forward_result, end_stream, error_frame, error_sent}
use tunnel_agent.Connector.{Connector, send_frame}
use tunnel_agent.Errors.{GoError, error_text}
use tunnel_agent.Globals.{count}
use tunnel_agent.Metrics.{increment_streams_failed}
use tunnel_agent.Health.{degraded}
use tunnel_agent.Protocol.{Protocol}
use tunnel_agent.Agent.Streams.Accounting.{
  IsSound, KeepsSound, SameStreams, SameStreams-IsSound, close_quietly-KeepsSound,
}

pub forward_result-SameStreams :
    (p : Protocol) (now id : ℕ) (r : Option GoError) (a : Agent)
    → SameStreams a (forward_result p now id r a)
unfolding forward_result
forward_result-SameStreams p now id none a = (refl, refl, refl, refl)
forward_result-SameStreams p now id (some e) a = sent (send_frame (error_frame p id e) a.connector)
  where
    failed : Agent
    failed = record a {
      globals =
          note_check a.local_service_check degraded (error_text e) now
            (count increment_streams_failed a.globals);
    }

    sent : (r : Connector × Option GoError) → SameStreams a (error_sent r failed)
    sent (c, none) = (refl, refl, refl, refl)
    sent (c, some x) = (refl, refl, refl, refl)

pub finish_forward-KeepsSound :
    (p : Protocol) (now : ℕ) (f : Forward) (r : Option GoError) (a : Agent)
    → IsSound a
    → KeepsSound (finish_forward p now f r a)
unfolding finish_forward
finish_forward-KeepsSound p now f r a h =
    let told = forward_result p now f.stream_id r a in
    close_quietly-KeepsSound f.stream_id now (end_stream p f.stream_id told) (
      SameStreams-IsSound told _ (refl, refl, refl, refl)
        (SameStreams-IsSound a told (forward_result-SameStreams p now f.stream_id r a) h))
