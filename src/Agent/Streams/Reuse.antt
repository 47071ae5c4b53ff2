-- ===== src/Agent/Streams/Reuse.antt =====
-- A forwarding goroutine of cmd/agent/main.go that outlives its stream.
use tunnel_agent.Base.{
  ℕ, ◌≡◌, ◌≢◌, Option, none, some, arith, get_elem?, lookup, lookup-delete, get_elem?-set, nat_eq,
}
use tunnel_agent.Agent.{Agent, Forward}
use tunnel_agent.Agent.Streams.{
  handled, finish_forward, close_quietly, after_call, end_stream, forward_result,
}
use tunnel_agent.Agent.Streams.Accounting.{IsSound}
use tunnel_agent.Agent.Streams.Accounting.Forwards.{forward_result-SameStreams}
use tunnel_agent.Errors.{GoError}
use tunnel_agent.Protocol.{Protocol}
use tunnel_agent.Stream.{Stream, shut}
use tunnel_agent.Stream.WellFormed.Closing.{closed_return, close_stream_registered}

-- The goroutine closes by id: when its stream has been closed and the id belongs to another, its end
-- shuts that other stream and takes it from the table, whatever the result of the request was.
pub finish_forward_reused :
    (p : Protocol) (now : ℕ) (f : Forward) (result : Option GoError) (a : Agent) (other : ℕ)
    → IsSound a
    → lookup f.stream_id a.streams.streams ≡ some other
    → f.stream ≢ other
    → (b : Agent) × (s : Stream) × (finish_forward p now f result a ≡ handled b none)
      × (get_elem? a.streams.store other ≡ some s)
      × (get_elem? b.streams.store other ≡ some (shut s))
      × (lookup f.stream_id b.streams.streams ≡ none)
unfolding finish_forward close_quietly
finish_forward_reused p now f result a other h reg apart =
    let told = end_stream p f.stream_id (forward_result p now f.stream_id result a) in
    let (same, _, _, _) = forward_result-SameStreams p now f.stream_id result a in
    let (s, held, name, op) = h.streams.registered f.stream_id other reg in
    (
      after_call now (closed_return f.stream_id other s told.streams) told,
      s,
      rw (close_stream_registered f.stream_id other s told.streams (rw same reg) (rw same held) op),
      held,
      ground (arith, get_elem?-set told.streams.store other s (shut s) other),
      ground (arith, lookup-delete f.stream_id f.stream_id told.streams.streams),
    )
