-- ===== src/Agent/Streams/Late.antt =====
-- A data frame of cmd/agent/main.go whose stream is closed between GetStream and the select.
use tunnel_agent.Base.{
  ℕ, true, false, ◌≡◌, refl, ◌∙◌, ap, Option, none, some, arith, get_elem?, lookup-delete,
  get_elem?-set, nat_eq,
}
use tunnel_agent.Agent.{Agent}
use tunnel_agent.Agent.Streams.{
  handled, crashed, close_quietly, after_call, data_frame, deliver_at, delivery_result,
}
use tunnel_agent.Agent.Streams.Accounting.{IsSound}
use tunnel_agent.Errors.{stream_not_found}
use tunnel_agent.Protocol.{Protocol, Frame}
use tunnel_agent.Stream.{Stream, get_stream, shut}
use tunnel_agent.Stream.Feed.{deliver_stale}
use tunnel_agent.Stream.WellFormed.Closing.{closed_return, close_stream_registered}

-- In every sound agent, a forwarding goroutine that closes the stream after the data frame's handler
-- has looked it up leaves the handler with a shut stream: when its select takes the send the agent
-- panics, and otherwise the handler returns ErrStreamNotFound.
pub data_frame_late :
    (p : Protocol) (now later : ℕ) (frame : Frame) (ptr : ℕ) (a : Agent)
    → IsSound a
    → get_stream frame.stream_id a.streams ≡ some ptr
    → (b : Agent) × (close_quietly frame.stream_id now a ≡ handled b none)
      × (get_stream frame.stream_id b.streams ≡ none)
      × (data_frame p later true frame (some ptr) b ≡ crashed)
      × (data_frame p later false frame (some ptr) b ≡ handled b (some stream_not_found))
unfolding close_quietly get_stream data_frame deliver_at
data_frame_late p now later frame ptr a h reg =
    let k = frame.stream_id in
    let (s, held, name, op) = h.streams.registered k ptr reg in
    let b : Agent = after_call now (closed_return k ptr s a.streams) a in
    let found : get_elem? b.streams.store ptr ≡ some (shut s) =
      ground (arith, get_elem?-set a.streams.store ptr s (shut s) ptr) in
    let (panics, refuses) = deliver_stale frame.payload (shut s) (refl, refl, refl) in
    (
      b,
      rw (close_stream_registered k ptr s a.streams reg held op) refl,
      ground (arith, lookup-delete k k a.streams.streams),
      ap (λ (o : Option Stream). deliver_at p later true frame ptr o b) found
          ∙ (unfold delivery_result in rw panics refl),
      ap (λ (o : Option Stream). deliver_at p later false frame ptr o b) found
          ∙ (unfold delivery_result in rw refuses refl),
    )
