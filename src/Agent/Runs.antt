-- ===== src/Agent/Runs.antt =====
-- Runs of the agent of cmd/agent/main.go: the frames that its handlers get, its forwarding
-- goroutines, its reconnects and its shutdown, in any order, each handled whole.
use tunnel_agent.Base.{ℕ, Bool, ◌≡◌, refl, List, [], ◌∷◌, Option, none, some, get_elem?}
use tunnel_agent.Agent.{Agent, Forward}
use tunnel_agent.Agent.Control.{control_handler, reconnect_agent, shutdown}
use tunnel_agent.Agent.Control.Sound.{
  SameStreams-IsSound, control_handler-SameStreams, reconnect_agent-SameStreams,
  shutdown-SameStreams,
}
use tunnel_agent.Agent.Forwarding.{run_forward, run_forward_at, run_found, after_request, drop_at}
use tunnel_agent.Agent.Streams.{Handling, handled, blocked, crashed, handle_stream_frame}
use tunnel_agent.Agent.Streams.Accounting.{IsSound, KeepsSound, handle_stream_frame-KeepsSound}
use tunnel_agent.Agent.Streams.Accounting.Forwards.{finish_forward-KeepsSound}
use tunnel_agent.Auth.{Json}
use tunnel_agent.Connector.Dialing.{Round}
use tunnel_agent.Errors.{GoError}
use tunnel_agent.Forwarder.{LocalForwarder}
use tunnel_agent.Forwarder.Forwarding.{HttpClient, Span, forward_request}
use tunnel_agent.Forwarder.Forwarding.Counts.{forward_request-Counted}
use tunnel_agent.Protocol.{Protocol, Frame}
use tunnel_agent.Stream.Writer.{Sending}

-- A stream frame with the choice of its select, the goroutine at a place of the list, a control
-- frame, a Reconnect with its rounds of dialling, and the signal to stop.
pub data AgentEvent : Type 0 where
  stream_frame : ℕ → Bool → Frame → AgentEvent
  forwarding : Span → ℕ → AgentEvent
  control_frame : Option GoError → ℕ → Frame → AgentEvent
  reconnecting : Option GoError → ℕ → List Round → AgentEvent
  stopping : Option GoError → ℕ → AgentEvent

returned : Agent × Option GoError → Handling
returned (a, e) = handled a e

-- A Reconnect that still dials has not returned.
reconnected : Option Agent → Handling
reconnected none = blocked
reconnected (some a) = handled a none

-- `none` after a panic. A handler that waits leaves the agent as it is.
abbrev pub continue_with : (Agent → Option Agent) → Agent → Handling → Option Agent
continue_with f a (handled b e) = f b
continue_with f a blocked = f a
continue_with f a crashed = none

module _ (p : Protocol) (json : Json) (http : HttpClient) (lf : LocalForwarder) where
  unfoldable pub agent_event : AgentEvent → Agent → Handling
  unfolding returned reconnected
  agent_event (stream_frame now takes_send frame) a = handle_stream_frame p now takes_send frame a
  agent_event (forwarding t i) a = run_forward_at p http lf t i a
  agent_event (control_frame closing now frame) a =
      returned (control_handler p json closing now frame a)
  agent_event (reconnecting closing now rs) a =
      reconnected (reconnect_agent p json closing now rs a)
  agent_event (stopping closing now) a = handled (shutdown p json closing now a) none

  unfoldable pub run_agent : List AgentEvent → Agent → Option Agent
  run_agent [] a = some a
  run_agent (ev ∷ evs) a = continue_with (run_agent evs) a (agent_event ev a)

  run_found-KeepsSound :
      (t : Span) (i : ℕ) (o : Option Forward) (a : Agent)
      → IsSound a
      → KeepsSound (run_found p http lf t i o a)
  unfolding run_found run_forward
  run_found-KeepsSound t i none a h = h
  run_found-KeepsSound t i (some f) a h =
      let b : Agent = record a { forwards = drop_at i a.forwards } in
      let s : Sending = record { connector = b.connector; accepted = [] } in
      let r = forward_request p http t lf f.stream_id f.payload s b.globals in
      let counted = forward_request-Counted p http lf f.stream_id f.payload s t b.globals in
      finish_forward-KeepsSound p t.finished f r.result (after_request r b) (
        SameStreams-IsSound a (after_request r b)
          (record {
            streams = refl;
            counters = record {
              active = counted.2.active;
              completed = counted.2.completed;
              total = counted.2.total;
            };
          })
          h)

  returned-KeepsSound : (q : Agent × Option GoError) → IsSound q.0 → KeepsSound (returned q)
  unfolding returned
  returned-KeepsSound (a, e) h = h

  reconnected-KeepsSound :
      (q : Option Agent) → ((b : Agent) → q ≡ some b → IsSound b) → KeepsSound (reconnected q)
  unfolding reconnected
  reconnected-KeepsSound none h = tt
  reconnected-KeepsSound (some b) h = h b refl

  pub agent_event-KeepsSound :
      (ev : AgentEvent) (a : Agent) → IsSound a → KeepsSound (agent_event ev a)
  unfolding agent_event run_forward_at
  agent_event-KeepsSound (stream_frame now takes_send frame) a h =
      handle_stream_frame-KeepsSound p now takes_send frame a h
  agent_event-KeepsSound (forwarding t i) a h =
      run_found-KeepsSound t i (get_elem? a.forwards i) a h
  agent_event-KeepsSound (control_frame closing now frame) a h =
      returned-KeepsSound (control_handler p json closing now frame a)
        (SameStreams-IsSound a _ (control_handler-SameStreams p json closing now frame a) h)
  agent_event-KeepsSound (reconnecting closing now rs) a h =
      reconnected-KeepsSound (reconnect_agent p json closing now rs a)
        (λ b e. SameStreams-IsSound a b (reconnect_agent-SameStreams p json closing now rs a b e) h)
  agent_event-KeepsSound (stopping closing now) a h =
      SameStreams-IsSound a _ (shutdown-SameStreams p json closing now a) h

  -- Whatever frames arrive, goroutines forward, connections are lost and made, in any order, each
  -- handled whole, no handler and no forwarding goroutine panics: every stream that is registered
  -- stays open, every other is shut, and the counters tell the number of open streams, of closed
  -- ones, and their sum.
  pub run_agent-IsSound :
      (evs : List AgentEvent) (a : Agent)
      → IsSound a
      → (b : Agent) × (run_agent evs a ≡ some b) × IsSound b
  unfolding run_agent
  run_agent-IsSound [] a h = (a, refl, h)
  run_agent-IsSound (ev ∷ evs) a h =
      go (agent_event ev a) (agent_event-KeepsSound ev a h) (λ b s. run_agent-IsSound evs b s)
    where
      go :
          (r : Handling)
          → KeepsSound r
          → ((b : Agent) → IsSound b → (c : Agent) × (run_agent evs b ≡ some c) × IsSound c)
          → (c : Agent) × (continue_with (run_agent evs) a r ≡ some c) × IsSound c
      go (handled b e) s ih = ih b s
      go blocked s ih = ih a h
      go crashed s ih = absurd s
