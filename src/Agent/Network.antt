-- ===== src/Agent/Network.antt =====
-- The agent of cmd/agent/main.go on its connections: the dispatcher's loop reads frames from the
-- bytes that arrive, hands them to the agent's handlers, and starts the reconnects, while the
-- other goroutines take their steps between its rounds.
pub mod Sound
pub mod Hosting
use tunnel_agent.Base.{ℕ, Bool, List, [], ◌∷◌, Option, none, some, ◌==◌, if◌then◌else◌}
use tunnel_agent.Agent.{Agent}
use tunnel_agent.Agent.Control.{control_handler, reconnect_started}
use tunnel_agent.Agent.Runs.{AgentEvent, agent_event}
use tunnel_agent.Agent.Streams.{Handling, handled, blocked, crashed, handle_stream_frame}
use tunnel_agent.Agent.Streams.Waiting.{resumed}
use tunnel_agent.Auth.{Json}
use tunnel_agent.Dispatcher.{
  set_control_handler, set_stream_handler, set_on_connection_closed, set_on_error, Dispatcher, Net,
  Host, Turn, exits, again, read_turn, handled as counted,
}
use tunnel_agent.Errors.{GoError}
use tunnel_agent.Forwarder.{LocalForwarder}
use tunnel_agent.Forwarder.Forwarding.{HttpClient}
use tunnel_agent.Globals.{Globals, count}
use tunnel_agent.Metrics.{Metrics}
use tunnel_agent.Protocol.{Protocol, Frame}
use tunnel_agent.Stream.{get_stream}

-- Where the dispatcher's goroutine is: in its loop, in the stream handler that waits for room for a
-- frame in the stream that it has looked up, or out of the loop. `panicked` is the end of the process.
pub data Phase : Type 0 where
  reading : Phase
  waiting : Frame → ℕ → Phase
  returned panicked : Phase

-- `wires` are the connections by their numbers.
pub record World (Wire : Type 0) : Type 0 where
  pub agent : Agent
  pub wires : ℕ → Wire
  pub phase : Phase

-- What a round depends on: the time, which way a select goes, and what closing a connection
-- returns.
pub record Choice : Type 0 where
  pub now : ℕ
  pub takes_send : Bool
  pub closing : Option GoError

waiting_at : Frame → Option ℕ → Phase
waiting_at frame none = reading
waiting_at frame (some ptr) = waiting frame ptr

module _ {Wire : Type 0} where
  abbrev pub with_agent : (Agent → Agent) → World Wire → World Wire
  with_agent f w = record w { agent = f w.agent }

  unfoldable pub conn_of : Option ℕ → World Wire → Option Wire
  conn_of none w = none
  conn_of (some k) w = some (w.wires k)

  unfoldable pub put_at : Option ℕ → Wire → World Wire → World Wire
  put_at none wire w = w
  put_at (some k) wire w = record w { wires = λ j. if j == k then wire else w.wires j }

  abbrev pub count_in : (Metrics → Metrics) → World Wire → World Wire
  count_in f w = with_agent (λ a. record a { globals = count f a.globals }) w

  unfoldable pub control_handled : World Wire → Agent × Option GoError → World Wire × Option GoError
  control_handled w (a, e) = (record w { agent = a }, e)

  -- The handler returns, waits with its frame and its stream, or panics.
  unfoldable pub stream_handled : World Wire → Frame → Handling → World Wire × Option GoError
  unfolding waiting_at
  stream_handled w frame (handled a e) = (record w { agent = a; phase = reading }, e)
  stream_handled w frame blocked =
      (record w { phase = waiting_at frame (get_stream frame.stream_id w.agent.streams) }, none)
  stream_handled w frame crashed = (record w { phase = panicked }, none)

module _ {Wire : Type 0} (p : Protocol) (json : Json) (net : Net Wire) where
  -- The dispatcher before its handlers and callbacks are set.
  unfoldable pub bare_host : Host Wire (World Wire)
  unfolding conn_of put_at
  bare_host = record {
    dispatcher = λ w. w.agent.dispatcher;
    conn = λ w. conn_of w.agent.dispatcher_conn w;
    put_conn = λ wire w. put_at w.agent.dispatcher_conn wire w;
    count = count_in;
    control_handler = none;
    stream_handler = none;
    on_connection_closed = none;
    on_error = none;
  }

  -- The dispatcher as main sets it.
  unfoldable pub agent_host : Choice → Host Wire (World Wire)
  unfolding bare_host control_handled stream_handled
  agent_host c =
      set_stream_handler
        (λ frame w. stream_handled w frame (handle_stream_frame p c.now c.takes_send frame w.agent))
        (set_control_handler
          (λ frame w. control_handled w (control_handler p json c.closing c.now frame w.agent))
          (set_on_error (λ e. with_agent (reconnect_started p json))
            (set_on_connection_closed (with_agent (reconnect_started p json)) bare_host)))

  unfoldable pub turned : Turn (World Wire) → World Wire
  turned (exits w) = record w { phase = returned }
  turned (again w) = w

  -- A handler that waits stays where it is until its select goes on.
  unfoldable pub select_resumed : Choice → World Wire → Frame → Handling → World Wire
  unfolding agent_host turned
  select_resumed c w frame (handled a e) =
      turned (counted p net (agent_host c) (record w { agent = a; phase = reading }, e))
  select_resumed c w frame blocked = w
  select_resumed c w frame crashed = record w { phase = panicked }

  -- A step of the dispatcher's goroutine.
  unfoldable pub loop_step : Phase → Choice → World Wire → World Wire
  unfolding agent_host turned select_resumed
  loop_step reading c w = turned (read_turn p net (agent_host c) w)
  loop_step (waiting frame ptr) c w = select_resumed c w frame (resumed p c.now frame ptr w.agent)
  loop_step returned c w = w
  loop_step panicked c w = w

  -- A step of another goroutine; one that waits has not moved.
  unfoldable pub moved : Handling → World Wire → World Wire
  moved (handled a e) w = record w { agent = a }
  moved blocked w = w
  moved crashed w = record w { phase = panicked }

  module _ (http : HttpClient) (lf : LocalForwarder) where
    pub data Step : Type 0 where
      dispatches : Choice → Step
      goroutine : AgentEvent → Step

    unfoldable pub step_in : Phase → Step → World Wire → World Wire
    unfolding loop_step moved
    step_in panicked s w = w
    step_in phase (dispatches c) w = loop_step phase c w
    step_in phase (goroutine ev) w = moved (agent_event p json http lf ev w.agent) w

    unfoldable pub world_step : Step → World Wire → World Wire
    unfolding step_in
    world_step s w = step_in w.phase s w

    unfoldable pub run_world : List Step → World Wire → World Wire
    unfolding world_step
    run_world [] w = w
    run_world (s ∷ ss) w = run_world ss (world_step s w)
