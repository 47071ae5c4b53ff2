-- ===== src/Agent/Network/Sound.antt =====
-- The agent of cmd/agent/main.go stays sound on whatever bytes its connections carry.
use tunnel_agent.Base.{ℕ, refl, List, [], ◌∷◌, Option, none, some}
use tunnel_agent.Agent.{Agent}
use tunnel_agent.Agent.Control.{control_handler, reconnect_started}
use tunnel_agent.Agent.Control.Sound.{SameStreams, SameStreams-IsSound, control_handler-SameStreams}
use tunnel_agent.Agent.Network.{
  Phase, reading, waiting, returned, panicked, World, Choice, put_at, control_handled,
  stream_handled, agent_host, bare_host, turned, select_resumed, waiting_at, loop_step, moved, Step,
  dispatches, goroutine, step_in, world_step, run_world,
}
use tunnel_agent.Agent.Runs.{agent_event, agent_event-KeepsSound}
use tunnel_agent.Agent.Streams.{Handling, handled, blocked, crashed, handle_stream_frame}
use tunnel_agent.Agent.Streams.Accounting.{IsSound, KeepsSound, handle_stream_frame-KeepsSound}
use tunnel_agent.Agent.Streams.Waiting.{resumed, resumed-KeepsSound}
use tunnel_agent.Stream.{get_stream}
use tunnel_agent.Auth.{Json}
use tunnel_agent.Dispatcher.{Net, Turn, exits, again, read_turn, handled as counted}
use tunnel_agent.Dispatcher.Invariants.{HostKeeps, turn_state, read_turn-Keeps, handled-Keeps}
use tunnel_agent.Errors.{GoError}
use tunnel_agent.Forwarder.{LocalForwarder}
use tunnel_agent.Forwarder.Forwarding.{HttpClient}
use tunnel_agent.Globals.{count, same_counters}
use tunnel_agent.Metrics.{increment_frames_error, increment_frames_received}
use tunnel_agent.Protocol.{Protocol, Frame}

abbrev pub IsAlive : Phase → Type 0
IsAlive panicked = ⊥
IsAlive _ = Unit

waiting_at-IsAlive : (frame : Frame) (o : Option ℕ) → IsAlive (waiting_at frame o)
unfolding waiting_at
waiting_at-IsAlive frame none = tt
waiting_at-IsAlive frame (some ptr) = tt

module _ {Wire : Type 0} where
  -- The process has not panicked, and the agent's streams and counters agree.
  abbrev pub IsSafe : World Wire → Type 0
  IsSafe w = IsAlive w.phase × IsSound w.agent

  put_at-IsSafe :
      (o : Option ℕ) (wire : Wire) (w : World Wire) → IsSafe w → IsSafe (put_at o wire w)
  unfolding put_at
  put_at-IsSafe none wire w h = h
  put_at-IsSafe (some k) wire w h = h

  control_handled-IsSafe :
      (w : World Wire) (r : Agent × Option GoError)
      → SameStreams w.agent r.0
      → IsSafe w
      → IsSafe (control_handled w r).0
  unfolding control_handled
  control_handled-IsSafe w (a, e) same h = (h.0, SameStreams-IsSound w.agent a same h.1)

  stream_handled-IsSafe :
      (w : World Wire) (frame : Frame) (r : Handling)
      → KeepsSound r
      → IsSafe w
      → IsSafe (stream_handled w frame r).0
  unfolding stream_handled
  stream_handled-IsSafe w frame (handled a e) k h = (tt, k)
  stream_handled-IsSafe w frame blocked k h =
      (waiting_at-IsAlive frame (get_stream frame.stream_id w.agent.streams), h.1)
  stream_handled-IsSafe w frame crashed k h = absurd k

module _ {Wire : Type 0} (p : Protocol) (json : Json) (net : Net Wire) where
  moved-IsSafe :
      (w : World Wire) (r : Handling) → KeepsSound r → IsSafe w → IsSafe (moved p json net r w)
  unfolding moved
  moved-IsSafe w (handled a e) k h = (h.0, k)
  moved-IsSafe w blocked k h = h
  moved-IsSafe w crashed k h = absurd k

  failed-IsSound :
      (a : Agent)
      → IsSound a
      → IsSound (record a { globals = count increment_frames_error a.globals })
  failed-IsSound a h =
      SameStreams-IsSound a _
        (record {
          streams = refl;
          counters = record { active = refl; completed = refl; total = refl };
        })
        h

  received-IsSound :
      (a : Agent)
      → IsSound a
      → IsSound (record a { globals = count increment_frames_received a.globals })
  received-IsSound a h =
      SameStreams-IsSound a _
        (record {
          streams = refl;
          counters = record { active = refl; completed = refl; total = refl };
        })
        h

  started-IsSound : (a : Agent) → IsSound a → IsSound (reconnect_started p json a)
  started-IsSound a h =
      SameStreams-IsSound a _ (record { streams = refl; counters = same_counters a.globals }) h

  agent_host-Keeps : (c : Choice) → HostKeeps p net (agent_host p json net c) IsSafe
  unfolding agent_host bare_host
  agent_host-Keeps c = record {
    put = λ wire w h. put_at-IsSafe w.agent.dispatcher_conn wire w h;
    failed = λ w h. (h.0, failed-IsSound w.agent h.1);
    received = λ w h. (h.0, received-IsSound w.agent h.1);
    control = λ f w h.
        control_handled-IsSafe w (control_handler p json c.closing c.now f w.agent)
          (control_handler-SameStreams p json c.closing c.now f w.agent) h;
    stream = λ f w h.
        stream_handled-IsSafe w f (handle_stream_frame p c.now c.takes_send f w.agent)
          (handle_stream_frame-KeepsSound p c.now c.takes_send f w.agent h.1) h;
    closed = λ w h. (h.0, started-IsSound w.agent h.1);
    errors = λ e w h. (h.0, started-IsSound w.agent h.1);
  }

  turned-IsSafe :
      (c : Choice) (t : Turn (World Wire))
      → IsSafe (turn_state p net (agent_host p json net c) t)
      → IsSafe (turned p json net t)
  unfolding turned
  turned-IsSafe c (exits w) h = (tt, h.1)
  turned-IsSafe c (again w) h = h

  select_resumed-IsSafe :
      (c : Choice) (w : World Wire) (frame : Frame) (r : Handling)
      → KeepsSound r
      → IsSafe w
      → IsSafe (select_resumed p json net c w frame r)
  unfolding select_resumed
  select_resumed-IsSafe c w frame (handled a e) k h =
      let host = agent_host p json net c in
      let r : World Wire × Option GoError = (record w { agent = a; phase = reading }, e) in
      turned-IsSafe c (counted p net host r)
        (handled-Keeps p net host IsSafe (agent_host-Keeps c) r (tt, k))
  select_resumed-IsSafe c w frame blocked k h = h
  select_resumed-IsSafe c w frame crashed k h = absurd k

  loop_step-IsSafe :
      (phase : Phase) (c : Choice) (w : World Wire)
      → IsSafe w
      → IsSafe (loop_step p json net phase c w)
  unfolding loop_step
  loop_step-IsSafe reading c w h =
      let host = agent_host p json net c in
      turned-IsSafe c (read_turn p net host w)
        (read_turn-Keeps p net host IsSafe (agent_host-Keeps c) w h)
  loop_step-IsSafe (waiting frame ptr) c w h =
      select_resumed-IsSafe c w frame (resumed p c.now frame ptr w.agent)
        (resumed-KeepsSound p c.now frame ptr w.agent h.1) h
  loop_step-IsSafe returned c w h = h
  loop_step-IsSafe panicked c w h = h

  module _ (http : HttpClient) (lf : LocalForwarder) where
    step_in-IsSafe :
        (phase : Phase) (s : Step p json net http lf) (w : World Wire)
        → IsSafe w
        → IsSafe (step_in p json net http lf phase s w)
    unfolding step_in
    step_in-IsSafe panicked s w h = h
    step_in-IsSafe phase (dispatches c) w h = loop_step-IsSafe phase c w h
    step_in-IsSafe phase (goroutine ev) w h =
        moved-IsSafe w (agent_event p json http lf ev w.agent)
          (agent_event-KeepsSound p json http lf ev w.agent h.1) h

    -- Whatever bytes the connections carry, well-formed frames or not, and whatever the other
    -- goroutines do between the rounds of the read loop, no handler and no forwarding goroutine
    -- panics, and streams and counters stay sound.
    pub run_world-IsSafe :
        (ss : List (Step p json net http lf)) (w : World Wire)
        → IsSafe w
        → IsSafe (run_world p json net http lf ss w)
    unfolding run_world world_step
    run_world-IsSafe [] w h = h
    run_world-IsSafe (s ∷ ss) w h =
        run_world-IsSafe ss (world_step p json net http lf s w) (step_in-IsSafe w.phase s w h)
