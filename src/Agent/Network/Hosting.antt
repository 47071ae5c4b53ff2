-- ===== src/Agent/Network/Hosting.antt =====
-- The agent of cmd/agent/main.go as a host of the read loop of client/dispatcher.go.
use tunnel_agent.Base.{ℕ, true, ◌≡◌, ◌≢◌, false, refl, ap, ◌∙◌, Option, none, some, ==_refl}
use tunnel_agent.Agent.{Agent}
use tunnel_agent.Agent.Control.{control_handler}
use tunnel_agent.Agent.Control.Handling.{control_handler-SameDispatcher}
use tunnel_agent.Agent.Streams.Opening.{open_frame-Returns}
use tunnel_agent.Agent.Network.{
  World, Choice, reading, agent_host, bare_host, conn_of, put_at, control_handled, stream_handled,
}
use tunnel_agent.Auth.{Json}
use tunnel_agent.Dispatcher.{Net, handle_frame}
use tunnel_agent.Dispatcher.Delivery.{IsHost, IsQuiet}
use tunnel_agent.Protocol.{Protocol, Frame}

module _ {Wire : Type 0} (p : Protocol) (json : Json) (net : Net Wire) (c : Choice) where
  put_at-conn_of :
      (o : Option ℕ) (v wire : Wire) (w : World Wire)
      → conn_of o w ≡ some v
      → conn_of o (put_at o wire w) ≡ some wire
  unfolding conn_of put_at
  put_at-conn_of none v wire w h = absurd cc
  put_at-conn_of (some k) v wire w h = ap some (rw (==_refl k) refl)

  put_at-agent : (o : Option ℕ) (wire : Wire) (w : World Wire) → (put_at o wire w).agent ≡ w.agent
  unfolding put_at
  put_at-agent none wire w = refl
  put_at-agent (some k) wire w = refl

  conn_of-agent :
      (o : Option ℕ) (a : Agent) (w : World Wire) → conn_of o (record w { agent = a }) ≡ conn_of o w
  unfolding conn_of
  conn_of-agent none a w = refl
  conn_of-agent (some k) a w = refl

  conn_of-world :
      (o : Option ℕ) (a : Agent) (w : World Wire)
      → conn_of o (record w { agent = a; phase = reading }) ≡ conn_of o w
  unfolding conn_of
  conn_of-world none a w = refl
  conn_of-world (some k) a w = refl

  -- The accessors of the agent are what a host's should be.
  pub agent_host-IsHost : IsHost p net (agent_host p json net c)
  unfolding agent_host bare_host
  agent_host-IsHost = record {
    conn-put_conn = λ v wire w h.
        ap (λ (a : Agent). conn_of a.dispatcher_conn (put_at w.agent.dispatcher_conn wire w))
          (put_at-agent w.agent.dispatcher_conn wire w)
        ∙ put_at-conn_of w.agent.dispatcher_conn v wire w h;
    dispatcher-put_conn =
        λ wire w. ap (λ (a : Agent). a.dispatcher) (put_at-agent w.agent.dispatcher_conn wire w);
    conn-count = λ f w. conn_of-agent w.agent.dispatcher_conn _ w;
    dispatcher-count = λ f w. refl;
  }

  -- A control frame that does not close the connection leaves the read loop as it is.
  pub control_frame-IsQuiet :
      (frame : Frame)
      → p.is_control_frame frame ≡ true
      → frame.type ≢ p.frame_close
      → IsQuiet p net (agent_host p json net c) frame
  unfolding agent_host bare_host handle_frame control_handled
  control_frame-IsQuiet frame control other w =
      let a = (control_handler p json c.closing c.now frame w.agent).0 in
      let (dispatcher, conn) =
        control_handler-SameDispatcher p json c.closing c.now frame w.agent other in
      rw control
        (conn_of-agent a.dispatcher_conn a w ∙ ap (λ (o : Option ℕ). conn_of o w) conn, dispatcher)

  -- So does a frame that opens a stream, whether or not the stream can be made.
  pub open_frame-IsQuiet :
      (frame : Frame)
      → p.is_control_frame frame ≡ false
      → frame.type ≡ p.frame_open_stream
      → IsQuiet p net (agent_host p json net c) frame
  unfolding agent_host bare_host handle_frame stream_handled
  open_frame-IsQuiet frame stream opening w =
      let (a, e, done, dispatcher, conn) =
        open_frame-Returns p c.now c.takes_send frame w.agent opening in
      rw (stream, done)
        (
          ap (λ (o : Option ℕ). conn_of o (record w { agent = a; phase = reading })) conn
              ∙ conn_of-world w.agent.dispatcher_conn a w,
          dispatcher,
        )
