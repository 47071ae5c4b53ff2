-- ===== src/Agent/Control/Sound.antt =====
-- The streams of cmd/agent/main.go while the connection comes and goes.
use tunnel_agent.Base.{
  ℕ, ◌≡◌, refl, ◌∙◌, subst, List, [], ◌∷◌, Option, none, some, eq_of_some, ◌==◌, if_both, codes,
}
use tunnel_agent.Agent.{Agent, note_check}
use tunnel_agent.Agent.Control.{
  auth_sent, dispatcher_started, connector_call, connector_calls, after_outcome, auth_handled,
  control_handler, reconnect_ended, reconnect_agent, shutdown, close_frame,
}
use tunnel_agent.Agent.Streams.Accounting.{IsSound}
use tunnel_agent.Auth.{Authenticator, Json, create_auth_frame, handle_auth_response}
use tunnel_agent.Connector.{
  ConnectorCall, connected_call, disconnected_call, error_call, Outcome, disconnect, send_frame,
  close,
}
use tunnel_agent.Connector.Dialing.Counters.{
  disconnect-SameCounters, close-SameCounters, reconnect-SameCounters,
}
use tunnel_agent.Connector.Dialing.{Round, Dialed, dialed, dialing, reconnect}
use tunnel_agent.Dispatcher.{Dispatcher, start, stop}
use tunnel_agent.Errors.{GoError, Result, ok, err}
use tunnel_agent.Globals.{SameCounters, same_counters}
use tunnel_agent.Health.{unhealthy}
use tunnel_agent.Heartbeat
use tunnel_agent.Protocol.{Protocol, Frame}

pub record SameStreams (a b : Agent) : Type 0 where
  pub streams : b.streams ≡ a.streams
  pub counters : SameCounters a.globals b.globals

pub SameStreams-IsSound : (a b : Agent) → SameStreams a b → IsSound a → IsSound b
SameStreams-IsSound a b same h = record {
  streams = rw same.streams h.streams;
  notes_created = rw same.streams h.notes_created;
  notes_closed = rw same.streams h.notes_closed;
  done = h.done;
  gauges =
      rw (same.counters.active, same.counters.completed, same.counters.total, same.streams)
        h.gauges;
}

abbrev same_streams : (a : Agent) → SameStreams a a
same_streams a = record { streams = refl; counters = same_counters a.globals }

module _ (p : Protocol) (json : Json) where
  auth_sent-SameStreams : (q : Result Frame) (a : Agent) → SameStreams a (auth_sent p json q a)
  unfolding auth_sent
  auth_sent-SameStreams (err e) a = record { streams = refl; counters = same_counters a.globals }
  auth_sent-SameStreams (ok frame) a = record { streams = refl; counters = same_counters a.globals }

  dispatcher_started-SameStreams :
      (q : Dispatcher × Option GoError) (a : Agent) → SameStreams a (dispatcher_started p json q a)
  unfolding dispatcher_started
  dispatcher_started-SameStreams (d, some e) a = record {
    streams = refl;
    counters = same_counters a.globals;
  }
  dispatcher_started-SameStreams (d, none) a =
      let same =
        auth_sent-SameStreams (create_auth_frame p json a.authenticator)
          (record a { dispatcher = d }) in
      record { streams = same.streams; counters = same.counters }

  connector_call-SameStreams :
      (c : ConnectorCall) (a : Agent) → SameStreams a (connector_call p json c a)
  unfolding connector_call
  connector_call-SameStreams (connected_call conn) a =
      let same =
        dispatcher_started-SameStreams (start a.dispatcher)
          (record a { dispatcher_conn = some conn }) in
      record { streams = same.streams; counters = same.counters }
  connector_call-SameStreams disconnected_call a = record {
    streams = refl;
    counters = same_counters a.globals;
  }
  connector_call-SameStreams (error_call e) a = record {
    streams = refl;
    counters = same_counters a.globals;
  }

  SameStreams-trans : (a b c : Agent) → SameStreams a b → SameStreams b c → SameStreams a c
  SameStreams-trans a b c s t = record {
    streams = t.streams ∙ s.streams;
    counters = record {
      active = t.counters.active ∙ s.counters.active;
      completed = t.counters.completed ∙ s.counters.completed;
      total = t.counters.total ∙ s.counters.total;
    };
  }

  connector_calls-SameStreams :
      (cs : List ConnectorCall) (a : Agent) → SameStreams a (connector_calls p json cs a)
  unfolding connector_calls
  connector_calls-SameStreams [] a = record { streams = refl; counters = same_counters a.globals }
  connector_calls-SameStreams (c ∷ cs) a =
      SameStreams-trans a (connector_call p json c a) _ (connector_call-SameStreams c a)
        (connector_calls-SameStreams cs (connector_call p json c a))

  pub after_outcome-SameStreams :
      (o : Outcome) (a : Agent)
      → SameCounters a.globals o.globals
      → SameStreams a (after_outcome p json o a)
  after_outcome-SameStreams o a same =
      SameStreams-trans a (record a { connector = o.connector; globals = o.globals }) _
        (record { streams = refl; counters = same })
        (connector_calls-SameStreams o.calls
          (record a { connector = o.connector; globals = o.globals }))

  auth_handled-SameStreams :
      (now : ℕ) (q : Authenticator × Option GoError) (a : Agent)
      → SameStreams a (auth_handled p json now q a).0
  unfolding auth_handled
  auth_handled-SameStreams now (auth, some e) a = record {
    streams = refl;
    counters = record { active = refl; completed = refl; total = refl };
  }
  auth_handled-SameStreams now (auth, none) a = record {
    streams = refl;
    counters = record { active = refl; completed = refl; total = refl };
  }

  close_requested-SameStreams :
      (closing : Option GoError) (now : ℕ) (a : Agent)
      → (let g =
            note_check a.connection_check unhealthy
              (codes "Server requested close")
              now
              a.globals in
          SameStreams a (
            after_outcome p json (disconnect closing now a.connector g) (record a { globals = g })))
  close_requested-SameStreams closing now a =
      let g =
        note_check a.connection_check unhealthy (codes "Server requested close") now a.globals in
      let same =
        after_outcome-SameStreams (disconnect closing now a.connector g) (record a { globals = g })
          (disconnect-SameCounters closing now a.connector g) in
      record {
        streams = same.streams;
        counters = record {
          active = same.counters.active;
          completed = same.counters.completed;
          total = same.counters.total;
        };
      }

  pub control_handler-SameStreams :
      (closing : Option GoError) (now : ℕ) (frame : Frame) (a : Agent)
      → SameStreams a (control_handler p json closing now frame a).0
  unfolding control_handler
  control_handler-SameStreams closing now frame a =
      let Same : Agent × Option GoError → Type 0 = λ r. SameStreams a r.0 in
      if_both Same (frame.type == p.frame_auth) _ _
        (auth_handled-SameStreams now (handle_auth_response p json frame a.authenticator) a)
        (if_both Same (frame.type == p.frame_heartbeat) _ _ (same_streams a) (
          if_both Same (frame.type == p.frame_close) _ _ (close_requested-SameStreams closing now a)
            (same_streams a)))

  reconnect_ended-SameStreams :
      (d : Dialed) (a b : Agent)
      → ((o : Outcome) (waits : List ℕ) → d ≡ dialed o waits → SameCounters a.globals o.globals)
      → reconnect_ended p json d a ≡ some b
      → SameStreams a b
  unfolding reconnect_ended
  reconnect_ended-SameStreams (dialed o waits) a b same e =
      subst (SameStreams a) (eq_of_some e) (after_outcome-SameStreams o a (same o waits refl))
  reconnect_ended-SameStreams (dialing l) a b same e = cc

  pub reconnect_agent-SameStreams :
      (closing : Option GoError) (now : ℕ) (rs : List Round) (a b : Agent)
      → reconnect_agent p json closing now rs a ≡ some b
      → SameStreams a b
  unfolding reconnect_agent
  reconnect_agent-SameStreams closing now rs a b e =
      reconnect_ended-SameStreams (reconnect closing now rs a.connector a.globals) a b
        (reconnect-SameCounters closing now rs a.connector a.globals) e

  pub shutdown-SameStreams :
      (closing : Option GoError) (now : ℕ) (a : Agent)
      → SameStreams a (shutdown p json closing now a)
  unfolding shutdown
  shutdown-SameStreams closing now a =
      let c = (send_frame (close_frame p json) a.connector).0 in
      let stopped : Agent = record a {
        connector = c;
        heartbeat = Heartbeat.stop a.heartbeat;
        dispatcher = stop a.dispatcher;
      } in
      let same =
        after_outcome-SameStreams (close closing now c a.globals) stopped
          (close-SameCounters closing now c a.globals) in
      record { streams = same.streams; counters = same.counters }
