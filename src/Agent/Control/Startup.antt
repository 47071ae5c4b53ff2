-- ===== src/Agent/Control/Startup.antt =====
-- The start of cmd/agent/main.go: from the parts as main makes them to the first connection.
use tunnel_agent.Base.{
  ℕ, true, false, ◌≡◌, refl, sym, subst, ap, List, [], ◌∷◌, ◌++◌, Option, none, some, Bytes, All,
}
use tunnel_agent.Agent.{Agent, new_agent}
use tunnel_agent.Agent.Control.{
  connector_call, connector_calls, after_outcome, auth_sent, dispatcher_started,
}
use tunnel_agent.Agent.Control.Sound.{SameStreams-IsSound, after_outcome-SameStreams}
use tunnel_agent.Agent.Streams.Accounting.{IsSound, new_agent-IsSound}
use tunnel_agent.Auth.{Authenticator, Json, create_auth_frame}
use tunnel_agent.Connector.{
  ConnectorCall, connected_call, error_call, disconnected_call, Outcome, new_connector, send_frame,
}
use tunnel_agent.Connector.Dialing.{Round, Dialed, dialed, dialing, connect, established}
use tunnel_agent.Connector.Dialing.Attempts.{Fails, OnlyErrors, connect_with_retry-established}
use tunnel_agent.Connector.Dialing.Counters.{connect_with_retry-SameCounters}
use tunnel_agent.Dispatcher.{start, new_dispatcher}
use tunnel_agent.Errors.{GoError, ok}
use tunnel_agent.Protocol.{Protocol, Frame}

-- The agent runs, or the process has ended with an error, or it still dials.
pub data Started : Type 0 where
  runs : Agent → Started
  fatal : GoError → Started
  still_dials : Started

module _ (p : Protocol) (json : Json) where
  connect_result : Option GoError → Outcome → Agent → Started
  connect_result none o a = runs (after_outcome p json o a)
  connect_result (some e) o a = fatal e

  connect_ended : Dialed → Agent → Started
  unfolding connect_result
  connect_ended (dialed o waits) a = connect_result o.result o a
  connect_ended (dialing l) a = still_dials

  -- connector.Connect(), whose error ends the process, over the rounds of its dialling.
  unfoldable pub start_agent : List Round → Agent → Started
  unfolding connect_ended
  start_agent rs a = connect_ended (connect rs a.connector a.globals) a

  pub connector_calls-OnlyErrors :
      (cs more : List ConnectorCall) (a : Agent)
      → OnlyErrors cs
      → connector_calls p json (cs ++ more) a ≡ connector_calls p json more a
  unfolding connector_calls connector_call
  connector_calls-OnlyErrors [] more a h = refl
  connector_calls-OnlyErrors (error_call e ∷ cs) more a h = connector_calls-OnlyErrors cs more a h.1
  connector_calls-OnlyErrors (connected_call k ∷ cs) more a h = absurd h.0
  connector_calls-OnlyErrors (disconnected_call ∷ cs) more a h = absurd h.0

  -- A running agent on a connection, with this frame alone to be sent.
  pub record IsOnline (conn : ℕ) (frame : Frame) (a : Agent) : Type 0 where
    pub linked : a.connector.conn ≡ some conn
    pub flagged : a.connector.connected ≡ true
    pub one_writer : a.connector.writers ≡ conn ∷ []
    pub queued : a.connector.send_ch ≡ frame ∷ []
    pub reads_from : a.dispatcher_conn ≡ some conn
    pub live : a.dispatcher ≡ record { cancelled = false; running = true }

  auth_queued :
      (conn : ℕ) (frame : Frame) (a : Agent)
      → create_auth_frame p json a.authenticator ≡ ok frame
      → a.connector.conn ≡ some conn
      → a.connector.connected ≡ true
      → a.connector.writers ≡ conn ∷ []
      → a.connector.send_ch ≡ []
      → a.dispatcher ≡ new_dispatcher
      → IsOnline conn frame (connector_calls p json (connected_call conn ∷ []) a)
  unfolding connector_calls connector_call dispatcher_started auth_sent start new_dispatcher
      send_frame
  auth_queued conn frame a e c f w q d =
      rw (d, e, f, q)
        (record {
          linked = c;
          flagged = refl;
          one_writer = w;
          queued = refl;
          reads_from = refl;
          live = refl;
        })

  outcome_of : Agent → Dialed → Outcome
  outcome_of a (dialed o waits) = o
  outcome_of a (dialing l) = record {
    connector = a.connector;
    globals = a.globals;
    calls = l.calls;
    result = none;
  }

  -- Whatever number of dials fail first, the start of the agent ends with the first that succeeds:
  -- the agent runs on that connection, its dispatcher reads from it, the authentication frame is the
  -- one frame to be sent, and streams and counters are sound.
  pub start_agent-IsOnline :
      (server_addr : Bytes) (interval : ℕ) (auth : Authenticator) (now : ℕ) (rs more : List Round)
      (r : Round) (conn : ℕ) (frame : Frame)
      → All Fails rs
      → r.done_before ≡ false
      → r.dial ≡ ok conn
      → create_auth_frame p json auth ≡ ok frame
      → (b : Agent) × (start_agent (rs ++ r ∷ more) (new_agent server_addr interval auth now)
          ≡ runs b)
        × IsOnline conn frame b
        × IsSound b
  unfolding outcome_of start_agent connect_ended connect_result new_agent new_connector
  start_agent-IsOnline server_addr interval auth now rs more r conn frame fs before d e =
      let a : Agent = new_agent server_addr interval auth now in
      let (l, same, n, calls) =
        connect_with_retry-established rs more r conn a.connector a.globals fs tt before d in
      let o : Outcome = outcome_of a (established conn r.now a.connector a.globals l) in
      let b : Agent = after_outcome p json o a in
      let online =
        auth_queued conn frame (record a { connector = o.connector; globals = o.globals }) e refl
          refl refl refl refl in
      (
        b,
        ap (λ (x : Dialed). connect_ended x a) same,
        subst (IsOnline conn frame)
            (sym (connector_calls-OnlyErrors l.calls (connected_call conn ∷ []) _ calls)) online,
        SameStreams-IsSound a b
            (after_outcome-SameStreams p json o a (
              connect_with_retry-SameCounters (rs ++ r ∷ more) a.connector a.globals o l.waits
                same))
            (new_agent-IsSound server_addr interval auth now),
      )
