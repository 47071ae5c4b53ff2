-- ===== src/Agent/Control/Deaf.antt =====
-- Reconnect and the dispatcher in cmd/agent/main.go.
use tunnel_agent.Base.{
  ℕ, suc, ◌≡◌, refl, subst, true, List, [], ◌∷◌, Option, none, some, arith, eq_of_some,
}
use tunnel_agent.Agent.{Agent}
use tunnel_agent.Agent.Control.{
  auth_sent, dispatcher_started, connector_call, connector_calls, reconnect_ended, reconnect_agent,
}
use tunnel_agent.Auth.{Json, create_auth_frame}
use tunnel_agent.Connector.{ConnectorCall, connected_call, disconnected_call, error_call, Outcome}
use tunnel_agent.Connector.Dialing.{Round, Dialed, dialed, dialing, reconnect}
use tunnel_agent.Connector.Dialing.Callbacks.{reconnect-Begins}
use tunnel_agent.Dispatcher.{Dispatcher, Net, Host, start, stop, read_loop}
use tunnel_agent.Dispatcher.Restart.{read_loop_cancelled}
use tunnel_agent.Errors.{GoError, Result, ok, err}
use tunnel_agent.Protocol.{Protocol, Frame}

module _ (p : Protocol) (json : Json) where
  abbrev IsDead : Agent → Type 0
  IsDead a = a.dispatcher.cancelled ≡ true

  auth_sent-IsDead : (q : Result Frame) (a : Agent) → IsDead a → IsDead (auth_sent p json q a)
  unfolding auth_sent
  auth_sent-IsDead (err e) a h = h
  auth_sent-IsDead (ok frame) a h = h

  dispatcher_started-IsDead :
      (q : Dispatcher × Option GoError) (a : Agent)
      → q.0.cancelled ≡ true
      → IsDead (dispatcher_started p json q a)
  unfolding dispatcher_started
  dispatcher_started-IsDead (d, some e) a h = h
  dispatcher_started-IsDead (d, none) a h =
      auth_sent-IsDead (create_auth_frame p json a.authenticator) (record a { dispatcher = d }) h

  start-cancelled : (d : Dispatcher) → d.cancelled ≡ true → (start d).0.cancelled ≡ true
  unfolding start
  start-cancelled d h = ground arith

  connector_call-IsDead :
      (c : ConnectorCall) (a : Agent) → IsDead a → IsDead (connector_call p json c a)
  unfolding connector_call stop
  connector_call-IsDead (connected_call conn) a h =
      dispatcher_started-IsDead (start a.dispatcher) (record a { dispatcher_conn = some conn })
        (start-cancelled a.dispatcher h)
  connector_call-IsDead disconnected_call a h = refl
  connector_call-IsDead (error_call e) a h = h

  connector_calls-IsDead :
      (cs : List ConnectorCall) (a : Agent) → IsDead a → IsDead (connector_calls p json cs a)
  unfolding connector_calls
  connector_calls-IsDead [] a h = h
  connector_calls-IsDead (c ∷ cs) a h =
      connector_calls-IsDead cs (connector_call p json c a) (connector_call-IsDead c a h)

  disconnected-IsDead :
      (cs : List ConnectorCall) (a : Agent)
      → IsDead (connector_calls p json (disconnected_call ∷ cs) a)
  unfolding connector_calls connector_call stop
  disconnected-IsDead cs a =
      connector_calls-IsDead cs (connector_call p json disconnected_call a) refl

  reconnect_ended-IsDead :
      (d : Dialed) (a b : Agent)
      → ((o : Outcome) (waits : List ℕ)
          → d ≡ dialed o waits
          → (rest : List ConnectorCall) × (o.calls ≡ disconnected_call ∷ rest))
      → reconnect_ended p json d a ≡ some b
      → IsDead b
  unfolding reconnect_ended
  reconnect_ended-IsDead (dialed o waits) a b begins e =
      let (rest, calls) = begins o waits refl in
      subst IsDead (eq_of_some e) (rw calls (disconnected-IsDead rest _))
  reconnect_ended-IsDead (dialing l) a b begins e = cc

  -- Whatever the network does in a Reconnect of a connected agent, and whether or not it ends with a
  -- new connection, afterwards the dispatcher's loop returns in its first round: the agent handles no
  -- frame of the new connection.
  module _ {Wire : Type 0} (net : Net Wire) (h : Host Wire Agent)
      (own : (a : Agent) → h.dispatcher a ≡ a.dispatcher) where
    pub reconnect_agent_deaf :
        (closing : Option GoError) (now : ℕ) (rs : List Round) (a b : Agent) (k rounds : ℕ)
        → a.connector.conn ≡ some k
        → a.connector.on_disconnected ≡ true
        → reconnect_agent p json closing now rs a ≡ some b
        → read_loop p net h (suc rounds) b ≡ (b, true)
    unfolding reconnect_agent
    reconnect_agent_deaf closing now rs a b k rounds linked notes e =
        read_loop_cancelled p net h rounds b (
          rw (own b) (
            reconnect_ended-IsDead (reconnect closing now rs a.connector a.globals) a b
              (reconnect-Begins closing now rs a.connector a.globals k linked notes) e))
