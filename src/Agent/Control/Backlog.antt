-- ===== src/Agent/Control/Backlog.antt =====
-- The send queue of the connector over a Reconnect, in cmd/agent/main.go.
use tunnel_agent.Base.{
  ℕ, ◌<◌, true, false, ◌≡◌, refl, ap, ◌∙◌, List, [], ◌∷◌, ◌++◌, Option, some, arith, All, length,
  ltb,
}
use tunnel_agent.Agent.{Agent}
use tunnel_agent.Agent.Control.{
  auth_sent, dispatcher_started, connector_call, connector_calls, after_outcome, reconnect_ended,
  reconnect_agent,
}
use tunnel_agent.Agent.Control.Startup.{connector_calls-OnlyErrors}
use tunnel_agent.Auth.{Json, create_auth_frame}
use tunnel_agent.Connector.{
  ConnectorCall, connected_call, disconnected_call, Outcome, send_capacity, send_frame,
}
use tunnel_agent.Connector.Dialing.{Round, Dialed}
use tunnel_agent.Connector.Dialing.Attempts.{Fails, Allows, OnlyErrors}
use tunnel_agent.Connector.Dialing.Callbacks.{reconnect-established}
use tunnel_agent.Dispatcher.{start, stop}
use tunnel_agent.Errors.{GoError, ok}
use tunnel_agent.Protocol.{Protocol, Frame}

module _ (p : Protocol) (json : Json) where
  -- What the connected callback does to a connector with room, the dispatcher being stopped.
  auth_behind :
      (conn : ℕ) (frame : Frame) (a : Agent)
      → create_auth_frame p json a.authenticator ≡ ok frame
      → a.dispatcher.running ≡ false
      → a.connector.connected ≡ true
      → ltb (length a.connector.send_ch) send_capacity ≡ true
      → ((connector_calls p json (connected_call conn ∷ []) a).connector.send_ch
          ≡ a.connector.send_ch ++ frame ∷ [])
        × ((connector_calls p json (connected_call conn ∷ []) a).connector.conn ≡ a.connector.conn)
  unfolding connector_calls connector_call dispatcher_started auth_sent start send_frame
  auth_behind conn frame a e stopped on room = rw (stopped, e, on, room) (refl, refl)

  stopped_calls :
      (calls : List ConnectorCall) (conn : ℕ) (a : Agent)
      → OnlyErrors calls
      → connector_calls p json (disconnected_call ∷ (calls ++ connected_call conn ∷ [])) a
        ≡ connector_calls p json
            (connected_call conn ∷ [])
            (record a { dispatcher = stop a.dispatcher })
  unfolding connector_calls connector_call
  stopped_calls calls conn a h =
      connector_calls-OnlyErrors p json calls (connected_call conn ∷ [])
        (record a { dispatcher = stop a.dispatcher }) h

  -- A Reconnect that comes through leaves the frames that were queued for the old connection in the
  -- queue, in front of the authentication frame of the new one.
  pub reconnect_agent_backlog :
      (closing : Option GoError) (now : ℕ) (rs more : List Round) (r : Round) (conn k : ℕ)
      (frame : Frame) (a : Agent)
      → a.connector.conn ≡ some k
      → a.connector.on_disconnected ≡ true
      → a.connector.on_connected ≡ true
      → length a.connector.send_ch < send_capacity
      → All Fails rs
      → Allows a.connector.max_retries (length rs)
      → r.done_before ≡ false
      → r.dial ≡ ok conn
      → create_auth_frame p json a.authenticator ≡ ok frame
      → (b : Agent) × (reconnect_agent p json closing now (rs ++ r ∷ more) a ≡ some b)
        × (b.connector.conn ≡ some conn)
        × (b.connector.send_ch ≡ a.connector.send_ch ++ frame ∷ [])
  unfolding reconnect_agent reconnect_ended
  reconnect_agent_backlog closing now rs more r conn k frame a linked off on room fs allowed before
        d e =
      let (o, waits, calls, ends, made, called, errors) =
        reconnect-established closing now rs more r conn k a.connector a.globals linked off on fs
          allowed before d in
      let behind =
        auth_behind conn frame (stopped o) e (unfold stop in refl) (rw made refl)
          (rw made (fits room)) in
      let same : after_outcome p json o a
          ≡ connector_calls p json (connected_call conn ∷ []) (stopped o) =
        ap
          (λ (cs : List ConnectorCall).
            connector_calls p json cs (record a { connector = o.connector; globals = o.globals }))
          called
        ∙ stopped_calls calls conn (record a { connector = o.connector; globals = o.globals })
            errors in
      (
        after_outcome p json o a,
        ap (λ (x : Dialed). reconnect_ended p json x a) ends,
        ap (λ (b : Agent). b.connector.conn) same ∙ behind.1 ∙ rw made refl,
        ap (λ (b : Agent). b.connector.send_ch) same ∙ behind.0 ∙ rw made refl,
      )
    where
      stopped : Outcome → Agent
      stopped o = record a {
        connector = o.connector;
        globals = o.globals;
        dispatcher = stop a.dispatcher;
      }

      fits :
          length a.connector.send_ch < send_capacity
          → ltb (length a.connector.send_ch) send_capacity ≡ true
      fits h = ground arith
