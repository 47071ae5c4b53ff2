-- ===== src/Connector/Dialing/Callbacks.antt =====
-- The callbacks of a Reconnect of client/connector.go.
use tunnel_agent.Base.{
  ℕ, true, false, ◌≡◌, refl, List, [], ◌∷◌, ◌++◌, Option, none, some, sym, ◌∙◌, ap, All, length,
}
use tunnel_agent.Connector.{
  Connector, ConnectorCall, disconnected_call, connected_call, Outcome, disconnect, disconnect_from,
  set_connection,
}
use tunnel_agent.Connector.Queue.{disconnect-some}
use tunnel_agent.Connector.Dialing.{
  Round, Dialed, dialed, dialing, connect_with_retry, reconnect, reconnected, count_failure,
  established, start_writer,
}
use tunnel_agent.Connector.Dialing.Attempts.{
  Fails, Allows, OnlyErrors, connect_with_retry-established,
}
use tunnel_agent.Errors.{GoError, ok}
use tunnel_agent.Globals.{Globals, count}
use tunnel_agent.Metrics.{increment_reconnections_total}

dialed_calls : Dialed → List ConnectorCall
dialed_calls (dialed o waits) = o.calls
dialed_calls (dialing l) = l.calls

reconnected-Begins :
    (before : List ConnectorCall) (d : Dialed) (o : Outcome) (waits : List ℕ)
    → reconnected before d ≡ dialed o waits
    → (rest : List ConnectorCall) × (o.calls ≡ before ++ rest)
unfolding reconnected dialed_calls
reconnected-Begins before (dialed o' w) o waits e = (o'.calls, ap dialed_calls (sym e))
reconnected-Begins before (dialing l) o waits e = cc

disconnect-Begins :
    (closing : Option GoError) (now : ℕ) (c : Connector) (g : Globals) (k : ℕ)
    → c.conn ≡ some k
    → c.on_disconnected ≡ true
    → (disconnect closing now c g).calls ≡ disconnected_call ∷ []
disconnect-Begins closing now c g k linked notes =
    rw (disconnect-some k closing now c g linked) (unfold disconnect_from in (rw notes refl))

-- The first callback of a Reconnect of a connected connector is onDisconnected.
pub reconnect-Begins :
    (closing : Option GoError) (now : ℕ) (rs : List Round) (c : Connector) (g : Globals) (k : ℕ)
    → c.conn ≡ some k
    → c.on_disconnected ≡ true
    → (o : Outcome) (waits : List ℕ) → reconnect closing now rs c g ≡ dialed o waits
    → (rest : List ConnectorCall) × (o.calls ≡ disconnected_call ∷ rest)
unfolding reconnect
reconnect-Begins closing now rs c g k linked notes o waits e =
    let g' = count increment_reconnections_total g in
    let cut = disconnect closing now c g' in
    let (rest, calls) =
      reconnected-Begins cut.calls (connect_with_retry rs cut.connector cut.globals) o waits e in
    (
      rest,
      calls
          ∙ ap (λ (l : List ConnectorCall). l ++ rest)
              (disconnect-Begins closing now c g' k linked notes),
    )

outcome_of : Connector → Globals → Dialed → Outcome
outcome_of c g (dialed o waits) = o
outcome_of c g (dialing l) = record { connector = c; globals = g; calls = l.calls; result = none }

abbrev pub offline : Connector → Connector
offline c = record c { conn = none; connected = false }

-- A Reconnect of a connected connector whose dialling succeeds: the connector, and its callbacks.
pub reconnect-established :
    (closing : Option GoError) (now : ℕ) (rs more : List Round) (r : Round) (conn k : ℕ)
    (c : Connector) (g : Globals)
    → c.conn ≡ some k
    → c.on_disconnected ≡ true
    → c.on_connected ≡ true
    → All Fails rs
    → Allows c.max_retries (length rs)
    → r.done_before ≡ false
    → r.dial ≡ ok conn
    → (o : Outcome) × (waits : List ℕ) × (calls : List ConnectorCall) × (reconnect closing now
          (rs ++ r ∷ more)
          c
          g
        ≡ dialed o waits)
      × (o.connector ≡ start_writer conn (set_connection conn (offline c)))
      × (o.calls ≡ disconnected_call ∷ (calls ++ connected_call conn ∷ []))
      × OnlyErrors calls
unfolding reconnect reconnected count_failure disconnect_from outcome_of
reconnect-established closing now rs more r conn k c g linked off on fs allowed before d =
    let g₁ = count increment_reconnections_total g in
    let cut = disconnect_from (some k) closing now c g₁ in
    let (l, same, n, errors) =
      connect_with_retry-established rs more r conn cut.connector cut.globals fs allowed before d in
    (
      outcome_of c g (reconnected cut.calls (established conn r.now cut.connector cut.globals l)),
      l.waits,
      l.calls,
      ap
            (λ (x : Outcome).
              reconnected x.calls (connect_with_retry (rs ++ r ∷ more) x.connector x.globals))
            (disconnect-some k closing now c g₁ linked)
          ∙ ap (reconnected cut.calls) same,
      refl,
      rw (off, on) refl,
      errors,
    )
