-- ===== src/Connector/Dialing/Reconnecting.antt =====
-- How connectWithRetry and Reconnect of client/connector.go leave the connector and the counters.
use tunnel_agent.Base.{
  ℕ, true, false, ◌≡◌, refl, inl, List, [], ◌∷◌, ◌++◌, Option, none, some, arith, inc64, if_both,
  sym, ◌∙◌, ap,
}
use tunnel_agent.Connector.{Connector, ConnectorCall, Outcome, disconnect}
use tunnel_agent.Connector.Queue.{
  IsConsistent, IsCounted, disconnect-IsConsistent, disconnect-IsCounted,
}
use tunnel_agent.Connector.Dialing.{
  Round, Loop, Dialed, dialed, dialing, Turn, ends, goes_on, connect_round, connect_loop, exhausted,
  established, connect_with_retry, start_loop, reconnect, reconnected, count_failure, stopped,
  dial_result, failed, waiting, give_up,
}
use tunnel_agent.Globals.{Globals, count}
use tunnel_agent.Metrics.{increment_reconnections_total}
use tunnel_agent.Errors.{ok, err, Result, GoError, context_canceled}

-- A loop that has ended: connected and without an error, or with an error and nothing changed.
pub data Ended (c : Connector) (g : Globals) (o : Outcome) : Type 0 where
  now_connected :
      (conn now : ℕ) (l : Loop) (waits : List ℕ)
      → established conn now c g l ≡ dialed o waits
      → Ended c g o
  gave_up : (e : GoError) → o.connector ≡ c → o.globals ≡ g → o.result ≡ some e → Ended c g o

abbrev IsEnded : Connector → Globals → Dialed → Type 0
IsEnded c g (dialed o waits) = Ended c g o
IsEnded c g (dialing l) = Unit

abbrev TurnEnded : Connector → Globals → Turn → Type 0
TurnEnded c g (ends d) = IsEnded c g d
TurnEnded c g (goes_on l) = Unit

refused :
    (c : Connector) (g : Globals) (l : Loop) (e : GoError) → IsEnded c g (stopped c g l (some e))
refused c g l e = gave_up e refl refl refl

dial_result-TurnEnded :
    (d : Result ℕ) (r : Round) (c : Connector) (g : Globals) (l : Loop)
    → TurnEnded c g (dial_result d r c g l)
unfolding dial_result
dial_result-TurnEnded (ok conn) r c g l = now_connected conn r.now l _ refl
dial_result-TurnEnded (err e) r c g l =
    let after = failed c e l in
    if_both (TurnEnded c g) (exhausted c.max_retries after.retries) _ _
      (refused c g after (give_up after.retries e))
      (if_both (TurnEnded c g) r.done_waiting _ _ (refused c g (waiting after) context_canceled) tt)

connect_round-TurnEnded :
    (r : Round) (c : Connector) (g : Globals) (l : Loop) → TurnEnded c g (connect_round r c g l)
unfolding connect_round
connect_round-TurnEnded r c g l =
    if_both (TurnEnded c g) r.done_before _ _ (refused c g l context_canceled)
      (dial_result-TurnEnded r.dial r c g l)

pub connect_loop-IsEnded :
    (rs : List Round) (c : Connector) (g : Globals) (l : Loop) → IsEnded c g (connect_loop rs c g l)
unfolding connect_loop
connect_loop-IsEnded [] c g l = tt
connect_loop-IsEnded (r ∷ rs) c g l =
    turn (connect_round r c g l) refl (connect_loop-IsEnded rs c g)
  where
    turn :
        (t : Turn)
        → connect_round r c g l ≡ t
        → ((l' : Loop) → IsEnded c g (connect_loop rs c g l'))
        → IsEnded c g (connect_loop (r ∷ rs) c g l)
    turn (ends d) e ih = rw (e, connect_loop) (rw e at (connect_round-TurnEnded r c g l))
    turn (goes_on l') e ih = rw (e, connect_loop) (ih l')

-- What a call of Connect or Reconnect that has ended guarantees, from an unconnected connector `c`:
-- without an error it is connected, by a write loop of its own besides those that ran before.
pub record IsSettled (c : Connector) (o : Outcome) : Type 0 where
  pub consistent : IsConsistent o.connector
  pub counted : IsCounted o.connector o.globals
  pub succeeded :
      o.result ≡ none
      → (o.connector.connected ≡ true)
        × ((conn : ℕ) × (o.connector.conn ≡ some conn)
            × (o.connector.writers ≡ c.writers ++ conn ∷ []))
  pub gave_none :
      (e : GoError)
      → o.result ≡ some e
      → (o.connector.connected ≡ false) × (o.connector.writers ≡ c.writers)

Ended-IsSettled :
    (c : Connector) (g : Globals) (o : Outcome)
    → IsConsistent c
    → IsCounted c g
    → c.connected ≡ false
    → Ended c g o
    → IsSettled c o
unfolding inc64
Ended-IsSettled c g o h n off (now_connected conn now l waits e) = record {
  consistent = record { linked = inl (ground arith, (conn, ground arith)); bounded = ground arith };
  counted = ground arith;
  succeeded = λ _. (ground arith, (conn, ground arith, ground arith));
  gave_none = λ x r. absurd (ground arith);
}
Ended-IsSettled c g o h n off (gave_up e same same_g res) = record {
  consistent = rw same h;
  counted = rw (same, same_g) n;
  succeeded = λ r. absurd (cc);
  gave_none = λ x r. (rw same off, rw same);
}

-- Connect, from a connector that is not connected.
pub connect_with_retry-IsSettled :
    (rs : List Round) (c : Connector) (g : Globals) (o : Outcome) (waits : List ℕ)
    → IsConsistent c
    → IsCounted c g
    → c.connected ≡ false
    → connect_with_retry rs c g ≡ dialed o waits
    → IsSettled c o
unfolding connect_with_retry
connect_with_retry-IsSettled rs c g o waits h n off e =
    Ended-IsSettled c g o h n off (rw e at (connect_loop-IsEnded rs c g (start_loop c)))

record Carried (o o' : Outcome) : Type 0 where
  same_connector : o.connector ≡ o'.connector
  same_result : o.result ≡ o'.result
  same_gauge : o.globals.metrics.connections_active ≡ o'.globals.metrics.connections_active

count_failure_gauge :
    (e : Option GoError) (g : Globals)
    → (count_failure e g).metrics.connections_active ≡ g.metrics.connections_active
unfolding count_failure
count_failure_gauge none g = refl
count_failure_gauge (some _) g = refl

reconnected-Carried :
    (before : List ConnectorCall) (d : Dialed) (o : Outcome) (waits : List ℕ)
    → reconnected before d ≡ dialed o waits
    → (o' : Outcome) × (w : List ℕ) × (d ≡ dialed o' w) × Carried o o'
unfolding reconnected
reconnected-Carried before (dialed o' w) o waits e = (
  o',
  w,
  refl,
  record {
    same_connector = ground arith;
    same_result = ground arith;
    same_gauge = ground (arith, count_failure_gauge o'.result o'.globals);
  },
)
reconnected-Carried before (dialing l) o waits e = cc

Carried-IsSettled : (c : Connector) (o o' : Outcome) → Carried o o' → IsSettled c o' → IsSettled c o
Carried-IsSettled c o o' k s = record {
  consistent = rw k.same_connector s.consistent;
  counted = rw (k.same_gauge, k.same_connector) s.counted;
  succeeded = λ r. rw k.same_connector (s.succeeded (sym k.same_result ∙ r));
  gave_none = λ e r. rw k.same_connector (s.gave_none e (sym k.same_result ∙ r));
}

-- Reconnect, from any connector: when the loop has ended the gauge and the flag agree, and every
-- write loop that ran before runs on, also the one of the connection that was closed.
pub reconnect-IsSettled :
    (closing : Option GoError) (now : ℕ) (rs : List Round) (c : Connector) (g : Globals)
    (o : Outcome) (waits : List ℕ)
    → IsConsistent c
    → IsCounted c g
    → reconnect closing now rs c g ≡ dialed o waits
    → IsSettled c o
unfolding reconnect
reconnect-IsSettled closing now rs c g o waits h n e =
    let g' = count increment_reconnections_total g in
    let cut = disconnect closing now c g' in
    let (kept, off, writers, queue) = disconnect-IsConsistent closing now c g' h in
    let (o', w, d, k) =
      reconnected-Carried cut.calls (connect_with_retry rs cut.connector cut.globals) o waits e in
    let settled =
      connect_with_retry-IsSettled rs cut.connector cut.globals o' w kept
        (disconnect-IsCounted closing now c g' h n) off d in
    Carried-IsSettled c o o' k (record {
      consistent = settled.consistent;
      counted = settled.counted;
      succeeded = λ r.
          let (on, (conn, at, ws)) = settled.succeeded r in
          (on, (conn, at, ws ∙ ap (λ (l : List ℕ). l ++ conn ∷ []) writers));
      gave_none = λ x r. let (down, ws) = settled.gave_none x r in (down, ws ∙ writers);
    })
