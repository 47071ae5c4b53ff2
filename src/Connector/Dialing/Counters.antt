-- ===== src/Connector/Dialing/Counters.antt =====
-- The counters of streams while client/connector.go disconnects and connects.
use tunnel_agent.Base.{
  ℕ, ◌≡◌, refl, sym, ◌∙◌, subst, inl, inr, true, List, Option, none, some, Option-cases,
}
use tunnel_agent.Connector.{Connector, ConnectorCall, Outcome, disconnect, disconnect_from, close}
use tunnel_agent.Connector.Queue.{disconnect-none, disconnect-some}
use tunnel_agent.Connector.Dialing.{
  Round, Dialed, dialed, dialing, connect_with_retry, start_loop, reconnect, reconnected,
  count_failure,
}
use tunnel_agent.Connector.Dialing.Reconnecting.{
  Ended, now_connected, gave_up, connect_loop-IsEnded,
}
use tunnel_agent.Errors.{GoError}
use tunnel_agent.Globals.{Globals, count, SameCounters, same_counters}
use tunnel_agent.Metrics.{increment_reconnections_total}

pub disconnect-SameCounters :
    (closing : Option GoError) (now : ℕ) (c : Connector) (g : Globals)
    → SameCounters g (disconnect closing now c g).globals
disconnect-SameCounters closing now c g = elim (Option-cases c.conn) [
  | inl off ↦ rw (disconnect-none closing now c g off) (same_counters g)
  | inr (k, on) ↦
      rw (disconnect-some k closing now c g on)
        (unfold disconnect_from in record { active = refl; completed = refl; total = refl })
]

pub close-SameCounters :
    (closing : Option GoError) (now : ℕ) (c : Connector) (g : Globals)
    → SameCounters g (close closing now c g).globals
unfolding close disconnect
close-SameCounters closing now c g =
    disconnect-SameCounters closing now (record c { cancelled = true }) g

abbrev KeepsCounters : Globals → Dialed → Type 0
KeepsCounters g (dialed o waits) = SameCounters g o.globals
KeepsCounters g (dialing l) = Unit

Ended-SameCounters :
    (c : Connector) (g : Globals) (o : Outcome) → Ended c g o → SameCounters g o.globals
Ended-SameCounters c g o (now_connected conn now l waits e) =
    subst (KeepsCounters g) e (record { active = refl; completed = refl; total = refl })
Ended-SameCounters c g o (gave_up e connector globals result) =
    subst (SameCounters g) (sym globals) (same_counters g)

pub connect_with_retry-SameCounters :
    (rs : List Round) (c : Connector) (g : Globals) (o : Outcome) (waits : List ℕ)
    → connect_with_retry rs c g ≡ dialed o waits
    → SameCounters g o.globals
unfolding connect_with_retry
connect_with_retry-SameCounters rs c g o waits e =
    Ended-SameCounters c g o (rw e at (connect_loop-IsEnded rs c g (start_loop c)))

count_failure-SameCounters :
    (e : Option GoError) (g g' : Globals) → SameCounters g g' → SameCounters g (count_failure e g')
unfolding count_failure
count_failure-SameCounters none g g' same = same
count_failure-SameCounters (some e) g g' same = record {
  active = same.active;
  completed = same.completed;
  total = same.total;
}

reconnected-KeepsCounters :
    (before : List ConnectorCall) (g : Globals) (d : Dialed)
    → ((o : Outcome) (waits : List ℕ) → d ≡ dialed o waits → SameCounters g o.globals)
    → KeepsCounters g (reconnected before d)
unfolding reconnected
reconnected-KeepsCounters before g (dialed o waits) same =
    count_failure-SameCounters o.result g o.globals (same o waits refl)
reconnected-KeepsCounters before g (dialing l) same = tt

pub reconnect-SameCounters :
    (closing : Option GoError) (now : ℕ) (rs : List Round) (c : Connector) (g : Globals)
    (o : Outcome) (waits : List ℕ)
    → reconnect closing now rs c g ≡ dialed o waits
    → SameCounters g o.globals
unfolding reconnect
reconnect-SameCounters closing now rs c g o waits e =
    let cut = disconnect closing now c (count increment_reconnections_total g) in
    let off = disconnect-SameCounters closing now c (count increment_reconnections_total g) in
    let kept : KeepsCounters cut.globals (dialed o waits) = subst (KeepsCounters cut.globals) e (
      reconnected-KeepsCounters cut.calls cut.globals
        (connect_with_retry rs cut.connector cut.globals)
        (connect_with_retry-SameCounters rs cut.connector cut.globals)) in
    record {
      active = kept.active ∙ off.active;
      completed = kept.completed ∙ off.completed;
      total = kept.total ∙ off.total;
    }
