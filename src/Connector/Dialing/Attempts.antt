-- ===== src/Connector/Dialing/Attempts.antt =====
-- How often connectWithRetry of client/connector.go dials, and how it ends.
use tunnel_agent.Base.{
  ℕ, suc, zero, ◌+◌, ◌≤◌, ◌<◌, true, false, ◌≡◌, ◌≢◌, refl, List, [], ◌∷◌, ◌++◌, none, some, inc64,
  arith, All, ℤ, pos, negsuc, length, length-append, subst, ◌∙◌, sym, ap, append-nil,
  All-append_one, if_both,
}
use tunnel_agent.Connector.{Connector, ConnectorCall, error_call, Outcome}
use tunnel_agent.Globals.{Globals}
use tunnel_agent.Connector.Dialing.{
  failure_report, Round, Loop, Dialed, dialed, dialing, ends, goes_on, connect_round, connect_loop,
  exhausted, failed, waited, give_up, connect_with_retry, start_loop, established, stopped,
}
use tunnel_agent.Errors.{ok, err, GoError}

-- A round whose dial fails, with the context not done.
abbrev pub Fails : Round → Type 0
Fails r = (r.done_before ≡ false) × (r.done_waiting ≡ false) × ((e : GoError) × (r.dial ≡ err e))

connect_loop_goes :
    (r : Round) (rs : List Round) (c : Connector) (g : Globals) (l l' : Loop)
    → connect_round r c g l ≡ goes_on l'
    → connect_loop (r ∷ rs) c g l ≡ connect_loop rs c g l'
unfolding connect_loop
connect_loop_goes r rs c g l l' e = rw (e, connect_loop)

connect_loop_ends :
    (r : Round) (rs : List Round) (c : Connector) (g : Globals) (l : Loop) (d : Dialed)
    → connect_round r c g l ≡ ends d
    → connect_loop (r ∷ rs) c g l ≡ d
unfolding connect_loop
connect_loop_ends r rs c g l d e = rw (e, connect_loop)

failing_goes :
    (r : Round) (e : GoError) (c : Connector) (g : Globals) (l : Loop)
    → r.done_before ≡ false
    → r.done_waiting ≡ false
    → r.dial ≡ err e
    → exhausted c.max_retries l.retries ≡ false
    → connect_round r c g l ≡ goes_on (waited c (failed c e l))
unfolding connect_round
failing_goes r e c g l before after d free = rw (before, d, connect_round) (rw (free, after))

failing_ends :
    (r : Round) (e : GoError) (c : Connector) (g : Globals) (l : Loop)
    → r.done_before ≡ false
    → r.dial ≡ err e
    → exhausted c.max_retries l.retries ≡ true
    → connect_round r c g l ≡ ends (stopped c g (failed c e l) (some (give_up l.retries e)))
unfolding connect_round
failing_ends r e c g l before d met = rw (before, d, connect_round) (rw met)

succeeding_ends :
    (r : Round) (conn : ℕ) (c : Connector) (g : Globals) (l : Loop)
    → r.done_before ≡ false
    → r.dial ≡ ok conn
    → connect_round r c g l ≡ ends (established conn r.now c g l)
unfolding connect_round
succeeding_ends r conn c g l before d = rw (before, d, connect_round)

-- Whether the limit lets the loop go on after `k` failed dials: a limit of 0 or below never ends it.
abbrev pub Allows : ℤ → ℕ → Type 0
Allows (pos zero) k = Unit
Allows (pos (suc n)) k = k ≤ suc n
Allows (negsuc n) k = Unit

Allows-exhausted : (m : ℤ) (k j : ℕ) → Allows m k → j < k → exhausted m j ≡ false
Allows-exhausted (pos zero) k j a h = refl
Allows-exhausted (pos (suc n)) k j a h = ground arith
Allows-exhausted (negsuc n) k j a h = refl

Allows-unlimited : (m : ℤ) (k : ℕ) → ((n : ℕ) → m ≢ pos (suc n)) → Allows m (0 + k)
Allows-unlimited (pos zero) k h = tt
Allows-unlimited (pos (suc n)) k h = absurd (h n refl)
Allows-unlimited (negsuc n) k h = tt

-- Calls of onError alone.
abbrev pub IsErrorCall : ConnectorCall → Type 0
IsErrorCall (error_call e) = Unit
IsErrorCall _ = ⊥

abbrev pub OnlyErrors : List ConnectorCall → Type 0
OnlyErrors = All IsErrorCall

failed-OnlyErrors :
    (c : Connector) (e : GoError) (l : Loop) → OnlyErrors l.calls → OnlyErrors (failed c e l).calls
failed-OnlyErrors c e l h =
    if_both (λ (cs : List ConnectorCall). OnlyErrors (l.calls ++ cs)) c.on_error _ _
      (All-append_one IsErrorCall l.calls (error_call (failure_report c l.retries e)) h tt)
      (subst OnlyErrors (sym (append-nil l.calls)) h)

-- Failing rounds that the limit allows only count: the loop goes on with the rounds behind them,
-- one wait and one retry later for each.
pub connect_loop-append :
    (rs more : List Round) (c : Connector) (g : Globals) (l : Loop)
    → All Fails rs
    → Allows c.max_retries (l.retries + length rs)
    → (l' : Loop) × (connect_loop (rs ++ more) c g l ≡ connect_loop more c g l')
      × (l'.retries ≡ l.retries + length rs)
      × (length l'.waits ≡ length l.waits + length rs)
      × (OnlyErrors l.calls → OnlyErrors l'.calls)
unfolding connect_loop
connect_loop-append [] more c g l fs a = (l, refl, omega arith, omega arith, (λ h. h))
connect_loop-append (r ∷ rs) more c g l ((before, after, (e, d)), fs) a =
    let free : exhausted c.max_retries l.retries ≡ false =
      Allows-exhausted c.max_retries (l.retries + length (r ∷ rs)) l.retries a (omega arith) in
    let l₁ : Loop = waited c (failed c e l) in
    let (l', same, k, n, calls) =
      connect_loop-append rs more c g l₁ fs (subst (Allows c.max_retries) (omega arith) a) in
    (
      l',
      connect_loop_goes r (rs ++ more) c g l l₁ (failing_goes r e c g l before after d free) ∙ same,
      omega arith,
      omega (arith, length-append l.waits ((failed c e l).backoff ∷ []), n),
      (λ h. calls (failed-OnlyErrors c e l h)),
    )

-- With a limit of n + 1 retries and n + 2 dials that fail, the loop ends with an error after the
-- last, whatever the network would do later; it has waited n + 1 times, and the connector and the
-- counters are as they were.
pub connect_with_retry_gives_up :
    (n : ℕ) (rs more : List Round) (r : Round) (e : GoError) (c : Connector) (g : Globals)
    → c.max_retries ≡ pos (suc n)
    → All Fails rs
    → length rs ≡ suc n
    → r.done_before ≡ false
    → r.dial ≡ err e
    → (o : Outcome) × (waits : List ℕ) × (connect_with_retry (rs ++ r ∷ more) c g ≡ dialed o waits)
      × (o.connector ≡ c)
      × (o.globals ≡ g)
      × (length waits ≡ suc n)
      × (o.result ≡ some (give_up (suc n) e))
unfolding connect_with_retry
connect_with_retry_gives_up n rs more r e c g m fs len before d =
    let (l, same, k, w, calls) =
      connect_loop-append rs (r ∷ more) c g (start_loop c) fs (rw m (omega arith)) in
    let count : l.retries ≡ suc n = omega arith in
    let met : exhausted c.max_retries l.retries ≡ true = rw (m, count) (ground arith) in
    (
      record {
        connector = c;
        globals = g;
        calls = (failed c e l).calls;
        result = some (give_up l.retries e);
      },
      l.waits,
      same ∙ connect_loop_ends r more c g l _ (failing_ends r e c g l before d met),
      refl,
      refl,
      omega arith,
      rw count,
    )

-- Without a positive limit failing rounds never end the loop: it waits once for each.
pub connect_with_retry_unlimited :
    (rs : List Round) (c : Connector) (g : Globals)
    → ((n : ℕ) → c.max_retries ≢ pos (suc n))
    → All Fails rs
    → (l : Loop) × (connect_with_retry rs c g ≡ dialing l) × (length l.waits ≡ length rs)
unfolding connect_with_retry
connect_with_retry_unlimited rs c g m fs =
    let (l, same, k, n, calls) =
      connect_loop-append rs [] c g (start_loop c) fs
        (Allows-unlimited c.max_retries (length rs) m) in
    (
      l,
      ap (λ (q : List Round). connect_loop q c g (start_loop c)) (sym (append-nil rs))
          ∙ same
          ∙ (unfold connect_loop in refl),
      omega arith,
    )

pub connect_with_retry-established :
    (rs more : List Round) (r : Round) (conn : ℕ) (c : Connector) (g : Globals)
    → All Fails rs
    → Allows c.max_retries (length rs)
    → r.done_before ≡ false
    → r.dial ≡ ok conn
    → (l : Loop) × (connect_with_retry (rs ++ r ∷ more) c g ≡ established conn r.now c g l)
      × (length l.waits ≡ length rs)
      × OnlyErrors l.calls
unfolding connect_with_retry
connect_with_retry-established rs more r conn c g fs a before d =
    let (l, same, k, n, calls) =
      connect_loop-append rs (r ∷ more) c g (start_loop c) fs
        (subst (Allows c.max_retries) (omega arith) a) in
    (
      l,
      same ∙ connect_loop_ends r more c g l _ (succeeding_ends r conn c g l before d),
      omega arith,
      calls tt,
    )

-- The first dial that succeeds within the limit ends the loop without an error, after one wait for
-- each failure: the connector is connected on that connection, which has a new write loop, and is
-- otherwise as before, with its queue; one connection more is counted, in all and as active.
pub connect_with_retry_succeeds :
    (rs more : List Round) (r : Round) (conn : ℕ) (c : Connector) (g : Globals)
    → All Fails rs
    → Allows c.max_retries (length rs)
    → r.done_before ≡ false
    → r.dial ≡ ok conn
    → (o : Outcome) × (waits : List ℕ) × (connect_with_retry (rs ++ r ∷ more) c g ≡ dialed o waits)
      × (o.result ≡ none)
      × (o.connector
          ≡ record c { conn = some conn; connected = true; writers = c.writers ++ conn ∷ [] })
      × (o.globals.metrics.connections_total ≡ inc64 g.metrics.connections_total)
      × (o.globals.metrics.connections_active ≡ inc64 g.metrics.connections_active)
      × (length waits ≡ length rs)
connect_with_retry_succeeds rs more r conn c g fs a before d =
    let (l, same, n, calls) = connect_with_retry-established rs more r conn c g fs a before d in
    (_, l.waits, same, refl, refl, refl, refl, n)
