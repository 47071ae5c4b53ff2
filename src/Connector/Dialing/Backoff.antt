-- ===== src/Connector/Dialing/Backoff.antt =====
-- The waits between the dials of connectWithRetry in client/connector.go.
use tunnel_agent.Base.{ℕ, ◌+◌, ◌*◌, ◌≤◌, ◌≡◌, refl, List, [], ◌∷◌, arith, All, All-append_one}
use tunnel_agent.Connector.{Connector}
use tunnel_agent.Globals.{Globals}
use tunnel_agent.Connector.Dialing.{
  Round, Loop, Dialed, dialed, dialing, Turn, ends, goes_on, aggressive, next_backoff,
  connect_round, connect_loop, connect_with_retry, start_loop,
}
use tunnel_agent.Errors.{ok, err, Result}

abbrev pub waits_of : Dialed → List ℕ
waits_of (dialed o waits) = waits
waits_of (dialing l) = l.waits

-- Every wait begun so far is at most `limit`, and so is the next one before it grows.
abbrev IsBounded : ℕ → Loop → Type 0
IsBounded limit l = All (λ w. w ≤ limit) l.waits × (l.backoff ≤ limit)

abbrev TurnBounded : ℕ → Turn → Type 0
TurnBounded limit (ends d) = All (λ w. w ≤ limit) (waits_of d)
TurnBounded limit (goes_on l) = IsBounded limit l

-- Whatever bounds twice the cap bounds every growth of the wait.
module _ (c : Connector) (g : Globals) (limit : ℕ) (cap : c.max_backoff * 2 ≤ limit) where
  aggressive-le : (errors backoff : ℕ) → backoff ≤ limit → aggressive c errors backoff ≤ limit
  unfolding aggressive
  aggressive-le errors backoff h = ground (arith, cap)

  next_backoff-le : (backoff : ℕ) → next_backoff c backoff ≤ limit
  unfolding next_backoff
  next_backoff-le backoff = ground (arith, cap)

  connect_round-TurnBounded :
      (r : Round) (l : Loop) → IsBounded limit l → TurnBounded limit (connect_round r c g l)
  unfolding connect_round
  connect_round-TurnBounded r l h = turn r.dial refl
    where
      grown : ℕ
      grown = aggressive c (l.consecutive_errors + 1) l.backoff

      turn : (d : Result ℕ) → r.dial ≡ d → TurnBounded limit (connect_round r c g l)
      turn (ok conn) e = rw (e, connect_round) (ground (arith, h))
      turn (err x) e =
          rw (e, connect_round)
            (ground (
              arith,
              aggressive-le (l.consecutive_errors + 1) l.backoff h.1,
              next_backoff-le grown,
              All-append_one (λ (w : ℕ). w ≤ limit) l.waits grown h.0,
            ))

  connect_loop-bounded :
      (rs : List Round) (l : Loop)
      → IsBounded limit l
      → All (λ w. w ≤ limit) (waits_of (connect_loop rs c g l))
  unfolding connect_loop
  connect_loop-bounded [] l h = h.0
  connect_loop-bounded (r ∷ rs) l h =
      turn (connect_round r c g l) refl (λ l' b. connect_loop-bounded rs l' b)
    where
      turn :
          (t : Turn)
          → connect_round r c g l ≡ t
          → ((l' : Loop)
              → IsBounded limit l'
              → All (λ w. w ≤ limit) (waits_of (connect_loop rs c g l')))
          → All (λ w. w ≤ limit) (waits_of (connect_loop (r ∷ rs) c g l))
      turn (ends d) e ih = rw (e, connect_loop) (rw e at (connect_round-TurnBounded r l h))
      turn (goes_on l') e ih =
          rw (e, connect_loop) (ih l' (rw e at (connect_round-TurnBounded r l h)))

-- However long dialling fails, no wait is longer than both the retry interval and twice the cap: a
-- limit that is at least these is at least every wait.
pub connect_with_retry-bounded :
    (rs : List Round) (c : Connector) (g : Globals) (limit : ℕ)
    → c.retry_interval ≤ limit
    → c.max_backoff * 2 ≤ limit
    → All (λ w. w ≤ limit) (waits_of (connect_with_retry rs c g))
unfolding connect_with_retry
connect_with_retry-bounded rs c g limit first cap =
    connect_loop-bounded c g limit cap rs (start_loop c) (tt, first)
