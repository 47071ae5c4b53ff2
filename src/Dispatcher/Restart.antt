-- ===== src/Dispatcher/Restart.antt =====
-- Stop and Start of client/dispatcher.go: the context is cancelled for good.
use tunnel_agent.Base.{ℕ, suc, true, ◌≡◌, refl, List, [], ◌∷◌, none, arith}
use tunnel_agent.Dispatcher.{Dispatcher, start, stop, Net, Host, exits, read_turn, read_loop}
use tunnel_agent.Protocol.{Protocol}

-- A call that a user of the dispatcher may make.
pub data Call : Type 0 where
  start_call stop_call : Call

abbrev pub apply : Call → Dispatcher → Dispatcher
apply start_call d = (start d).0
apply stop_call d = stop d

unfoldable pub apply_all : List Call → Dispatcher → Dispatcher
apply_all [] d = d
apply_all (c ∷ cs) d = apply_all cs (apply c d)

apply-cancelled : (c : Call) (d : Dispatcher) → d.cancelled ≡ true → (apply c d).cancelled ≡ true
unfolding start stop
apply-cancelled start_call d h = ground arith
apply-cancelled stop_call d h = refl

pub apply_all-cancelled :
    (cs : List Call) (d : Dispatcher) → d.cancelled ≡ true → (apply_all cs d).cancelled ≡ true
unfolding apply_all
apply_all-cancelled [] d h = h
apply_all-cancelled (c ∷ cs) d h = apply_all-cancelled cs (apply c d) (apply-cancelled c d h)

-- After a Stop, Start succeeds and reports the dispatcher as running.
pub start-stop :
    (d : Dispatcher) → ((start (stop d)).1 ≡ none) × ((start (stop d)).0.running ≡ true)
unfolding start stop
start-stop d = (refl, refl)

module _ {Wire S : Type 0} (p : Protocol) (net : Net Wire) (h : Host Wire S) where
  pub read_loop_cancelled :
      (rounds : ℕ) (s : S)
      → (h.dispatcher s).cancelled ≡ true
      → read_loop p net h (suc rounds) s ≡ (s, true)
  unfolding read_loop read_turn
  read_loop_cancelled rounds s gone = rw (turn, read_loop)
    where
      turn : read_turn p net h s ≡ exits s
      turn = rw gone

  -- Yet once a dispatcher has been stopped, whatever is called on it later, the loop that a Start
  -- begins returns in its first round: it reads nothing, and changes nothing.
  pub read_loop_stopped :
      (cs : List Call) (d : Dispatcher) (rounds : ℕ) (s : S)
      → h.dispatcher s ≡ apply_all cs (stop d)
      → read_loop p net h (suc rounds) s ≡ (s, true)
  unfolding stop
  read_loop_stopped cs d rounds s e =
      read_loop_cancelled rounds s (rw e (apply_all-cancelled cs (stop d) refl))
