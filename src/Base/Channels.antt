-- ===== src/Base/Channels.antt =====
-- Go channels. A send in a `select` that is ready on a closed channel panics, and so does a second
-- close; a receive takes the oldest value, and on a drained closed channel reports the close.
use Prim.Native.Nat.{ℕ}
use mathlib.Core.Bool.{Bool, true, false}
use mathlib.Core.List.{List, [], ◌∷◌, ◌++◌}
use tunnel_agent.Base.Tests.{ltb, if◌then◌else◌}
use tunnel_agent.Base.Lists.{length}

pub record Chan (A : Type 0) : Type 0 where
  pub items : List A
  pub closed : Bool

abbrev pub open_chan : {A : Type 0} → Chan A
open_chan = record { items = []; closed = false }

pub data Sent (A : Type 0) : Type 0 where
  sent : Chan A → Sent A
  full : Sent A
  send_panic : Sent A

unfoldable pub send : {A : Type 0} → ℕ → A → Chan A → Sent A
send capacity x c =
    if c.closed
    then send_panic
    else if ltb (length c.items) capacity
    then sent (record c { items = c.items ++ x ∷ [] })
    else full

pub data Received (A : Type 0) : Type 0 where
  received : A → Chan A → Received A
  drained : Received A
  empty : Received A

receive_items : {A : Type 0} → List A → Bool → Received A
receive_items (x ∷ xs) closed = received x (record { items = xs; closed = closed })
receive_items [] true = drained
receive_items [] false = empty

unfoldable pub receive : {A : Type 0} → Chan A → Received A
unfolding receive_items
receive c = receive_items c.items c.closed
