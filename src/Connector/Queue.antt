-- ===== src/Connector/Queue.antt =====
-- SendFrame and Disconnect of client/connector.go on the connector's state.
use tunnel_agent.Base.{
  ℕ, ◌≤◌, ◌<◌, true, false, ◌≡◌, refl, ◌⊎◌, inl, inr, [], ◌∷◌, ◌++◌, Option, none, some, arith,
  length, length-append, dec64, ltb, if◌then◌else◌, Option-cases, Bool-cases, ap,
}
use tunnel_agent.Connector.{Connector, send_capacity, send_frame, disconnect, disconnect_from}
use tunnel_agent.Errors.{GoError, not_connected, queue_full}
use tunnel_agent.Globals.{Globals}
use tunnel_agent.Protocol.{Frame}

-- The flag says whether there is a connection, and the queue is within its capacity.
pub record IsConsistent (c : Connector) : Type 0 where
  pub linked :
      ((c.connected ≡ true) × ((k : ℕ) × (c.conn ≡ some k)))
      ⊎ ((c.connected ≡ false) × (c.conn ≡ none))
  pub bounded : length c.send_ch ≤ send_capacity

-- What SendFrame does: never waits; the frame goes behind the others exactly when the connector is
-- connected and the queue has room, and otherwise nothing changes and the error names the reason.
pub data Sends (frame : Frame) (c : Connector) : Type 0 where
  queued :
      c.connected ≡ true
      → length c.send_ch < send_capacity
      → send_frame frame c ≡ (record c { send_ch = c.send_ch ++ frame ∷ [] }, none)
      → Sends frame c
  overflows :
      c.connected ≡ true
      → send_capacity ≤ length c.send_ch
      → send_frame frame c ≡ (c, some queue_full)
      → Sends frame c
  unconnected : c.connected ≡ false → send_frame frame c ≡ (c, some not_connected) → Sends frame c

pub send_frame-Sends : (frame : Frame) (c : Connector) → Sends frame c
send_frame-Sends frame c = elim (Bool-cases c.connected) [
  | inr off ↦ unconnected off (unfold send_frame in ground arith)
  | inl on ↦ elim (Bool-cases (ltb (length c.send_ch) send_capacity)) [
    | inl room ↦ queued on (ground arith) (unfold send_frame in ground arith)
    | inr none_left ↦ overflows on (ground arith) (unfold send_frame in ground arith)
  ]
]

pub send_frame-IsConsistent :
    (frame : Frame) (c : Connector) → IsConsistent c → IsConsistent (send_frame frame c).0
unfolding send_frame
send_frame-IsConsistent frame c h = ground (arith, length-append c.send_ch (frame ∷ []))

-- The two cases of Disconnect.
pub disconnect-none :
    (closing : Option GoError) (now : ℕ) (c : Connector) (g : Globals)
    → c.conn ≡ none
    → disconnect closing now c g ≡ record { connector = c; globals = g; calls = []; result = none }
unfolding disconnect
disconnect-none closing now c g off = ap (λ (o : Option ℕ). disconnect_from o closing now c g) off

pub disconnect-some :
    (k : ℕ) (closing : Option GoError) (now : ℕ) (c : Connector) (g : Globals)
    → c.conn ≡ some k
    → disconnect closing now c g ≡ disconnect_from (some k) closing now c g
unfolding disconnect
disconnect-some k closing now c g on = ap (λ (o : Option ℕ). disconnect_from o closing now c g) on

-- The connector is unconnected afterwards, its queue and its write loops are as they were.
pub disconnect-IsConsistent :
    (closing : Option GoError) (now : ℕ) (c : Connector) (g : Globals)
    → IsConsistent c
    → IsConsistent (disconnect closing now c g).connector
      × ((disconnect closing now c g).connector.connected ≡ false)
      × ((disconnect closing now c g).connector.writers ≡ c.writers)
      × ((disconnect closing now c g).connector.send_ch ≡ c.send_ch)
disconnect-IsConsistent closing now c g h = elim (Option-cases c.conn) [
  | inl off ↦ rw (disconnect-none closing now c g off) (h, ground arith, refl, refl)
  | inr (k, on) ↦ rw (disconnect-some k closing now c g on) (
      unfold disconnect_from in
      (record { linked = inr (refl, refl); bounded = h.bounded }, refl, refl, refl))
]

-- The gauge of active connections agrees with the flag.
abbrev pub IsCounted : Connector → Globals → Type 0
IsCounted c g = g.metrics.connections_active ≡ (if c.connected then 1 else 0)

pub disconnect-IsCounted :
    (closing : Option GoError) (now : ℕ) (c : Connector) (g : Globals)
    → IsConsistent c
    → IsCounted c g
    → IsCounted (disconnect closing now c g).connector (disconnect closing now c g).globals
disconnect-IsCounted closing now c g h n = elim (Option-cases c.conn) [
  | inl off ↦ rw (disconnect-none closing now c g off) n
  | inr (k, on) ↦
      rw (disconnect-some k closing now c g on) (unfold disconnect_from dec64 in ground arith)
]
