-- ===== src/Heartbeat/Ticks.antt =====
-- The ticks of heartbeatLoop in client/heartbeat.go, one at a time.
use tunnel_agent.Base.{ℕ, ◌≡◌, refl, ◌∙◌, true, false, [], ◌∷◌, ◌++◌, some, inc64, length, ◌<◌, ◌≤◌}
use tunnel_agent.Connector.{Connector, send_capacity, send_frame}
use tunnel_agent.Connector.Queue.{queued, overflows, unconnected, send_frame-Sends}
use tunnel_agent.Globals.{Globals, count}
use tunnel_agent.Metrics.{
  increment_heartbeats_failed, increment_heartbeats_sent, set_last_heartbeat_time,
}
use tunnel_agent.Heartbeat.{heartbeat_frame, note_sent, beat}
use tunnel_agent.Protocol.{Protocol}

-- What a tick finds.
pub data Ticks (p : Protocol) (now : ℕ) (c : Connector) (g : Globals) : Type 0 where
  idle : c.connected ≡ false → beat p false now c g ≡ some (c, g) → Ticks p now c g
  sent :
      (g' : Globals)
      → c.connected ≡ true
      → length c.send_ch < send_capacity
      → beat p false now c g ≡ some (record c { send_ch = c.send_ch ++ heartbeat_frame p ∷ [] }, g')
      → g'.metrics.heartbeats_sent ≡ inc64 g.metrics.heartbeats_sent
      → g'.metrics.heartbeats_failed ≡ g.metrics.heartbeats_failed
      → g'.metrics.last_heartbeat_time ≡ now
      → Ticks p now c g
  failed :
      (g' : Globals)
      → c.connected ≡ true
      → send_capacity ≤ length c.send_ch
      → beat p false now c g ≡ some (c, g')
      → g'.metrics.heartbeats_sent ≡ g.metrics.heartbeats_sent
      → g'.metrics.heartbeats_failed ≡ inc64 g.metrics.heartbeats_failed
      → Ticks p now c g

connected_beat :
    (p : Protocol) (now : ℕ) (c : Connector) (g : Globals)
    → c.connected ≡ true
    → beat p false now c g ≡ some (note_sent (send_frame (heartbeat_frame p) c) now g)
unfolding beat
connected_beat p now c g on = rw on refl

-- A tick of a heartbeat that is not stopped leaves everything as it is where there is no connection;
-- otherwise it puts one heartbeat frame behind the queue, counts it and notes the time, or, where the
-- queue is full, changes nothing but the count of failed heartbeats.
pub beat-Ticks : (p : Protocol) (now : ℕ) (c : Connector) (g : Globals) → Ticks p now c g
beat-Ticks p now c g = elim (send_frame-Sends (heartbeat_frame p) c) [
  | queued on room e ↦
      sent (count (set_last_heartbeat_time now) (count increment_heartbeats_sent g)) on room
        (connected_beat p now c g on ∙ (unfold note_sent in rw e refl)) refl refl refl
  | overflows on full e ↦
      failed (count increment_heartbeats_failed g) on full
        (connected_beat p now c g on ∙ (unfold note_sent in rw e refl)) refl refl
  | unconnected off e ↦ idle off (unfold beat in rw off refl)
]
