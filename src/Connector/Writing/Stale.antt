-- ===== src/Connector/Writing/Stale.antt =====
-- The write loop of an earlier connection, which Reconnect of client/connector.go leaves running.
use tunnel_agent.Base.{ℕ, false, ◌≡◌, ◌≢◌, refl, List, [], ◌∷◌, ◌++◌, Option, none, some, ap, ◌∙◌}
use tunnel_agent.Connector.{Connector, Outcome, disconnect, disconnect_from}
use tunnel_agent.Connector.Writing.{
  Writer, Attempt, frame_taken, leaves, write_event, exited, take_frame, encode, flush_last, flush,
}
use tunnel_agent.Errors.{GoError}
use tunnel_agent.Globals.{Globals, count}
use tunnel_agent.Metrics.{increment_frames_sent}
use tunnel_agent.Connector.Queue.{disconnect-some}
use tunnel_agent.Protocol.{Frame}

-- Whatever connection a write loop writes to, when it takes the last queued frame and its flush
-- fails, it closes the connector's present connection, and the frame is gone from the queue.
pub stale_flush_disconnects :
    (a : Attempt) (w : Writer) (c : Connector) (g : Globals) (frame : Frame) (k : ℕ) (e : GoError)
    → c.conn ≡ some k
    → w.conn ≢ k
    → c.send_ch ≡ frame ∷ []
    → a.encoding ≡ none
    → a.flushing ≡ some e
    → (o : Outcome) × (write_event (frame_taken a) w c g ≡ leaves o)
      × (o.connector.connected ≡ false)
      × (o.connector.conn ≡ none)
      × (o.connector.send_ch ≡ [])
unfolding write_event
stale_flush_disconnects a w c g frame k e on other q enc fl =
    let c' = exited w (record c { send_ch = [] }) in
    let g' = count increment_frames_sent g in
    let cut = disconnect-some k a.closing a.now c' g' on in
    (
      disconnect a.closing a.now c' g',
      ap (λ (l : List Frame). take_frame l a w c g) q
          ∙ (unfold take_frame in
              ap (λ (x : Option GoError). encode x frame a w (record c { send_ch = [] }) g) enc
              ∙ (unfold encode flush_last in
                  ap
                    (λ (x : Option GoError).
                      flush x a (record w { written = w.written ++ frame ∷ [] })
                        (record c { send_ch = [] }) g')
                    fl
                  ∙ (unfold flush in refl))),
      rw cut (unfold disconnect_from in refl),
      rw cut (unfold disconnect_from in refl),
      rw cut (unfold disconnect_from in refl),
    )
