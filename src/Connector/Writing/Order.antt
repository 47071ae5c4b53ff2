-- ===== src/Connector/Writing/Order.antt =====
-- The queue and one write loop of client/connector.go together, as one queue of frames.
use tunnel_agent.Metrics.{increment_frames_sent}
use tunnel_agent.Base.{
  ◌≡◌, refl, sym, ap, ◌∙◌, List, [], ◌∷◌, ◌++◌, Option, none, some, append_assoc, subst, eq_of_some,
}
use tunnel_agent.Connector.{Connector, send_frame}
use tunnel_agent.Connector.Queue.{queued, overflows, unconnected, send_frame-Sends}
use tunnel_agent.Connector.Writing.{
  Writer, Attempt, WriteEvent, context_done, frame_taken, timer_fired, Written, stays, leaves,
  waits, write_event, flush, flush_last, encode, take_frame,
}
use tunnel_agent.Errors.{GoError}
use tunnel_agent.Globals.{Globals, count}
use tunnel_agent.Protocol.{Frame}

-- All that the connector has accepted and this loop has not lost, oldest first.
abbrev pub stream_of : Writer → Connector → List Frame
stream_of w c = w.written ++ c.send_ch

-- While the loop stays, the frames are the same, in the same order.
abbrev Kept : List Frame → Written → Type 0
Kept frames (stays w c g) = stream_of w c ≡ frames
Kept frames (leaves o) = Unit
Kept frames waits = Unit

flush-Kept :
    (e : Option GoError) (a : Attempt) (w : Writer) (c : Connector) (g : Globals)
    → Kept (stream_of w c) (flush e a w c g)
unfolding flush
flush-Kept none a w c g = refl
flush-Kept (some e) a w c g = tt

flush_last-Kept :
    (left : List Frame) (a : Attempt) (w : Writer) (c : Connector) (g : Globals)
    → Kept (stream_of w c) (flush_last left a w c g)
unfolding flush_last
flush_last-Kept [] a w c g = flush-Kept a.flushing a w c g
flush_last-Kept (f ∷ fs) a w c g = refl

encode-Kept :
    (e : Option GoError) (f : Frame) (a : Attempt) (w : Writer) (c : Connector) (g : Globals)
    → Kept (w.written ++ f ∷ c.send_ch) (encode e f a w c g)
unfolding encode
encode-Kept (some e) f a w c g = tt
encode-Kept none f a w c g =
    subst
      (λ (l : List Frame). Kept l (
        flush_last c.send_ch a (record w { written = w.written ++ f ∷ [] }) c
          (count increment_frames_sent g)))
      (append_assoc w.written (f ∷ []) c.send_ch)
      (flush_last-Kept c.send_ch a (record w { written = w.written ++ f ∷ [] }) c
        (count increment_frames_sent g))

take_frame-Kept :
    (queue : List Frame) (a : Attempt) (w : Writer) (c : Connector) (g : Globals)
    → Kept (w.written ++ queue) (take_frame queue a w c g)
unfolding take_frame
take_frame-Kept [] a w c g = tt
take_frame-Kept (f ∷ rest) a w c g = encode-Kept a.encoding f a w (record c { send_ch = rest }) g

write_event-Kept :
    (ev : WriteEvent) (w : Writer) (c : Connector) (g : Globals)
    → Kept (stream_of w c) (write_event ev w c g)
unfolding write_event
write_event-Kept context_done w c g = tt
write_event-Kept (frame_taken a) w c g = take_frame-Kept c.send_ch a w c g
write_event-Kept (timer_fired a) w c g = flush-Kept a.flushing a w c g

-- The callers of SendFrame and one write loop, in any interleaving. `accepted` lists the frames for
-- which SendFrame reported no error, oldest first.
pub record Traffic : Type 0 where
  pub writer : Writer
  pub connector : Connector
  pub globals : Globals
  pub accepted : List Frame

pub data TrafficEvent : Type 0 where
  sends : Frame → TrafficEvent
  writes : WriteEvent → TrafficEvent

note_sent : Frame → Connector × Option GoError → Traffic → Traffic
note_sent frame (c, none) t = record t { connector = c; accepted = t.accepted ++ frame ∷ [] }
note_sent frame (c, some e) t = record t { connector = c }

note_written : Written → Traffic → Option Traffic
note_written (stays w c g) t = some (record t { writer = w; connector = c; globals = g })
note_written (leaves o) t = none
note_written waits t = some t

-- `none` once the write loop has returned.
unfoldable pub traffic_step : TrafficEvent → Traffic → Option Traffic
unfolding note_sent note_written
traffic_step (sends frame) t = some (note_sent frame (send_frame frame t.connector) t)
traffic_step (writes ev) t = note_written (write_event ev t.writer t.connector t.globals) t

abbrev pub traffic_then : (Traffic → Option Traffic) → Option Traffic → Option Traffic
traffic_then f none = none
traffic_then f (some t) = f t

unfoldable pub traffic_run : List TrafficEvent → Traffic → Option Traffic
traffic_run [] t = some t
traffic_run (ev ∷ evs) t = traffic_then (traffic_run evs) (traffic_step ev t)

-- The frames encoded and the frames queued are the frames accepted.
abbrev pub IsOrdered : Traffic → Type 0
IsOrdered t = stream_of t.writer t.connector ≡ t.accepted

note_sent-IsOrdered :
    (frame : Frame) (t : Traffic)
    → IsOrdered t
    → IsOrdered (note_sent frame (send_frame frame t.connector) t)
note_sent-IsOrdered frame t h = elim (send_frame-Sends frame t.connector) [
  | queued on room e ↦ rw e (
      unfold note_sent in
      (sym (append_assoc t.writer.written t.connector.send_ch (frame ∷ []))
        ∙ ap (λ (l : List Frame). l ++ frame ∷ []) h))
  | overflows on full e ↦ rw e (unfold note_sent in h)
  | unconnected off e ↦ rw e (unfold note_sent in h)
]

note_written-IsOrdered :
    (r : Written) (t t' : Traffic)
    → IsOrdered t
    → Kept (stream_of t.writer t.connector) r
    → note_written r t ≡ some t'
    → IsOrdered t'
unfolding note_written
note_written-IsOrdered (stays w c g) t t' h k e = subst IsOrdered (eq_of_some e) (k ∙ h)
note_written-IsOrdered (leaves o) t t' h k e = cc
note_written-IsOrdered waits t t' h k e = subst IsOrdered (eq_of_some e) h

traffic_step-IsOrdered :
    (ev : TrafficEvent) (t t' : Traffic) → IsOrdered t → traffic_step ev t ≡ some t' → IsOrdered t'
unfolding traffic_step
traffic_step-IsOrdered (sends frame) t t' h e =
    subst IsOrdered (eq_of_some e) (note_sent-IsOrdered frame t h)
traffic_step-IsOrdered (writes ev) t t' h e =
    note_written-IsOrdered (write_event ev t.writer t.connector t.globals) t t' h
      (write_event-Kept ev t.writer t.connector t.globals) e

-- With one write loop the connector is a queue: in every interleaving, as long as the loop runs,
-- each accepted frame has been encoded once or waits in the queue, in the order of acceptance.
pub traffic_run-IsOrdered :
    (evs : List TrafficEvent) (t t' : Traffic)
    → IsOrdered t
    → traffic_run evs t ≡ some t'
    → IsOrdered t'
unfolding traffic_run
traffic_run-IsOrdered [] t t' h e = subst IsOrdered (eq_of_some e) h
traffic_run-IsOrdered (ev ∷ evs) t t' h e =
    go (traffic_step ev t) refl (λ m k r. traffic_run-IsOrdered evs m t' k r) e
  where
    go :
        (m : Option Traffic)
        → traffic_step ev t ≡ m
        → ((m' : Traffic) → IsOrdered m' → traffic_run evs m' ≡ some t' → IsOrdered t')
        → traffic_then (traffic_run evs) m ≡ some t'
        → IsOrdered t'
    go none s ih r = cc
    go (some m') s ih r = ih m' (traffic_step-IsOrdered ev t m' h s) r
