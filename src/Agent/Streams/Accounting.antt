-- ===== src/Agent/Streams/Accounting.antt =====
-- The stream counters and the manager of the agent of cmd/agent/main.go, over the stream frames and
-- the forwarding goroutines.
pub mod Forwards
use tunnel_agent.Base.{
  ℕ, ◌+◌, ◌%◌, ◌≡◌, refl, inl, inr, Bool, true, Option, none, some, arith, length, get_elem?, set,
  lookup, delete, nat_eq, length-insert, length-delete, word, inc64, dec64, if_both, ◌==◌,
  Option-cases, codes, Bytes,
}
use tunnel_agent.Auth.{Authenticator}
use tunnel_agent.Agent.{Agent, Forward, new_agent, stream_callback, stream_callbacks, note_check}
use tunnel_agent.Agent.Streams.{
  Handling, handled, blocked, crashed, after_call, close_quietly, handle_stream_frame,
  finish_forward, forward_result, end_stream, data_frame, opened, deliver_at, delivery_result,
  error_frame, error_sent,
}
use tunnel_agent.Connector.{Connector, send_frame}
use tunnel_agent.Errors.{GoError, Result, ok, err, error_text}
use tunnel_agent.Globals.{Globals, count}
use tunnel_agent.Metrics.{
  increment_streams_failed, increment_streams_completed, decrement_streams_active,
}
use tunnel_agent.Health.{healthy, degraded}
use tunnel_agent.Protocol.{Protocol, Frame}
use tunnel_agent.Stream.{Stream, created_call, closed_call, create_stream, get_stream}
use tunnel_agent.Stream.WellFormed.{
  WellFormed, created, create_stream_absent, create_stream_taken, SameIdentity,
  create_stream-WellFormed, write_stream-WellFormed,
}
use tunnel_agent.Stream.WellFormed.Closing.{
  closed_return-WellFormed, close_stream-Closes, missing, shuts, closed_return,
}
use tunnel_agent.Stream.Feed.{goes, waits, deliver-Delivers}

-- `open` streams are open and `done` have been closed; the counters are int64.
abbrev pub Gauges : Globals → ℕ → ℕ → Type 0
Gauges g n m =
    (g.metrics.streams_active ≡ n % word)
    × (g.metrics.streams_completed ≡ m % word)
    × (g.metrics.streams_total ≡ (n + m) % word)

created-Gauges :
    (check now id : ℕ) (g : Globals) (n m : ℕ)
    → Gauges g n m
    → Gauges (stream_callback check now (created_call id) g) (n + 1) m
unfolding stream_callback inc64
created-Gauges check now id g n m h = omega arith

closed-Gauges :
    (check now id : ℕ) (g : Globals) (n m : ℕ)
    → Gauges g (n + 1) m
    → Gauges (stream_callback check now (closed_call id) g) n (m + 1)
unfolding stream_callback inc64 dec64
closed-Gauges check now id g n m h =
    let g' = count increment_streams_completed (count decrement_streams_active g) in
    let moved : Gauges g' n (m + 1) = omega arith in
    if_both (λ (x : Globals). Gauges x n (m + 1)) (g'.metrics.streams_active == 0)
      (note_check check healthy (codes "No active streams") now g') g' moved moved

-- The manager is well formed, its callbacks are those of main, and the counters tell how many
-- streams are open, how many have been closed, and how many have been made.
pub record IsSound (a : Agent) : Type 0 where
  pub streams : WellFormed a.streams
  pub notes_created : a.streams.on_stream_created ≡ true
  pub notes_closed : a.streams.on_stream_closed ≡ true
  pub done : ℕ
  pub gauges : Gauges a.globals (length a.streams.streams) done

create-IsSound :
    (id now : ℕ) (a : Agent)
    → IsSound a
    → IsSound (after_call now (create_stream id now a.streams) a)
create-IsSound id now a h = elim (Option-cases (lookup id a.streams.streams)) [
  | inr (p, taken) ↦ rw (create_stream_taken id now p a.streams taken) (record {
    streams = h.streams;
    notes_created = h.notes_created;
    notes_closed = h.notes_closed;
    done = h.done;
    gauges = unfold stream_callbacks in h.gauges;
  })
  | inl absent ↦
      let kept : WellFormed (created id now a.streams) =
        rw (create_stream_absent id now a.streams absent) at
          (create_stream-WellFormed id now a.streams h.streams) in
      rw (create_stream_absent id now a.streams absent) (record {
        streams = kept;
        notes_created = h.notes_created;
        notes_closed = h.notes_closed;
        done = h.done;
        gauges =
            rw (h.notes_created, length-insert id (length a.streams.store) a.streams.streams absent)
              (unfold stream_callbacks in
                created-Gauges a.stream_check now id a.globals (length a.streams.streams) h.done
                  h.gauges);
      })
]

-- A handler that has returned leaves the agent sound; one that waits has changed nothing.
abbrev pub KeepsSound : Handling → Type 0
KeepsSound (handled a e) = IsSound a
KeepsSound blocked = Unit
KeepsSound crashed = ⊥

shut-IsSound :
    (id p now : ℕ) (s : Stream) (a : Agent)
    → IsSound a
    → lookup id a.streams.streams ≡ some p
    → WellFormed (closed_return id p s a.streams).manager
    → IsSound (after_call now (closed_return id p s a.streams) a)
shut-IsSound id p now s a h reg wf = record {
  streams = wf;
  notes_created = h.notes_created;
  notes_closed = h.notes_closed;
  done = h.done + 1;
  gauges = rw h.notes_closed (
      unfold stream_callbacks in
      closed-Gauges a.stream_check now id a.globals (length (delete id a.streams.streams)) h.done
        (rw (length-delete id p a.streams.streams h.streams.keys reg) h.gauges));
}

pub close_quietly-KeepsSound :
    (id now : ℕ) (a : Agent) → IsSound a → KeepsSound (close_quietly id now a)
unfolding close_quietly
close_quietly-KeepsSound id now a h = elim (close_stream-Closes id a.streams h.streams) [
  | missing absent e ↦ rw e (record {
    streams = h.streams;
    notes_created = h.notes_created;
    notes_closed = h.notes_closed;
    done = h.done;
    gauges = unfold stream_callbacks in h.gauges;
  })
  | shuts p s reg held name op e ↦ rw e (
      shut-IsSound id p now s a h reg
        (closed_return-WellFormed id p s a.streams h.streams reg held name))
]

-- What changes neither the manager nor the stream counters.
abbrev pub SameStreams : Agent → Agent → Type 0
SameStreams a b =
    (b.streams ≡ a.streams)
    × (b.globals.metrics.streams_active ≡ a.globals.metrics.streams_active)
    × (b.globals.metrics.streams_completed ≡ a.globals.metrics.streams_completed)
    × (b.globals.metrics.streams_total ≡ a.globals.metrics.streams_total)

SameStreams-IsSound : (a b : Agent) → SameStreams a b → IsSound a → IsSound b
SameStreams-IsSound a b (sm, x, y, z) h = record {
  streams = rw sm h.streams;
  notes_created = rw sm h.notes_created;
  notes_closed = rw sm h.notes_closed;
  done = h.done;
  gauges = rw (sm, x, y, z) h.gauges;
}

pub write-IsSound :
    (p : ℕ) (s t : Stream) (a : Agent)
    → IsSound a
    → get_elem? a.streams.store p ≡ some s
    → SameIdentity s t
    → IsSound (record a { streams = record a.streams { store = set a.streams.store p t } })
write-IsSound p s t a h held same = record {
  streams = write_stream-WellFormed p s t a.streams h.streams held same;
  notes_created = h.notes_created;
  notes_closed = h.notes_closed;
  done = h.done;
  gauges = h.gauges;
}

-- A data frame for a registered stream finds it open, so the send does not panic.
data_frame-KeepsSound :
    (p : Protocol) (now : ℕ) (takes_send : Bool) (frame : Frame) (o : Option ℕ) (a : Agent)
    → IsSound a
    → lookup frame.stream_id a.streams.streams ≡ o
    → KeepsSound (data_frame p now takes_send frame o a)
unfolding data_frame
data_frame-KeepsSound p now takes_send frame none a h e = h
data_frame-KeepsSound p now takes_send frame (some ptr) a h e =
    let (s, held, name, op) = h.streams.registered frame.stream_id ptr e in
    rw held (
      unfold deliver_at in
      (elim (deliver-Delivers takes_send frame.payload s op) [
        | goes t d pend same bound ↦ rw d (
            unfold delivery_result in
            if_both KeepsSound (p.is_end_stream frame) _ _
              (close_quietly-KeepsSound frame.stream_id now
                (record a { streams = record a.streams { store = set a.streams.store ptr t } })
                (write-IsSound ptr s t a h held same))
              (write-IsSound ptr s t a h held same))
        | waits d full ↦ rw d (unfold delivery_result in tt)
      ]))

opened-KeepsSound :
    (r : Result ℕ) (frame : Frame) (a : Agent) → IsSound a → KeepsSound (opened r frame a)
unfolding opened
opened-KeepsSound (err e) frame a h = h
opened-KeepsSound (ok s) frame a h = SameStreams-IsSound a _ (refl, refl, refl, refl) h

pub handle_stream_frame-KeepsSound :
    (p : Protocol) (now : ℕ) (takes_send : Bool) (frame : Frame) (a : Agent)
    → IsSound a
    → KeepsSound (handle_stream_frame p now takes_send frame a)
unfolding handle_stream_frame get_stream
handle_stream_frame-KeepsSound p now takes_send frame a h =
    if_both KeepsSound (frame.type == p.frame_open_stream) _ _
      (opened-KeepsSound (create_stream frame.stream_id now a.streams).result frame _
        (create-IsSound frame.stream_id now a h))
      (if_both KeepsSound (frame.type == p.frame_data) _ _
        (data_frame-KeepsSound p now takes_send frame (lookup frame.stream_id a.streams.streams) a h
          refl)
        (if_both KeepsSound (frame.type == p.frame_close) _ _
          (close_quietly-KeepsSound frame.stream_id now a h) h))

-- The agent that main makes is sound.
pub new_agent-IsSound :
    (server_addr : Bytes) (interval : ℕ) (auth : Authenticator) (now : ℕ)
    → IsSound (new_agent server_addr interval auth now)
unfolding new_agent lookup
new_agent-IsSound server_addr interval auth now = record {
  streams = record { keys = tt; registered = λ k p h. cc; others = λ p s h. cc };
  notes_created = refl;
  notes_closed = refl;
  done = 0;
  gauges = (refl, refl, refl);
}
