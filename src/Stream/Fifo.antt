-- ===== src/Stream/Fifo.antt =====
-- An open stream between the dispatcher (the FrameData case of handleStreamFrame in
-- cmd/agent/main.go) and its reader (Stream.Read of client/stream.go).
use tunnel_agent.Base.{
  ◌≡◌, refl, sym, ap, ◌∙◌, ℕ, Bool, inl, inr, List, [], ◌∷◌, ◌++◌, append_assoc, Option, none, some,
  Bytes,
}
use tunnel_agent.Stream.{Stream}
use tunnel_agent.Stream.Feed.{
  Delivery, delivered, stream_closed, delivery_blocks, delivery_panics, deliver, pending, goes,
  waits, deliver-Delivers, ReadSpec, read-ReadSpec,
}
use tunnel_agent.Stream.Reader.{ReadOutcome, read_returns, blocks, read}
use tunnel_agent.Stream.WellFormed.{IsOpen, SameIdentity}

-- A stream, the bytes that the dispatcher has delivered to it, and those that its reader has got.
pub record Pipe : Type 0 where
  pub stream : Stream
  pub fed : Bytes
  pub got : Bytes

-- The payload of a data frame, or a read with a buffer of some size; the flags are the choices of the
-- two selects.
pub data PipeEvent : Type 0 where
  feeds : Bool → Bytes → PipeEvent
  reads : ℕ → Bool → PipeEvent

fed_by : Bytes → Delivery → Pipe → Option Pipe
fed_by payload (delivered s) t = some (record t { stream = s; fed = t.fed ++ payload })
fed_by payload stream_closed t = some t
fed_by payload delivery_blocks t = some t
fed_by payload delivery_panics t = none

read_by : ReadOutcome → Pipe → Option Pipe
read_by (read_returns s bytes e) t = some (record t { stream = s; got = t.got ++ bytes })
read_by blocks t = some t

-- A side that has to wait leaves the pipe as it is; `none` after a panic.
unfoldable pub pipe_step : PipeEvent → Pipe → Option Pipe
unfolding fed_by read_by
pipe_step (feeds takes_send payload) t = fed_by payload (deliver takes_send payload t.stream) t
pipe_step (reads size takes_data) t = read_by (read size takes_data t.stream) t

abbrev pub pipe_then : (Pipe → Option Pipe) → Option Pipe → Option Pipe
pipe_then f none = none
pipe_then f (some t) = f t

unfoldable pub run_pipe : List PipeEvent → Pipe → Option Pipe
run_pipe [] t = some t
run_pipe (ev ∷ evs) t = pipe_then (run_pipe evs) (pipe_step ev t)

-- The stream is open, and what was read and what is pending are what was delivered.
pub record IsFifo (t : Pipe) : Type 0 where
  pub opened : IsOpen t.stream
  pub whole : t.got ++ pending t.stream ≡ t.fed

same-IsOpen : (s s' : Stream) → SameIdentity s s' → IsOpen s → IsOpen s'
same-IsOpen s s' same op = (same.2 ∙ op.0, same.3 ∙ op.1, λ e. op.2 (sym same.1 ∙ e))

feeds-IsFifo :
    (takes_send : Bool) (payload : Bytes) (t : Pipe)
    → IsFifo t
    → (t' : Pipe) × (pipe_step (feeds takes_send payload) t ≡ some t') × IsFifo t'
unfolding pipe_step
feeds-IsFifo takes_send payload t h = elim (deliver-Delivers takes_send payload t.stream h.opened) [
  | goes s e p same room ↦ (
    record t { stream = s; fed = t.fed ++ payload },
    (unfold fed_by in rw e refl),
    record {
      opened = same-IsOpen t.stream s same h.opened;
      whole =
          ap (λ (b : Bytes). t.got ++ b) p
          ∙ (sym (append_assoc t.got (pending t.stream) payload)
              ∙ ap (λ (b : Bytes). b ++ payload) h.whole);
    },
  )
  | waits e full ↦ (t, (unfold fed_by in rw e refl), h)
]

read_by-IsFifo :
    (size : ℕ) (r : ReadOutcome) (t : Pipe)
    → IsFifo t
    → ReadSpec size t.stream r
    → (t' : Pipe) × (read_by r t ≡ some t') × IsFifo t'
unfolding read_by
read_by-IsFifo size (read_returns s bytes none) t h spec = (
  record t { stream = s; got = t.got ++ bytes },
  refl,
  record {
    opened = same-IsOpen t.stream s spec.2 h.opened;
    whole =
        append_assoc t.got bytes (pending s)
        ∙ (ap (λ (b : Bytes). t.got ++ b) (sym spec.0) ∙ h.whole);
  },
)
read_by-IsFifo size (read_returns s bytes (some e)) t h spec = elim spec.4 [
  | inl shut ↦ absurd (let live = h.opened.0 in cc)
  | inr drained ↦ absurd (let end = drained.0 in let live = h.opened.1 in cc)
]
read_by-IsFifo size blocks t h spec = (t, refl, h)

pipe_step-IsFifo :
    (ev : PipeEvent) (t : Pipe) → IsFifo t → (t' : Pipe) × (pipe_step ev t ≡ some t') × IsFifo t'
unfolding pipe_step
pipe_step-IsFifo (feeds takes_send payload) t h = feeds-IsFifo takes_send payload t h
pipe_step-IsFifo (reads size takes_data) t h =
    read_by-IsFifo size (read size takes_data t.stream) t h (read-ReadSpec size takes_data t.stream)

-- As long as a stream is open it is a queue of bytes: whatever data frames arrive and reads are made,
-- in any order, with buffers of any sizes, there is no panic, the stream stays open, and the bytes
-- read so far with the bytes still to be read are the payloads delivered, in order.
pub run_pipe-IsFifo :
    (evs : List PipeEvent) (t : Pipe)
    → IsFifo t
    → (t' : Pipe) × (run_pipe evs t ≡ some t') × IsFifo t'
unfolding run_pipe
run_pipe-IsFifo [] t h = (t, refl, h)
run_pipe-IsFifo (ev ∷ evs) t h =
    let (u, step, kept) = pipe_step-IsFifo ev t h in
    let (t', run, end) = run_pipe-IsFifo evs u kept in
    (t', ap (pipe_then (run_pipe evs)) step ∙ run, end)
