-- ===== src/Dispatcher.antt =====
-- client/dispatcher.go: the loop that reads frames and hands them to the handlers. The connection,
-- the frame reader and the parser are the environment's; the loop runs on a host state `S`, which
-- holds whatever the handlers and callbacks change.
pub mod Restart
pub mod Delivery
pub mod Buffers
pub mod Invariants
use tunnel_agent.Base.{
  ℕ, zero, suc, Bool, true, false, ◌||◌, List, [], ◌∷◌, Option, none, some, Bytes, codes, ltb,
  if◌then◌else◌,
}
use tunnel_agent.Errors.{
  GoError, Result, ok, err, eof, already_running, invalid_frame_size, error_text,
}
use tunnel_agent.Metrics.{Metrics, increment_frames_error, increment_frames_received}
use tunnel_agent.Protocol.{Protocol, Frame}
use tunnel_agent.Text.{contains_sub, to_lower}

-- `cancelled` is the state of the context, which is made once. `conn` and the handlers are the
-- host's.
pub record Dispatcher : Type 0 where
  pub cancelled : Bool
  pub running : Bool

unfoldable pub new_dispatcher : Dispatcher
new_dispatcher = record { cancelled = false; running = false }

-- Without an error `Start` also starts the read loop.
unfoldable pub start : Dispatcher → Dispatcher × Option GoError
start d = if d.running then (d, some already_running) else (record d { running = true }, none)

unfoldable pub stop : Dispatcher → Dispatcher
stop d = record d { cancelled = true; running = false }

abbrev pub is_running : Dispatcher → Bool
is_running d = d.running

-- What reading does to a connection: v1.ReadFrameLength, io.ReadFull and v1.ParseFrame.
pub record Net (Wire : Type 0) : Type 0 where
  pub read_frame_length : Wire → Wire × Result ℕ
  pub read_full : ℕ → Wire → Wire × Result Bytes
  pub parse_frame : Bytes → Result Frame

-- The fields of the dispatcher that reach into the rest of the agent. A handler or callback that
-- is not set is `none`.
pub record Host (Wire S : Type 0) : Type 0 where
  pub dispatcher : S → Dispatcher
  pub conn : S → Option Wire
  pub put_conn : Wire → S → S
  pub count : (Metrics → Metrics) → S → S
  pub control_handler : Option (Frame → S → S × Option GoError)
  pub stream_handler : Option (Frame → S → S × Option GoError)
  pub on_connection_closed : Option (S → S)
  pub on_error : Option (GoError → S → S)

module _ {Wire S : Type 0} where
  abbrev pub set_control_handler : (Frame → S → S × Option GoError) → Host Wire S → Host Wire S
  set_control_handler handler h = record h { control_handler = some handler }

  abbrev pub set_stream_handler : (Frame → S → S × Option GoError) → Host Wire S → Host Wire S
  set_stream_handler handler h = record h { stream_handler = some handler }

  abbrev pub set_on_connection_closed : (S → S) → Host Wire S → Host Wire S
  set_on_connection_closed cb h = record h { on_connection_closed = some cb }

  abbrev pub set_on_error : (GoError → S → S) → Host Wire S → Host Wire S
  set_on_error cb h = record h { on_error = some cb }

-- contains(s, substr), without regard to case
unfoldable pub contains : Bytes → Bytes → Bool
contains s sub = contains_sub (to_lower s) (to_lower sub)

-- One round of the loop: it returns, or goes round again.
pub data Turn (S : Type 0) : Type 0 where
  exits again : S → Turn S

module _ {S : Type 0} where
  abbrev pub run_callback : Option (S → S) → S → S
  run_callback none s = s
  run_callback (some f) s = f s

  abbrev pub run_on_error : Option (GoError → S → S) → GoError → S → S
  run_on_error none e s = s
  run_on_error (some f) e s = f e s

  abbrev pub run_handler : Option (Frame → S → S × Option GoError) → Frame → S → S × Option GoError
  run_handler none frame s = (s, none)
  run_handler (some f) frame s = f frame s

module _ {Wire S : Type 0} (p : Protocol) (net : Net Wire) (h : Host Wire S) where
  unfoldable pub handle_frame : Frame → S → S × Option GoError
  handle_frame frame s =
      if p.is_control_frame frame
      then run_handler h.control_handler frame s
      else run_handler h.stream_handler frame s

  -- A frame that its handler refuses is counted, and the loop goes on.
  unfoldable pub handled : S × Option GoError → Turn S
  handled (s, none) = again s
  handled (s, some e) = again (h.count increment_frames_error s)

  read_failed : GoError → S → Turn S
  read_failed eof s = exits (run_callback h.on_connection_closed s)
  read_failed e s =
      if contains (error_text e) (codes "timeout")
      then again s
      else exits (run_on_error h.on_error e (h.count increment_frames_error s))

  unfoldable pub parsed : Result Frame → S → Turn S
  unfolding handled
  parsed (err e) s = exits (run_on_error h.on_error e (h.count increment_frames_error s))
  parsed (ok frame) s = handled (handle_frame frame (h.count increment_frames_received s))

  body_read : Wire × Result Bytes → S → Turn S
  unfolding parsed
  body_read (wire, err e) s = exits (run_on_error h.on_error e (h.put_conn wire s))
  body_read (wire, ok bytes) s = parsed (net.parse_frame bytes) (h.put_conn wire s)

  length_read : Wire × Result ℕ → S → Turn S
  unfolding body_read read_failed
  length_read (wire, err e) s = read_failed e (h.put_conn wire s)
  length_read (wire, ok n) s =
      if ltb n p.header_size || ltb p.max_frame_size n
      then exits (
          run_on_error h.on_error invalid_frame_size
            (h.count increment_frames_error (h.put_conn wire s)))
      else body_read (net.read_full n wire) s

  -- Without a connection the loop sleeps and looks again.
  connected_turn : Option Wire → S → Turn S
  unfolding length_read
  connected_turn none s = again s
  connected_turn (some wire) s = length_read (net.read_frame_length wire) s

  unfoldable pub read_turn : S → Turn S
  unfolding connected_turn
  read_turn s = if (h.dispatcher s).cancelled then exits s else connected_turn (h.conn s) s

  -- The loop for a number of rounds; the flag tells whether it has returned.
  unfoldable pub read_loop : ℕ → S → S × Bool
  read_loop zero s = (s, false)
  read_loop (suc rounds) s = elim (read_turn s) [
    | exits s' ↦ (s', true)
    | again s' ↦ read_loop rounds s'
  ]
