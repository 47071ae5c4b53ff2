-- ===== src/Dispatcher/Invariants.antt =====
-- What the read loop of client/dispatcher.go preserves of its host: whatever the handlers, the
-- callbacks and the counts preserve.
use tunnel_agent.Base.{ℕ, ◌||◌, Option, none, some, Bytes, codes, ltb, if_both}
use tunnel_agent.Dispatcher.{
  Net, Host, Turn, exits, again, run_callback, run_on_error, run_handler, handle_frame, handled,
  read_failed, parsed, body_read, length_read, connected_turn, read_turn, contains,
}
use tunnel_agent.Errors.{GoError, Result, ok, err, eof, error_text, invalid_frame_size}
use tunnel_agent.Metrics.{increment_frames_error, increment_frames_received}
use tunnel_agent.Protocol.{Protocol, Frame}

module _ {Wire S : Type 0} (p : Protocol) (net : Net Wire) (h : Host Wire S) where
  -- `P` holds behind each thing that the loop does to the host.
  pub record HostKeeps (P : S → Type 0) : Type 0 where
    pub put : (w : Wire) (s : S) → P s → P (h.put_conn w s)
    pub failed : (s : S) → P s → P (h.count increment_frames_error s)
    pub received : (s : S) → P s → P (h.count increment_frames_received s)
    pub control : (f : Frame) (s : S) → P s → P (run_handler h.control_handler f s).0
    pub stream : (f : Frame) (s : S) → P s → P (run_handler h.stream_handler f s).0
    pub closed : (s : S) → P s → P (run_callback h.on_connection_closed s)
    pub errors : (e : GoError) (s : S) → P s → P (run_on_error h.on_error e s)

  abbrev pub turn_state : Turn S → S
  turn_state (exits s) = s
  turn_state (again s) = s

  module _ (P : S → Type 0) (k : HostKeeps P) where
    pub handled-Keeps : (r : S × Option GoError) → P r.0 → P (turn_state (handled p net h r))
    unfolding handled
    handled-Keeps (s, none) x = x
    handled-Keeps (s, some e) x = k.failed s x

    pub handle_frame-Keeps :
        (f : Frame) (s : S) → P s → P (turn_state (handled p net h (handle_frame p net h f s)))
    unfolding handle_frame
    handle_frame-Keeps f s x = handled-Keeps _ (
        if_both (λ (r : S × Option GoError). P r.0) (p.is_control_frame f) _ _ (k.control f s x)
          (k.stream f s x))

    failed-Keeps :
        (e : GoError) (s : S)
        → P s
        → P (run_on_error h.on_error e (h.count increment_frames_error s))
    failed-Keeps e s x = k.errors e (h.count increment_frames_error s) (k.failed s x)

    read_failed-Keeps : (e : GoError) (s : S) → P s → P (turn_state (read_failed p net h e s))
    unfolding read_failed
    read_failed-Keeps eof s x = k.closed s x
    read_failed-Keeps e s x =
        if_both (λ (t : Turn S). P (turn_state t)) (contains (error_text e) (codes "timeout"))
          (again s) (exits (run_on_error h.on_error e (h.count increment_frames_error s))) x
          (failed-Keeps e s x)

    parsed-Keeps : (r : Result Frame) (s : S) → P s → P (turn_state (parsed p net h r s))
    unfolding parsed
    parsed-Keeps (err e) s x = failed-Keeps e s x
    parsed-Keeps (ok f) s x =
        handle_frame-Keeps f (h.count increment_frames_received s) (k.received s x)

    body_read-Keeps :
        (r : Wire × Result Bytes) (s : S) → P s → P (turn_state (body_read p net h r s))
    unfolding body_read
    body_read-Keeps (w, err e) s x = k.errors e (h.put_conn w s) (k.put w s x)
    body_read-Keeps (w, ok bytes) s x =
        parsed-Keeps (net.parse_frame bytes) (h.put_conn w s) (k.put w s x)

    length_read-Keeps :
        (r : Wire × Result ℕ) (s : S) → P s → P (turn_state (length_read p net h r s))
    unfolding length_read
    length_read-Keeps (w, err e) s x = read_failed-Keeps e (h.put_conn w s) (k.put w s x)
    length_read-Keeps (w, ok n) s x =
        if_both (λ (t : Turn S). P (turn_state t)) (ltb n p.header_size || ltb p.max_frame_size n) _
          _ (failed-Keeps invalid_frame_size (h.put_conn w s) (k.put w s x))
          (body_read-Keeps (net.read_full n w) s x)

    connected_turn-Keeps :
        (o : Option Wire) (s : S) → P s → P (turn_state (connected_turn p net h o s))
    unfolding connected_turn
    connected_turn-Keeps none s x = x
    connected_turn-Keeps (some w) s x = length_read-Keeps (net.read_frame_length w) s x

    pub read_turn-Keeps : (s : S) → P s → P (turn_state (read_turn p net h s))
    unfolding read_turn
    read_turn-Keeps s x =
        if_both (λ (t : Turn S). P (turn_state t)) (h.dispatcher s).cancelled _ _ x
          (connected_turn-Keeps (h.conn s) s x)
