-- ===== src/Agent/Streams.antt =====
-- handleStreamFrame of cmd/agent/main.go, and the end of the goroutine that it starts.
pub mod Late
pub mod Ending
pub mod Opening
pub mod Accounting
pub mod Waiting
pub mod Reuse
use tunnel_agent.Base.{
  ℕ, zero, suc, Bool, true, false, List, [], ◌∷◌, ◌++◌, Option, none, some, Bytes, codes, get_elem?,
  set, ◌==◌, if◌then◌else◌,
}
use tunnel_agent.Agent.{Agent, Forward, note_check, stream_callbacks}
use tunnel_agent.Connector.{Connector, send_frame}
use tunnel_agent.Errors.{GoError, Result, ok, err, wrapped, stream_not_found, error_text}
use tunnel_agent.Globals.{Globals, count}
use tunnel_agent.Health.{healthy, degraded}
use tunnel_agent.Metrics.{increment_streams_failed, increment_frames_error}
use tunnel_agent.Protocol.{Protocol, Frame}
use tunnel_agent.Stream.{
  Stream, StreamManager, Returned, Closing, returns, panics, create_stream, get_stream,
  close_stream,
}
use tunnel_agent.Stream.Writer.{end_frame}
use tunnel_agent.Stream.Feed.{
  Delivery, delivered, stream_closed, delivery_blocks, delivery_panics, deliver,
}

-- What a handler may do: return, wait for room in a stream (nothing has changed then), or panic.
pub data Handling : Type 0 where
  handled : Agent → Option GoError → Handling
  blocked crashed : Handling

-- The state behind a call of the stream manager, its callbacks run.
abbrev pub after_call : {A : Type 0} → ℕ → Returned A → Agent → Agent
after_call now r a = record a {
  streams = r.manager;
  globals = stream_callbacks a.stream_check now r.calls a.globals;
}

opened : Result ℕ → Frame → Agent → Handling
opened (err e) frame a = handled a (some (wrapped (codes "failed to create stream") e))
opened (ok stream) frame a =
    handled
      (record a {
        forwards =
            a.forwards
            ++ record { stream_id = frame.stream_id; stream = stream; payload = frame.payload }
              ∷ [];
      })
      none

-- streamManager.CloseStream(id), its error ignored.
closing_result : ℕ → Closing → Agent → Handling
closing_result now (returns r) a = handled (after_call now r a) none
closing_result now panics a = crashed

unfoldable pub close_quietly : ℕ → ℕ → Agent → Handling
unfolding closing_result
close_quietly stream_id now a = closing_result now (close_stream stream_id a.streams) a

delivery_result : Protocol → ℕ → Frame → ℕ → Delivery → Agent → Handling
delivery_result p now frame ptr (delivered s) a =
    let a' = record a { streams = record a.streams { store = set a.streams.store ptr s } } in
    if p.is_end_stream frame then close_quietly frame.stream_id now a' else handled a' none
delivery_result p now frame ptr stream_closed a = handled a (some stream_not_found)
delivery_result p now frame ptr delivery_blocks a = blocked
delivery_result p now frame ptr delivery_panics a = crashed

pub deliver_at : Protocol → ℕ → Bool → Frame → ℕ → Option Stream → Agent → Handling
unfolding delivery_result
deliver_at p now takes_send frame ptr none a = crashed
deliver_at p now takes_send frame ptr (some s) a =
    delivery_result p now frame ptr (deliver takes_send frame.payload s) a

pub data_frame : Protocol → ℕ → Bool → Frame → Option ℕ → Agent → Handling
unfolding deliver_at
data_frame p now takes_send frame none a = handled a none
data_frame p now takes_send frame (some ptr) a =
    deliver_at p now takes_send frame ptr (get_elem? a.streams.store ptr) a

-- The whole handler, with no other goroutine in between.
unfoldable pub handle_stream_frame : Protocol → ℕ → Bool → Frame → Agent → Handling
unfolding opened data_frame
handle_stream_frame p now takes_send frame a =
    if frame.type == p.frame_open_stream
    then (let r = create_stream frame.stream_id now a.streams in
        opened r.result frame (after_call now r a))
    else if frame.type == p.frame_data
    then data_frame p now takes_send frame (get_stream frame.stream_id a.streams) a
    else if frame.type == p.frame_close
    then close_quietly frame.stream_id now a
    else handled a none

abbrev pub error_frame : Protocol → ℕ → GoError → Frame
error_frame p stream_id e = record {
  version = p.version;
  type = p.frame_data;
  flags = p.flag_error;
  stream_id = stream_id;
  array = none;
  payload = error_text e;
}

error_sent : Connector × Option GoError → Agent → Agent
error_sent (c, none) a = record a { connector = c }
error_sent (c, some e) a = record a {
  connector = c;
  globals = count increment_frames_error a.globals;
}

-- What the goroutine does with the result of ForwardRequest.
unfoldable pub forward_result : Protocol → ℕ → ℕ → Option GoError → Agent → Agent
unfolding error_sent
forward_result p now stream_id none a = record a {
  globals =
      note_check a.local_service_check healthy (codes "Local service responding") now a.globals;
}
forward_result p now stream_id (some e) a =
    error_sent (send_frame (error_frame p stream_id e) a.connector) (record a {
      globals =
          note_check a.local_service_check degraded (error_text e) now
            (count increment_streams_failed a.globals);
    })

-- stream.Close(), its error only logged.
abbrev pub end_stream : Protocol → ℕ → Agent → Agent
end_stream p stream_id a = record a {
  connector = (send_frame (end_frame p stream_id) a.connector).0;
}

-- The goroutine from the return of ForwardRequest on: it closes whatever stream has the id then.
unfoldable pub finish_forward : Protocol → ℕ → Forward → Option GoError → Agent → Handling
unfolding close_quietly
finish_forward p now f result a =
    close_quietly f.stream_id now
      (end_stream p f.stream_id (forward_result p now f.stream_id result a))
