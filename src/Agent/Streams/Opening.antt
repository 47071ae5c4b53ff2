-- ===== src/Agent/Streams/Opening.antt =====
-- The frame that opens a stream, in handleStreamFrame of cmd/agent/main.go.
use tunnel_agent.Base.{ℕ, Bool, true, ◌≡◌, refl, Option, arith, ◌==◌}
use tunnel_agent.Agent.{Agent}
use tunnel_agent.Agent.Streams.{Handling, handled, after_call, opened, handle_stream_frame}
use tunnel_agent.Errors.{GoError, Result, ok, err}
use tunnel_agent.Protocol.{Protocol, Frame}
use tunnel_agent.Stream.{create_stream}

-- The handler has returned, with the dispatcher and its connection as they were.
abbrev pub Returns : Agent → Handling → Type 0
Returns a h =
    (b : Agent) × (e : Option GoError) × (h ≡ handled b e)
    × (b.dispatcher ≡ a.dispatcher)
    × (b.dispatcher_conn ≡ a.dispatcher_conn)

opened-Returns : (r : Result ℕ) (frame : Frame) (a : Agent) → Returns a (opened r frame a)
unfolding opened
opened-Returns (err e) frame a = (a, _, refl, refl, refl)
opened-Returns (ok stream) frame a = (_, _, refl, refl, refl)

-- Whether or not the stream can be made, the handler returns.
pub open_frame-Returns :
    (p : Protocol) (now : ℕ) (takes_send : Bool) (frame : Frame) (a : Agent)
    → frame.type ≡ p.frame_open_stream
    → Returns a (handle_stream_frame p now takes_send frame a)
unfolding handle_stream_frame
open_frame-Returns p now takes_send frame a h =
    let r = create_stream frame.stream_id now a.streams in
    rw is_open (opened-Returns r.result frame (after_call now r a))
  where
    is_open : (frame.type == p.frame_open_stream) ≡ true
    is_open = ground arith
