-- ===== src/Examples/Agents.antt =====
-- The agent on concrete stream frames.
use tunnel_agent.Base.{
  ℕ, ◌≡◌, true, List, [], ◌∷◌, ◌++◌, Option, none, some, codes, arith, get_elem?, lookup, nat_eq,
}
use tunnel_agent.Base.{sym, ap, insert, delete, send}
use tunnel_agent.Stream.{create_stream, get_stream, close_stream}
use tunnel_agent.Stream.Feed.{deliver}
use tunnel_agent.Agent.{Agent, Forward, stream_callbacks, new_agent}
use tunnel_agent.Agent.Streams.{handled, finish_forward, handle_stream_frame, close_quietly}
use tunnel_agent.Agent.Runs.{
  AgentEvent, stream_frame, control_frame, forwarding, reconnecting, stopping, run_agent,
  agent_event, run_agent-IsSound,
}
use tunnel_agent.Agent.Streams.{data_frame, crashed}
use tunnel_agent.Agent.Streams.Ending.{end_frame_lost}
use tunnel_agent.Errors.{eof}
use tunnel_agent.Base.{refl}
use tunnel_agent.Stream.{fresh_stream}
use tunnel_agent.Stream.Feed.{pending}
use tunnel_agent.Stream.Reader.{read, read_returns}
use tunnel_agent.Agent.Streams.Late.{data_frame_late}
use tunnel_agent.Base.{false}
use tunnel_agent.Errors.{stream_not_found}
use tunnel_agent.Agent.Streams.Accounting.{IsSound, new_agent-IsSound}
use tunnel_agent.Agent.Streams.Reuse.{finish_forward_reused}
use tunnel_agent.Examples.{
  demo, demo_agent, demo_auth, demo_json, demo_http, demo_table, answering_round, frame,
}
use tunnel_agent.Stream.{Stream, shut}

-- Stream 5 is opened, fed and closed by the server, and its id is used again before the goroutine
-- of the first request ends.
abbrev reuse : List AgentEvent
reuse =
    stream_frame 1 true (frame 3 0 5 (codes "GET / HTTP/1.1"))
    ∷ stream_frame 2 true (frame 4 0 5 (codes "body"))
    ∷ stream_frame 3 true (frame 5 0 5 [])
    ∷ stream_frame 4 true (frame 3 0 5 (codes "GET /b HTTP/1.1"))
    ∷ []

-- The same, then an authentication response, the end of the first goroutine, a reconnect, the
-- server's close and the signal to stop.
abbrev events : List AgentEvent
events =
    reuse
    ++ control_frame none 5 (frame 1 2 0 [])
      ∷ forwarding (record { started = 1; finished = 6 }) 0
      ∷ reconnecting none 7 (answering_round ∷ [])
      ∷ control_frame none 8 (frame 5 0 0 [])
      ∷ stopping none 9
      ∷ []

demo_agent-IsSound : IsSound demo_agent
demo_agent-IsSound = new_agent-IsSound (codes "core:8443") 10 demo_auth 0

run_agent-IsSound_example :
    (b : Agent) × (run_agent demo demo_json demo_http demo_table events demo_agent ≡ some b)
    × IsSound b
run_agent-IsSound_example =
    run_agent-IsSound demo demo_json demo_http demo_table events demo_agent demo_agent-IsSound

abbrev reused_run :
    (b : Agent) × (run_agent demo demo_json demo_http demo_table reuse demo_agent ≡ some b)
    × IsSound b
reused_run =
    run_agent-IsSound demo demo_json demo_http demo_table reuse demo_agent demo_agent-IsSound

abbrev reused_agent : Agent
reused_agent = reused_run.0

abbrev first_forward : Forward
first_forward = record { stream_id = 5; stream = 0; payload = codes "GET / HTTP/1.1" }

registered_at : Option Agent → Option ℕ
registered_at none = none
registered_at (some a) = lookup 5 a.streams.streams

reused-registered : lookup 5 reused_agent.streams.streams ≡ some 1
unfolding run_agent agent_event handle_stream_frame create_stream get_stream close_quietly
    close_stream new_agent lookup insert delete deliver send stream_callbacks registered_at
reused-registered = sym (ap registered_at reused_run.1)

finish_forward_reused_example :
    (b : Agent) × (s : Stream) × (finish_forward demo 9 first_forward none reused_agent
      ≡ handled b none)
    × (get_elem? reused_agent.streams.store 1 ≡ some s)
    × (get_elem? b.streams.store 1 ≡ some (shut s))
    × (lookup 5 b.streams.streams ≡ none)
finish_forward_reused_example =
    finish_forward_reused demo 9 first_forward none reused_agent 1 reused_run.2 reused-registered
      (omega arith)

-- Stream 5 is open, and its goroutine ends while the handler of a data frame holds it.
abbrev open_run :
    (b : Agent) × (run_agent demo demo_json demo_http demo_table
        (stream_frame 1 true (frame 3 0 5 []) ∷ [])
        demo_agent
      ≡ some b)
    × IsSound b
open_run =
    run_agent-IsSound demo demo_json demo_http demo_table
      (stream_frame 1 true (frame 3 0 5 []) ∷ []) demo_agent demo_agent-IsSound

open-registered : get_stream 5 open_run.0.streams ≡ some 0
unfolding run_agent agent_event handle_stream_frame create_stream get_stream new_agent lookup insert
    stream_callbacks registered_at
open-registered = sym (ap registered_at open_run.1)

data_frame_late_example :
    (b : Agent) × (close_quietly 5 2 open_run.0 ≡ handled b none)
    × (get_stream 5 b.streams ≡ none)
    × (data_frame demo 3 true (frame 4 0 5 (codes "x")) (some 0) b ≡ crashed)
    × (data_frame demo 3 false (frame 4 0 5 (codes "x")) (some 0) b
        ≡ handled b (some stream_not_found))
data_frame_late_example =
    data_frame_late demo 2 3 (frame 4 0 5 (codes "x")) 0 open_run.0 open_run.2 open-registered

stream_at : ℕ → Option Agent → Option Stream
stream_at ptr none = none
stream_at ptr (some a) = get_elem? a.streams.store ptr

open-held : get_elem? open_run.0.streams.store 0 ≡ some (fresh_stream 5 1)
unfolding run_agent agent_event handle_stream_frame create_stream new_agent lookup insert
    stream_callbacks stream_at
open-held = sym (ap (stream_at 0) open_run.1)

end_frame_lost_example :
    (b : Agent) × (t : Stream) × (handle_stream_frame demo 3 true
        (frame 4 1 5 (codes "x"))
        open_run.0
      ≡ handled b none)
    × (get_elem? b.streams.store 0 ≡ some t)
    × (pending t ≡ codes "x")
    × ((size : ℕ) → read size false t ≡ read_returns t [] (some eof))
end_frame_lost_example =
    end_frame_lost demo 3 true (frame 4 1 5 (codes "x")) 0 (fresh_stream 5 1) open_run.0 open_run.2
      refl (omega arith) refl open-registered open-held refl (omega arith)
