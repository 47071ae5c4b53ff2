-- ===== src/Examples/Network.antt =====
-- The agent on a connection with two good frames and a length that is out of range.
use tunnel_agent.Base.{
  ◌≡◌, refl, true, List, [], ◌∷◌, none, some, Bytes, codes, insert, lookup, nat_eq, send, inc64,
}
use tunnel_agent.Agent.{Agent, new_agent, stream_callbacks, stream_callback}
use tunnel_agent.Agent.Control.Sound.{SameStreams-IsSound}
use tunnel_agent.Agent.Network.{
  World, reading, returned, Choice, Step, dispatches, goroutine, run_world, world_step, loop_step,
  agent_host, bare_host, turned, stream_handled, conn_of, put_at, step_in,
}
use tunnel_agent.Agent.Network.Sound.{IsSafe, run_world-IsSafe}
use tunnel_agent.Agent.Runs.{reconnecting}
use tunnel_agent.Agent.Streams.{handle_stream_frame}
use tunnel_agent.Agent.Streams.Accounting.{new_agent-IsSound}
use tunnel_agent.Dispatcher.{Host, read_turn, handle_frame}
use tunnel_agent.Dispatcher.Delivery.{Carries, ended, carries}
use tunnel_agent.Protocol.{Frame}
use tunnel_agent.Examples.{
  demo, demo_auth, demo_agent, demo_json, demo_http, demo_table, connected_agent, answering_round,
  byte_net, frame,
}
use tunnel_agent.Globals.{same_counters}
use tunnel_agent.Stream.{create_stream, get_stream}
use tunnel_agent.Stream.Feed.{deliver}

abbrev network_agent : Agent
network_agent = record connected_agent { dispatcher_conn = some 1 }

abbrev arriving : Bytes
arriving = 4 ∷ 3 ∷ 0 ∷ 5 ∷ 7 ∷ 4 ∷ 4 ∷ 0 ∷ 5 ∷ 8 ∷ 200 ∷ 1 ∷ []

abbrev start : World Bytes
start = record { agent = network_agent; wires = λ k. arriving; phase = reading }

abbrev calm : Choice
calm = record { now = 3; takes_send = true; closing = none }

abbrev frames_then_reconnect : List (Step demo demo_json byte_net demo_http demo_table)
frames_then_reconnect =
    dispatches calm
    ∷ dispatches calm
    ∷ dispatches calm
    ∷ goroutine (reconnecting none 7 (answering_round ∷ []))
    ∷ []

start-IsSafe : IsSafe start
start-IsSafe = (
  tt,
  SameStreams-IsSound demo_agent network_agent
      (record { streams = refl; counters = same_counters demo_agent.globals })
      (new_agent-IsSound (codes "core:8443") 10 demo_auth 0),
)

run_world-IsSafe_example :
    IsSafe (run_world demo demo_json byte_net demo_http demo_table frames_then_reconnect start)
run_world-IsSafe_example =
    run_world-IsSafe demo demo_json byte_net demo_http demo_table frames_then_reconnect start
      start-IsSafe

abbrev three_rounds : World Bytes
three_rounds =
    run_world demo demo_json byte_net demo_http demo_table
      (dispatches calm ∷ dispatches calm ∷ dispatches calm ∷ []) start

three_rounds_stop :
    (three_rounds.phase ≡ returned)
    × (three_rounds.agent.reconnects ≡ 1)
    × (three_rounds.agent.globals.metrics.frames_received ≡ 2)
unfolding run_world world_step step_in loop_step agent_host bare_host turned read_turn handle_frame
    stream_handled conn_of put_at handle_stream_frame create_stream get_stream deliver insert lookup
    new_agent stream_callbacks stream_callback send inc64
three_rounds_stop = (refl, refl, refl)

-- A response to the authentication and an open frame for stream 6, up to the end of the connection.
abbrev two_frames : Bytes
two_frames = 4 ∷ 1 ∷ 2 ∷ 0 ∷ 7 ∷ 3 ∷ 3 ∷ 0 ∷ 6 ∷ []

abbrev carried : List (Frame × Bytes)
carried = (frame 1 2 0 (7 ∷ []), 3 ∷ 3 ∷ 0 ∷ 6 ∷ []) ∷ (frame 3 0 6 [], []) ∷ []

abbrev calm_host : Host Bytes (World Bytes)
calm_host = agent_host demo demo_json byte_net calm

abbrev two_frames_carried : Carries demo byte_net calm_host two_frames carried
two_frames_carried =
    carries
      (record {
        size = 4;
        bytes = 1 ∷ 2 ∷ 0 ∷ 7 ∷ [];
        behind = 1 ∷ 2 ∷ 0 ∷ 7 ∷ 3 ∷ 3 ∷ 0 ∷ 6 ∷ [];
        length_is = refl;
        in_range = refl;
        body_is = refl;
        frame_is = refl;
      })
      (carries
        (record {
          size = 3;
          bytes = 3 ∷ 0 ∷ 6 ∷ [];
          behind = 3 ∷ 0 ∷ 6 ∷ [];
          length_is = refl;
          in_range = refl;
          body_is = refl;
          frame_is = refl;
        })
        (ended [] refl))

abbrev listening : World Bytes
listening = record start { wires = λ k. two_frames }
