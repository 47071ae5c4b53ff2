-- ===== src/Examples/Frames.antt =====
-- The dispatcher and the handshake on concrete bytes.
use tunnel_agent.Base.{
  ℕ, suc, ◌≡◌, ◌≢◌, refl, true, false, List, [], ◌∷◌, ◌++◌, Option, none, some, Bytes,
}
use tunnel_agent.Auth.{AuthResponse, handle_auth_response}
use tunnel_agent.Auth.Handshake.{Accepts, renamed, handle_auth_response_lem}
use tunnel_agent.Dispatcher.{Dispatcher, Host, read_loop, stop}
use tunnel_agent.Dispatcher.Restart.{start_call, apply_all, read_loop_stopped}
use tunnel_agent.Errors.{GoError}
use tunnel_agent.Examples.{demo, demo_json, byte_net, demo_auth, frame}
use tunnel_agent.Metrics.{Metrics, zero_metrics}
use tunnel_agent.Protocol.{Frame}

-- A host that keeps the frames it is given.
record Log : Type 0 where
  dispatcher : Dispatcher
  wire : Option Bytes
  metrics : Metrics
  frames : List Frame
  closings : ℕ

abbrev logs : Frame → Log → Log × Option GoError
logs f s = (record s { frames = s.frames ++ f ∷ [] }, none)

abbrev log_host : Host Bytes Log
log_host = record {
  dispatcher = λ s. s.dispatcher;
  conn = λ s. s.wire;
  put_conn = λ w s. record s { wire = some w };
  count = λ f s. record s { metrics = f s.metrics };
  control_handler = none;
  stream_handler = some logs;
  on_connection_closed = some (λ s. record s { closings = suc s.closings });
  on_error = none;
}

-- A data frame for stream 5 with one byte, and an open frame for stream 6.
abbrev wire : Bytes
wire = 4 ∷ 4 ∷ 0 ∷ 5 ∷ 7 ∷ 3 ∷ 3 ∷ 0 ∷ 6 ∷ []

abbrev start : Log
start = record {
  dispatcher = record { cancelled = false; running = true };
  wire = some wire;
  metrics = zero_metrics;
  frames = [];
  closings = 0;
}

-- A dispatcher that was stopped and started again.
abbrev restarted : Log
restarted = record start { dispatcher = apply_all (start_call ∷ []) (stop start.dispatcher) }

read_loop_stopped_example : read_loop demo byte_net log_host (suc 6) restarted ≡ (restarted, true)
read_loop_stopped_example =
    read_loop_stopped demo byte_net log_host (start_call ∷ []) start.dispatcher 6 restarted refl

handle_auth_response_lem_example :
    let (b, e) = handle_auth_response demo demo_json (frame 1 2 0 []) demo_auth in
    ((resp : AuthResponse)
      → Accepts demo demo_json (frame 1 2 0 []) resp
      → (e ≡ none) × (b ≡ renamed demo demo_json resp demo_auth))
    × ((e ≡ none) → (resp : AuthResponse) × Accepts demo demo_json (frame 1 2 0 []) resp)
    × ((e ≢ none) → b ≡ demo_auth)
handle_auth_response_lem_example =
    handle_auth_response_lem demo demo_json (frame 1 2 0 []) demo_auth
