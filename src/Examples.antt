-- ===== src/Examples.antt =====
-- Concrete values for the tests and the instances: a protocol, a reader of bytes and an agent.
mod Agents
mod Buffers
mod Streams
mod Connections
mod Frames
mod Routes
mod Startup
mod Forwarding
mod Control
mod Monitoring
mod Network
use tunnel_agent.Base.{
  ℕ, suc, Bool, true, false, ◌&&◌, List, [], ◌∷◌, Option, none, some, Bytes, codes, length, take,
  drop, ltb, ◌==◌, if◌then◌else◌,
}
use tunnel_agent.Agent.{Agent, new_agent}
use tunnel_agent.Auth.{Authenticator, AuthResponse, Json, new_authenticator}
use tunnel_agent.Connector.Dialing.{Round}
use tunnel_agent.Forwarder.{LocalForwarder}
use tunnel_agent.Forwarder.Forwarding.{Answer, HttpClient}
use tunnel_agent.Dispatcher.{Net, Dispatcher, Host}
use tunnel_agent.Errors.{GoError, Result, ok, err, eof, foreign}
use tunnel_agent.Protocol.{Protocol, Frame}

abbrev pub demo : Protocol
demo = record {
  version = 1;
  frame_auth = 1;
  frame_heartbeat = 2;
  frame_open_stream = 3;
  frame_data = 4;
  frame_close = 5;
  flag_none = 0;
  flag_error = 4;
  flag_end_stream = 1;
  stream_id_control = 0;
  header_size = 3;
  max_frame_size = 9;
  is_control_frame = λ f. f.stream_id == 0;
  is_ack = λ f. f.flags == 2;
  is_end_stream = λ f. f.flags == 1;
}

-- One byte of length; then type, flags, stream id and payload, a byte each.
abbrev pub split_length : Bytes → Bytes × Result ℕ
split_length [] = ([], err eof)
split_length (n ∷ w) = if n == 0 then (w, err (foreign (codes "i/o Timeout"))) else (w, ok n)

abbrev pub frame_of : Bytes → Result Frame
frame_of (t ∷ f ∷ i ∷ payload) =
    ok (record { version = 1; type = t; flags = f; stream_id = i; array = none; payload = payload })
frame_of _ = err (foreign (codes "short frame"))

abbrev pub byte_net : Net Bytes
byte_net = record {
  read_frame_length = split_length;
  read_full = λ n w.
      if ltb (length w) n
      then ([], err (foreign (codes "unexpected EOF")))
      else (drop n w, ok (take n w));
  parse_frame = frame_of;
}

abbrev pub demo_auth : Authenticator
demo_auth = record {
  token = codes "t";
  agent_id = codes "a";
  version = codes "1.0.0";
  capabilities = [];
  metadata = [];
  timeout = 10;
}

abbrev pub demo_agent : Agent
demo_agent = new_agent (codes "core:8443") 10 demo_auth 0

abbrev pub frame : ℕ → ℕ → ℕ → Bytes → Frame
frame type flags stream_id payload = record {
  version = 1;
  type = type;
  flags = flags;
  stream_id = stream_id;
  array = none;
  payload = payload;
}

-- A JSON codec that knows one text.
abbrev pub accepted : AuthResponse
accepted = record { success = true; agent_id = codes "b"; server_time = 0; config = []; error = [] }

abbrev pub demo_json : Json
demo_json = record { marshal = λ r. ok r.token; unmarshal = λ text. ok accepted }

-- A local service that answers every request, and a table with that service.
abbrev pub demo_answer : Answer
demo_answer = record {
  response = record {
    proto = codes "HTTP/1.1";
    status = codes "200 OK";
    header = (codes "Content-Type", codes "text/plain" ∷ []) ∷ [];
  };
  head_before = λ c. c;
  copy_buffer = 0;
  body = record { bytes = codes "hello"; before = λ c. c } ∷ [];
  body_end = none;
}

abbrev pub demo_http : HttpClient
demo_http = record { new_request = λ method url. none; do_request = λ r. ok demo_answer }

abbrev pub demo_table : LocalForwarder
demo_table = record {
  local_services = (codes "a", codes "http://localhost:3003") ∷ [];
  default_url = [];
  timeout = 30;
}

-- The agent on the connection 1.
abbrev pub connected_agent : Agent
connected_agent = record demo_agent {
  connector = record demo_agent.connector { conn = some 1; connected = true; writers = 1 ∷ [] };
  dispatcher = record { cancelled = false; running = true };
}

-- A dial that succeeds.
abbrev pub answering_round : Round
answering_round = record { done_before = false; dial = ok 9; done_waiting = false; now = 3 }
