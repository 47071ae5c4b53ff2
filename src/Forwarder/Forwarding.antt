-- ===== src/Forwarder/Forwarding.antt =====
-- ForwardRequest of client/local_forward.go. The HTTP client is a parameter; the response goes to the
-- stream as in Stream.Writer, so the rest of the agent may use the connector between two writes.
pub mod Answers
pub mod Counts
pub mod Completion
use tunnel_agent.Base.{
  ℕ, ◌-◌, Bool, true, false, not, ◌&&◌, ◌||◌, List, [], ◌∷◌, Option, none, some, Bytes, codes,
  bytes_eq, if◌then◌else◌,
}
use tunnel_agent.Connector.{Connector}
use tunnel_agent.Errors.{GoError, eof, wrapped, Result, ok, err}
use tunnel_agent.Forwarder.{
  LocalForwarder, Header, header_add, header_get, Request, parse_request, determine_local_url,
  build_local_url, Response, response_header,
}
use tunnel_agent.Globals.{Globals, count}
use tunnel_agent.Metrics.{
  increment_local_requests_total, increment_requests_total, increment_local_requests_error,
  increment_requests_failed, record_local_request_duration, increment_requests_success,
  set_last_request_time,
}
use tunnel_agent.Protocol.{Protocol}
use tunnel_agent.Stream.Writer.{Sending, Chunk, write_chunk, copy}
use tunnel_agent.Text.{to_lower}

-- The reader of the request's body: nil, the bytes that came with the head, or these and then what
-- comes on the stream.
pub data BodyReader : Type 0 where
  no_body : BodyReader
  initial_body initial_then_stream : Bytes → BodyReader

-- The http.Request for the local service.
pub record LocalRequest : Type 0 where
  pub method : Bytes
  pub url : Bytes
  pub headers : Header
  pub body : BodyReader

-- A response of the local service: its head, what the reads of its body give, and the error that
-- ends them, `none` for the end of the body. `head_before` is what the rest of the agent has done to
-- the connector when the head is written, and `copy_buffer` is the buffer that io.Copy makes for
-- this body.
pub record Answer : Type 0 where
  pub response : Response
  pub head_before : Connector → Connector
  pub copy_buffer : ℕ
  pub body : List Chunk
  pub body_end : Option GoError

-- http.NewRequestWithContext and httpClient.Do.
pub record HttpClient : Type 0 where
  pub new_request : Bytes → Bytes → Option GoError
  pub do_request : LocalRequest → Result Answer

unfoldable pub body_reader : Request → BodyReader
body_reader r =
    let content_length = header_get (codes "Content-Length") r.headers in
    let transfer_encoding = header_get (codes "Transfer-Encoding") r.headers in
    if not (bytes_eq content_length []) && not (bytes_eq content_length (codes "0"))
      || not (bytes_eq transfer_encoding [])
    then initial_then_stream r.body
    else if bytes_eq r.body []
    then no_body
    else initial_body r.body

add_values : Bytes → List Bytes → Header → Header
add_values key [] h = h
add_values key (value ∷ values) h = add_values key values (header_add key value h)

-- for key, values := range headers { ... httpReq.Header.Add(key, value) }
unfoldable pub copy_headers : Header → Header → Header
unfolding add_values
copy_headers [] h = h
copy_headers ((key, values) ∷ rest) h =
    if not (bytes_eq (to_lower key) (codes "host"))
    then copy_headers rest (add_values key values h)
    else copy_headers rest h

unfoldable pub local_request : Request → LocalForwarder → LocalRequest
local_request r lf = record {
  method = r.method;
  url =
      build_local_url (determine_local_url (header_get (codes "Host") r.headers) lf) r.path r.query;
  headers = copy_headers r.headers [];
  body = body_reader r;
}

-- The state after ForwardRequest: what the stream has sent, the counters, and the error.
pub record Forwarded : Type 0 where
  pub sending : Sending
  pub globals : Globals
  pub result : Option GoError

-- The start and the end of the call.
pub record Span : Type 0 where
  pub started : ℕ
  pub finished : ℕ

forward_failed : Bytes → GoError → Sending → Globals → Forwarded
forward_failed text e sending g = record {
  sending = sending;
  globals = g;
  result = some (wrapped text e);
}

completed : Span → Sending → Globals → Forwarded
completed t sending g = record {
  sending = sending;
  globals = count (set_last_request_time t.finished) (
      count increment_requests_success
        (count (record_local_request_duration (t.finished - t.started)) g));
  result = none;
}

abbrev pub is_eof : GoError → Bool
is_eof eof = true
is_eof _ = false

-- if err != nil && err != io.EOF
body_copied : Span → Sending × Option GoError → Globals → Forwarded
unfolding forward_failed completed
body_copied t (s, none) g = completed t s g
body_copied t (s, some e) g =
    if not (is_eof e)
    then forward_failed (codes "failed to stream response body") e s g
    else completed t s g

head_written : Protocol → Span → ℕ → Answer → Sending × Option GoError → Globals → Forwarded
unfolding body_copied forward_failed
head_written p t stream_id a (s, none) g =
    body_copied t (copy p stream_id a.copy_buffer a.body a.body_end s) g
head_written p t stream_id a (s, some e) g =
    forward_failed (codes "failed to write response headers") e s g

abbrev pub head_chunk : Answer → Chunk
head_chunk a = record { bytes = response_header a.response; before = a.head_before }

answered : Protocol → Span → ℕ → Result Answer → Sending → Globals → Forwarded
unfolding head_written forward_failed
answered p t stream_id (err e) s g =
    forward_failed (codes "local service request failed") e s
      (count increment_local_requests_error g)
answered p t stream_id (ok a) s g =
    head_written p t stream_id a (write_chunk p stream_id none (head_chunk a) s) g

created :
    Protocol → HttpClient → Span → ℕ → LocalRequest → Option GoError → Sending → Globals → Forwarded
unfolding answered forward_failed
created p http t stream_id r (some e) s g =
    forward_failed (codes "failed to create local request") e s g
created p http t stream_id r none s g = answered p t stream_id (http.do_request r) s g

parsed :
    Protocol
    → HttpClient
    → Span
    → LocalForwarder
    → ℕ
    → Result Request
    → Sending
    → Globals
    → Forwarded
unfolding created forward_failed
parsed p http t lf stream_id (err e) s g =
    forward_failed (codes "failed to parse request") e s
      (count increment_requests_failed (count increment_local_requests_error g))
parsed p http t lf stream_id (ok r) s g =
    let request = local_request r lf in
    created p http t stream_id request (http.new_request request.method request.url) s g

unfoldable pub forward_request :
    Protocol → HttpClient → Span → LocalForwarder → ℕ → Bytes → Sending → Globals → Forwarded
unfolding parsed
forward_request p http t lf stream_id payload s g =
    parsed p http t lf stream_id (parse_request payload) s
      (count increment_requests_total (count increment_local_requests_total g))
