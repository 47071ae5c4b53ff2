-- ===== src/Forwarder/Forwarding/Completion.antt =====
-- When ForwardRequest of client/local_forward.go ends without an error.
use tunnel_agent.Base.{
  ◌≡◌, refl, ◌∙◌, ℕ, suc, ◌+◌, ◌≤◌, true, List, [], ◌∷◌, ◌++◌, Option, none, some, Bytes, arith,
  length, length-append, leb, if◌then◌else◌,
}
use tunnel_agent.Connector.{send_capacity}
use tunnel_agent.Errors.{GoError, ok, queue_full}
use tunnel_agent.Forwarder.{LocalForwarder, Request, parse_request, Response, response_header}
use tunnel_agent.Forwarder.Forwarding.{
  HttpClient, Span, Answer, local_request, body_copied, head_written, head_chunk, answered, created,
  parsed, forward_request, completed,
}
use tunnel_agent.Globals.{Globals}
use tunnel_agent.Protocol.{Protocol}
use tunnel_agent.Stream.Writer.{Sending, write_frame, write_chunk, copy}
use tunnel_agent.Stream.Writer.Bursts.{
  quiet, copy_burst, write_chunk_queued, filled_reads, filled_reads-le,
}

-- An answer that arrives whole before the write loop runs.
abbrev pub quiet_answer : ℕ → Response → List Bytes → Answer
quiet_answer buffer response bodies = record {
  response = response;
  head_before = λ c. c;
  copy_buffer = buffer;
  body = quiet bodies;
  body_end = none;
}

body_copied-none :
    (t : Span) (res : Sending × Option GoError) (g : Globals)
    → res.1 ≡ none
    → (body_copied t res g).result ≡ none
unfolding body_copied completed
body_copied-none t (s, none) g h = refl
body_copied-none t (s, some e) g h = cc

module _ (p : Protocol) (t : Span) (id buffer : ℕ) (response : Response) (bodies : List Bytes)
    (s : Sending) (g : Globals) (on : s.connector.connected ≡ true)
    (room : length s.connector.send_ch + suc (length bodies) ≤ send_capacity) where
  head_written-none :
      (head_written p t id
        (quiet_answer buffer response bodies)
        (write_chunk p id none (head_chunk (quiet_answer buffer response bodies)) s)
        g).result
      ≡ none
  unfolding head_written
  head_written-none =
      let head = write_frame p id none (response_header response) in
      let c = s.connector in
      let s' : Sending = record {
        connector = record c { send_ch = c.send_ch ++ head ∷ [] };
        accepted = s.accepted ++ head ∷ [];
      } in
      let more = length-append c.send_ch (head ∷ []) in
      rw
        (write_chunk_queued p id none (head_chunk (quiet_answer buffer response bodies)) s on
          (omega (arith, room)))
        (body_copied-none t (copy p id buffer (quiet bodies) none s') g (
          copy_burst p id buffer bodies none s' on (omega (arith, more, room))
          ∙ fits (length (c.send_ch ++ head ∷ []) + filled_reads bodies)
              (omega (arith, more, room, filled_reads-le bodies))))
    where
      fits :
          (n : ℕ)
          → n ≤ send_capacity
          → (if leb n send_capacity then none else some queue_full) ≡ none
      fits n h = ground (arith, h)

-- A request that parses, that the HTTP client takes and the local service answers, ends without an
-- error when the connection is up and its queue has room for the head and every part of the body,
-- even if the write loop does not run in the meantime.
pub forward_request_completes :
    (p : Protocol) (http : HttpClient) (t : Span) (lf : LocalForwarder) (id buffer : ℕ)
    (payload : Bytes) (s : Sending) (g : Globals) (r : Request) (response : Response)
    (bodies : List Bytes)
    → parse_request payload ≡ ok r
    → http.new_request (local_request r lf).method (local_request r lf).url ≡ none
    → http.do_request (local_request r lf) ≡ ok (quiet_answer buffer response bodies)
    → s.connector.connected ≡ true
    → length s.connector.send_ch + suc (length bodies) ≤ send_capacity
    → (forward_request p http t lf id payload s g).result ≡ none
unfolding forward_request parsed created answered
forward_request_completes p http t lf id buffer payload s g r response bodies well takes answers on
      room =
    rw (well, takes, answers) (head_written-none p t id buffer response bodies s _ on room)
