-- ===== src/Forwarder/Forwarding/Answers.antt =====
-- What the server gets of a response that ForwardRequest of client/local_forward.go forwards.
use tunnel_agent.Base.{◌≡◌, ℕ, List, ◌∷◌, ◌++◌, none, some, Bytes, All}
use tunnel_agent.Errors.{ok}
use tunnel_agent.Forwarder.{LocalForwarder, Request, parse_request, response_header}
use tunnel_agent.Forwarder.Forwarding.{HttpClient, Answer, Forwarded, local_request}
use tunnel_agent.Globals.{Globals}
use tunnel_agent.Protocol.{Protocol, Frame}
use tunnel_agent.Stream.Writer.{write_frame, Sending, payloads, bytes_of}

module _ (p : Protocol) (http : HttpClient) (lf : LocalForwarder) (id : ℕ) (payload : Bytes)
    (s : Sending) where
  -- A request that was answered: the payload parses, the local service answers the request made of
  -- it, and the frames handed over were, when they were handed over, the head and the whole body of
  -- that answer, the body in slices of one buffer.
  pub record IsAnswered (after : Sending) : Type 0 where
    pub request : Request
    pub answer : Answer
    pub frames : List Frame
    pub well_formed : parse_request payload ≡ ok request
    pub local_answer : http.do_request (local_request request lf) ≡ ok answer
    pub accepted :
        after.accepted
        ≡ s.accepted ++ write_frame p id none (response_header answer.response) ∷ frames
    pub own : All (λ (f : Frame). f ≡ write_frame p id (some answer.copy_buffer) f.payload) frames
    pub whole : payloads frames ≡ bytes_of answer.body

  -- The answer, if the call ends without an error.
  abbrev pub Answers : Forwarded → Type 0
  Answers r = r.result ≡ none → IsAnswered r.sending
