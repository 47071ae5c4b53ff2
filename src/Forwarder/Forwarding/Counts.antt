-- ===== src/Forwarder/Forwarding/Counts.antt =====
-- The counters of internal/metrics/metrics.go over a ForwardRequest of client/local_forward.go.
use tunnel_agent.Base.{◌≡◌, ◌≢◌, refl, inl, inr, ℕ, Option, none, some, Bytes, inc64, Bool-cases}
use tunnel_agent.Errors.{GoError, Result, ok, err}
use tunnel_agent.Forwarder.{LocalForwarder, Request, parse_request}
use tunnel_agent.Forwarder.Forwarding.{
  HttpClient, Span, Answer, Forwarded, local_request, is_eof, body_copied, head_written, head_chunk,
  answered, created, parsed, forward_request, forward_failed, completed,
}
use tunnel_agent.Globals.{Globals, SameCounters, count}
use tunnel_agent.Metrics.{Metrics, increment_local_requests_total, increment_requests_total}
use tunnel_agent.Protocol.{Protocol}
use tunnel_agent.Stream.Writer.{Sending, write_chunk, copy}

-- How a call ends, by the counters before it, after it, and its result. `abandoned` is every failure
-- behind the parsing: it counts neither as a success nor as a failed request.
pub data Ending (payload : Bytes) (m m' : Metrics) (result : Option GoError) : Type 0 where
  succeeded :
      result ≡ none
      → m'.requests_success ≡ inc64 m.requests_success
      → m'.requests_failed ≡ m.requests_failed
      → m'.local_requests_error ≡ m.local_requests_error
      → Ending payload m m' result
  malformed :
      (e : GoError)
      → parse_request payload ≡ err e
      → result ≢ none
      → m'.requests_success ≡ m.requests_success
      → m'.requests_failed ≡ inc64 m.requests_failed
      → m'.local_requests_error ≡ inc64 m.local_requests_error
      → Ending payload m m' result
  abandoned :
      (r : Request)
      → parse_request payload ≡ ok r
      → result ≢ none
      → m'.requests_success ≡ m.requests_success
      → m'.requests_failed ≡ m.requests_failed
      → Ending payload m m' result

abbrev pub Counted : Bytes → Globals → Forwarded → Type 0
Counted payload g r =
    (r.globals.metrics.requests_total ≡ g.metrics.requests_total)
    × (r.globals.metrics.local_requests_total ≡ g.metrics.local_requests_total)
    × SameCounters g r.globals
    × Ending payload g.metrics r.globals.metrics r.result

module _ (p : Protocol) (http : HttpClient) (lf : LocalForwarder) (id : ℕ) (payload : Bytes)
    (s : Sending) (t : Span) (g : Globals) where
  completed-Counted : (s' : Sending) → Counted payload g (completed t s' g)
  unfolding completed
  completed-Counted s' = (
    refl,
    refl,
    record { active = refl; completed = refl; total = refl },
    succeeded refl refl refl refl,
  )

  failed-Counted :
      (text : Bytes) (e : GoError) (s' : Sending) (r : Request)
      → parse_request payload ≡ ok r
      → Counted payload g (forward_failed text e s' g)
  unfolding forward_failed
  failed-Counted text e s' r h = (
    refl,
    refl,
    record { active = refl; completed = refl; total = refl },
    abandoned r h (λ q. cc) refl refl,
  )

  body_copied-Counted :
      (res : Sending × Option GoError) (r : Request)
      → parse_request payload ≡ ok r
      → Counted payload g (body_copied t res g)
  unfolding body_copied
  body_copied-Counted (s', none) r h = completed-Counted s'
  body_copied-Counted (s', some e) r h = elim (Bool-cases (is_eof e)) [
    | inl end ↦ rw end (completed-Counted s')
    | inr other ↦ rw other (failed-Counted _ e s' r h)
  ]

  head_written-Counted :
      (a : Answer) (res : Sending × Option GoError) (r : Request)
      → parse_request payload ≡ ok r
      → Counted payload g (head_written p t id a res g)
  unfolding head_written
  head_written-Counted a (s', none) r h =
      body_copied-Counted (copy p id a.copy_buffer a.body a.body_end s') r h
  head_written-Counted a (s', some e) r h = failed-Counted _ e s' r h

  answered-Counted :
      (q : Result Answer) (r : Request)
      → parse_request payload ≡ ok r
      → Counted payload g (answered p t id q s g)
  unfolding answered forward_failed
  answered-Counted (err e) r h = (
    refl,
    refl,
    record { active = refl; completed = refl; total = refl },
    abandoned r h (λ q. cc) refl refl,
  )
  answered-Counted (ok a) r h = head_written-Counted a (write_chunk p id none (head_chunk a) s) r h

  created-Counted :
      (q : Option GoError) (r : Request)
      → parse_request payload ≡ ok r
      → Counted payload g (created p http t id (local_request r lf) q s g)
  unfolding created
  created-Counted (some e) r h = failed-Counted _ e s r h
  created-Counted none r h = answered-Counted (http.do_request (local_request r lf)) r h

  parsed-Counted :
      (q : Result Request)
      → parse_request payload ≡ q
      → Counted payload g (parsed p http t lf id q s g)
  unfolding parsed forward_failed
  parsed-Counted (err e) h = (
    refl,
    refl,
    record { active = refl; completed = refl; total = refl },
    malformed e h (λ q. cc) refl refl refl,
  )
  parsed-Counted (ok r) h =
      created-Counted (http.new_request (local_request r lf).method (local_request r lf).url) r h

module _ (p : Protocol) (http : HttpClient) (lf : LocalForwarder) (id : ℕ) (payload : Bytes)
    (s : Sending) (t : Span) (g : Globals) where
  pub forward_request-Counted :
      Counted payload
        (count increment_requests_total (count increment_local_requests_total g))
        (forward_request p http t lf id payload s g)
  unfolding forward_request
  forward_request-Counted =
      parsed-Counted p http lf id payload s t
        (count increment_requests_total (count increment_local_requests_total g))
        (parse_request payload) refl
