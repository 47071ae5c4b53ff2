-- ===== src/Agent/Forwarding.antt =====
-- The goroutine that handleStreamFrame of cmd/agent/main.go starts for a stream: ForwardRequest, and
-- what follows it. It is one step here, at any time after its start.
use tunnel_agent.Base.{ℕ, zero, suc, List, [], ◌∷◌, Option, none, some, get_elem?}
use tunnel_agent.Agent.{Agent, Forward}
use tunnel_agent.Agent.Streams.{Handling, handled, finish_forward}
use tunnel_agent.Forwarder.{LocalForwarder}
use tunnel_agent.Forwarder.Forwarding.{HttpClient, Span, Forwarded, forward_request}
use tunnel_agent.Protocol.{Protocol}

abbrev pub drop_at {ℓ} : {A : Type ℓ} → ℕ → List A → List A
drop_at i [] = []
drop_at zero (x ∷ xs) = xs
drop_at (suc i) (x ∷ xs) = x ∷ drop_at i xs

abbrev pub after_request : Forwarded → Agent → Agent
after_request r a = record a { connector = r.sending.connector; globals = r.globals }

module _ (p : Protocol) (http : HttpClient) (lf : LocalForwarder) where
  unfoldable pub run_forward : Span → Forward → Agent → Handling
  run_forward t f a =
      let r =
        forward_request p http t lf f.stream_id f.payload
          (record { connector = a.connector; accepted = [] }) a.globals in
      finish_forward p t.finished f r.result (after_request r a)

  unfoldable pub run_found : Span → ℕ → Option Forward → Agent → Handling
  unfolding run_forward
  run_found t i none a = handled a none
  run_found t i (some f) a = run_forward t f (record a { forwards = drop_at i a.forwards })

  -- The goroutine at one place of the list; where there is none nothing happens.
  unfoldable pub run_forward_at : Span → ℕ → Agent → Handling
  unfolding run_found
  run_forward_at t i a = run_found t i (get_elem? a.forwards i) a
