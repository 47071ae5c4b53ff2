-- ===== src/Agent/Control/Handling.antt =====
-- What the control handler of cmd/agent/main.go does with each kind of frame.
use tunnel_agent.Base.{
  ◌≡◌, ◌≢◌, refl, false, if_both, ℕ, true, Option, none, some, arith, ◌==◌, codes, Bytes, get_elem?,
  get_elem?-set, ==_refl, ◌∙◌, ap, Bool, if◌then◌else◌,
}
use tunnel_agent.Agent.{Agent}
use tunnel_agent.Agent.Control.{auth_handled, control_handler}
use tunnel_agent.Auth.{Authenticator, Json, handle_auth_response}
use tunnel_agent.Errors.{GoError}
use tunnel_agent.Heartbeat
use tunnel_agent.Health.{HealthStatus, healthy, unhealthy, Check, HealthChecker, update_check}
use tunnel_agent.Protocol.{Protocol, Frame}

-- What the agent's pointer to the check of its connection points at.
abbrev pub connection_check_of : Agent → Option Check
connection_check_of a = get_elem? a.globals.health.cells a.connection_check

module _ (p : Protocol) (json : Json) where
  -- What an authentication frame did, with the record that the connection's check had before.
  pub data Authenticates (now : ℕ) (frame : Frame) (check : Check) (a b : Agent)
      (e : Option GoError) : Type 0 where
    accepted :
        e ≡ none
        → (handle_auth_response p json frame a.authenticator).1 ≡ none
        → b.authenticator ≡ (handle_auth_response p json frame a.authenticator).0
        → b.heartbeat.running ≡ true
        → connection_check_of b
          ≡ some (record {
            name = check.name;
            status = healthy;
            message = codes "Authenticated";
            last_check = now;
          })
        → Authenticates now frame check a b e
    refused :
        (x : GoError)
        → e ≡ some x
        → (handle_auth_response p json frame a.authenticator).1 ≡ some x
        → b.heartbeat ≡ a.heartbeat
        → connection_check_of b
          ≡ some (record {
            name = check.name;
            status = unhealthy;
            message = codes "Authentication failed";
            last_check = now;
          })
        → Authenticates now frame check a b e

  -- An update through a pointer is what reading through it then finds.
  update_check-read :
      (ptr : ℕ) (status : HealthStatus) (message : Bytes) (now : ℕ) (hc : HealthChecker)
      (check : Check)
      → get_elem? hc.cells ptr ≡ some check
      → get_elem? (update_check ptr status message now hc).cells ptr
        ≡ some (record { name = check.name; status = status; message = message; last_check = now })
  unfolding update_check
  update_check-read ptr status message now hc check held =
      let written : Check = record {
        name = check.name;
        status = status;
        message = message;
        last_check = now;
      } in
      rw held (
        get_elem?-set hc.cells ptr check written ptr held
        ∙ ap (λ (b : Bool). if b then some written else get_elem? hc.cells ptr) (==_refl ptr))

  start-running : (h : Heartbeat.Heartbeat) → (Heartbeat.start h).0.running ≡ true
  unfolding Heartbeat.start
  start-running h = ground arith

  auth_handled-Authenticates :
      (now : ℕ) (frame : Frame) (check : Check) (a : Agent) (q : Authenticator × Option GoError)
      → handle_auth_response p json frame a.authenticator ≡ q
      → connection_check_of a ≡ some check
      → (let r = auth_handled p json now q a in
          Authenticates now frame check a r.0 r.1 × (r.0.connector ≡ a.connector))
  unfolding auth_handled
  auth_handled-Authenticates now frame check a (auth, none) h held = (
    accepted refl (rw h refl) (rw h refl) (start-running a.heartbeat) (
        update_check-read a.connection_check healthy (codes "Authenticated") now a.globals.health
          check held),
    refl,
  )
  auth_handled-Authenticates now frame check a (auth, some x) h held = (
    refused x refl (rw h refl) refl (
        update_check-read a.connection_check unhealthy (codes "Authentication failed") now
          a.globals.health check held),
    refl,
  )

  -- An authentication frame reaches the authenticator and leaves the connection as it is: when the
  -- response is accepted the heartbeat runs afterwards and the check that the agent has registered
  -- for the connection reads as healthy, and when it is refused the heartbeat is left alone, the
  -- error is passed on, and that check reads as unhealthy.
  pub control_handler-Authenticates :
      (closing : Option GoError) (now : ℕ) (frame : Frame) (check : Check) (a : Agent)
      → frame.type ≡ p.frame_auth
      → connection_check_of a ≡ some check
      → (let r = control_handler p json closing now frame a in
          Authenticates now frame check a r.0 r.1 × (r.0.connector ≡ a.connector))
  unfolding control_handler
  control_handler-Authenticates closing now frame check a auth held = rw is_auth (
      auth_handled-Authenticates now frame check a
        (handle_auth_response p json frame a.authenticator) refl held)
    where
      is_auth : (frame.type == p.frame_auth) ≡ true
      is_auth = ground arith

  -- The dispatcher's part of the agent.
  abbrev pub SameDispatcher : Agent → Agent → Type 0
  SameDispatcher a b = (b.dispatcher ≡ a.dispatcher) × (b.dispatcher_conn ≡ a.dispatcher_conn)

  auth_handled-SameDispatcher :
      (now : ℕ) (a : Agent) (q : Authenticator × Option GoError)
      → SameDispatcher a (auth_handled p json now q a).0
  unfolding auth_handled
  auth_handled-SameDispatcher now a (auth, none) = (refl, refl)
  auth_handled-SameDispatcher now a (auth, some x) = (refl, refl)

  -- Only a frame that closes the connection makes the control handler touch the dispatcher.
  pub control_handler-SameDispatcher :
      (closing : Option GoError) (now : ℕ) (frame : Frame) (a : Agent)
      → frame.type ≢ p.frame_close
      → SameDispatcher a (control_handler p json closing now frame a).0
  unfolding control_handler
  control_handler-SameDispatcher closing now frame a other = rw not_close (
      if_both Same (frame.type == p.frame_auth) _ _
        (auth_handled-SameDispatcher now a (handle_auth_response p json frame a.authenticator))
        (if_both Same (frame.type == p.frame_heartbeat) _ _ (refl, refl) (refl, refl)))
    where
      Same : Agent × Option GoError → Type 0
      Same r = SameDispatcher a r.0

      not_close : (frame.type == p.frame_close) ≡ false
      not_close = ground (arith, other)
