-- ===== src/Auth.antt =====
-- client/auth.go: the authentication handshake. encoding/json is a parameter.
pub mod Handshake
use tunnel_agent.Base.{
  ℕ, Bool, true, false, ◌∷◌, [], not, List, ◌++◌, Bytes, codes, ◌==◌, ◌*◌, bytes_eq, if◌then◌else◌,
  Option, none, some,
}
use tunnel_agent.Connector.{second}
use tunnel_agent.Errors.{GoError, invalid_frame, auth_failed, foreign, Result, ok, err, ◌>>=◌}
use tunnel_agent.Protocol.{Protocol, Frame}

pub record Authenticator : Type 0 where
  pub token : Bytes
  pub agent_id : Bytes
  pub version : Bytes
  pub capabilities : List Bytes
  pub metadata : List (Bytes × Bytes)
  pub timeout : ℕ

pub record AuthRequest : Type 0 where
  pub token : Bytes
  pub agent_id : Bytes
  pub version : Bytes
  pub capabilities : List Bytes
  pub metadata : List (Bytes × Bytes)

-- `config` is left as the text of its JSON value.
pub record AuthResponse : Type 0 where
  pub success : Bool
  pub agent_id : Bytes
  pub server_time : ℕ
  pub config : Bytes
  pub error : Bytes

-- json.Marshal of a request and json.Unmarshal into a response.
pub record Json : Type 0 where
  pub marshal : AuthRequest → Result Bytes
  pub unmarshal : Bytes → Result AuthResponse

unfoldable pub new_authenticator :
    Bytes → Bytes → Bytes → List Bytes → List (Bytes × Bytes) → Authenticator
new_authenticator token agent_id version capabilities metadata = record {
  token = token;
  agent_id = agent_id;
  version = version;
  capabilities = capabilities;
  metadata = metadata;
  timeout = 10 * second;
}

abbrev pub request_of : Authenticator → AuthRequest
request_of a = record {
  token = a.token;
  agent_id = a.agent_id;
  version = a.version;
  capabilities = a.capabilities;
  metadata = a.metadata;
}

module _ (p : Protocol) (json : Json) where
  unfoldable pub create_auth_frame : Authenticator → Result Frame
  create_auth_frame a = do
    payload ← json.marshal (request_of a)
    ok (record {
      version = p.version;
      type = p.frame_auth;
      flags = p.flag_none;
      stream_id = p.stream_id_control;
      array = none;
      payload = payload;
    })

  -- What a decoded response makes of the authenticator, with the error.
  accept_response : Result AuthResponse → Authenticator → Authenticator × Option GoError
  accept_response (err e) a = (a, some e)
  accept_response (ok resp) a =
      if not resp.success
      then (a, some (foreign (codes "auth failed: " ++ resp.error)))
      else if bytes_eq resp.agent_id []
      then (a, none)
      else (record a { agent_id = resp.agent_id }, none)

  unfoldable pub handle_auth_response : Frame → Authenticator → Authenticator × Option GoError
  unfolding accept_response
  handle_auth_response frame a =
      if not (frame.type == p.frame_auth)
      then (a, some invalid_frame)
      else if not (p.is_control_frame frame)
      then (a, some invalid_frame)
      else if not (p.is_ack frame)
      then (a, some auth_failed)
      else accept_response (json.unmarshal frame.payload) a
