-- ===== src/Settings.antt =====
-- The flags of cmd/agent/main.go, the environment variables that override them, and the check of the
-- token. What the flags were set to on the command line is the argument `flags`; time.ParseDuration
-- is a parameter. A time.Duration is an int64 of nanoseconds.
pub mod Environment
use tunnel_agent.Base.{
  ℕ, zero, suc, ◌+◌, ◌-◌, ◌*◌, ◌^◌, Bool, true, false, ◌&&◌, List, [], ◌∷◌, Option, none, some,
  Bytes, codes, leb, ltb, ◌==◌, bytes_eq, ℤ, pos, negsuc, if◌then◌else◌,
}
use tunnel_agent.Connector.{second}
use tunnel_agent.Text.{join}

pub record Settings : Type 0 where
  pub server_addr : Bytes
  pub use_tls : Bool
  pub skip_verify : Bool
  pub token : Bytes
  pub agent_id : Bytes
  pub version : Bytes
  pub local_services : Bytes
  pub heartbeat_interval : ℤ
  pub read_timeout : ℤ
  pub request_timeout : ℤ
  pub log_level : Bytes
  pub log_json : Bool
  pub metrics_enabled : Bool
  pub metrics_port : ℤ
  pub remote_config : Bool
  pub mgmt_addr : Bytes

-- The defaults of the flags.
unfoldable pub default_settings : Settings
default_settings = record {
  server_addr = codes "localhost:8443";
  use_tls = true;
  skip_verify = false;
  token = [];
  agent_id = [];
  version = codes "1.0.0";
  local_services = codes "http://localhost:3003";
  heartbeat_interval = pos (10 * second);
  read_timeout = pos (30 * second);
  request_timeout = pos (30 * second);
  log_level = codes "info";
  log_json = false;
  metrics_enabled = false;
  metrics_port = pos 9091;
  remote_config = false;
  mgmt_addr = codes "http://localhost:9000";
}

-- The value of a run of decimal digits behind those that made `acc`.
unfoldable pub digits_value : ℕ → Bytes → Option ℕ
digits_value acc [] = some acc
digits_value acc (c ∷ s) =
    if leb b'0' c && leb c b'9' then digits_value (acc * 10 + (c - b'0')) s else none

unfoldable pub magnitude : Bytes → Option ℕ
unfolding digits_value
magnitude [] = none
magnitude (c ∷ s) = digits_value 0 (c ∷ s)

-- A number that an int64 holds.
in_int_pos : Option ℕ → Option ℤ
in_int_pos none = none
in_int_pos (some n) = if ltb n (2 ^ 63) then some (pos n) else none

minus : ℕ → ℤ
minus zero = pos 0
minus (suc n) = negsuc n

in_int_neg : Option ℕ → Option ℤ
unfolding minus
in_int_neg none = none
in_int_neg (some n) = if leb n (2 ^ 63) then some (minus n) else none

-- parseInt, that is strconv.Atoi: an optional sign and decimal digits.
unfoldable pub parse_int : Bytes → Option ℤ
unfolding in_int_pos in_int_neg magnitude
parse_int [] = none
parse_int (c ∷ s) =
    if c == b'-'
    then in_int_neg (magnitude s)
    else if c == b'+'
    then in_int_pos (magnitude s)
    else in_int_pos (magnitude (c ∷ s))

-- A variable that is not set reads as the empty text.
abbrev pub string_from : Bytes → Bytes → Bytes
string_from value old = if bytes_eq value [] then old else value

abbrev pub flag_from : Bytes → Bool → Bool
flag_from value old = if bytes_eq value [] then old else bytes_eq value (codes "true")

abbrev pub number_or : Option ℤ → ℤ → ℤ
number_or none old = old
number_or (some z) old = z

-- A value that does not parse is ignored.
abbrev pub number_from : (Bytes → Option ℤ) → Bytes → ℤ → ℤ
number_from parse value old = if bytes_eq value [] then old else number_or (parse value) old

module _ (parse_duration : Bytes → Option ℤ) where
  -- `env` is os.Getenv.
  unfoldable pub override : (Bytes → Bytes) → Settings → Settings
  unfolding parse_int
  override env flags = record {
    server_addr = string_from (env (codes "SERVER")) flags.server_addr;
    use_tls = flag_from (env (codes "TLS")) flags.use_tls;
    skip_verify = flag_from (env (codes "SKIP_VERIFY")) flags.skip_verify;
    token = string_from (env (codes "TOKEN")) flags.token;
    agent_id = string_from (env (codes "AGENT_ID")) flags.agent_id;
    version = flags.version;
    local_services = string_from (env (codes "LOCAL")) flags.local_services;
    heartbeat_interval =
        number_from parse_duration (env (codes "HEARTBEAT")) flags.heartbeat_interval;
    read_timeout = number_from parse_duration (env (codes "READ_TIMEOUT")) flags.read_timeout;
    request_timeout =
        number_from parse_duration (env (codes "REQUEST_TIMEOUT")) flags.request_timeout;
    log_level = string_from (env (codes "LOG_LEVEL")) flags.log_level;
    log_json = flag_from (env (codes "LOG_JSON")) flags.log_json;
    metrics_enabled = flag_from (env (codes "METRICS")) flags.metrics_enabled;
    metrics_port = number_from parse_int (env (codes "METRICS_PORT")) flags.metrics_port;
    remote_config = flags.remote_config;
    mgmt_addr = flags.mgmt_addr;
  }

  -- The settings that main goes on with; `none` if it ends for want of a token.
  unfoldable pub start_settings : (Bytes → Bytes) → Settings → Option Settings
  unfolding override
  start_settings env flags =
      let s = override env flags in if bytes_eq s.token [] then none else some s

-- The TLS configuration by its InsecureSkipVerify; `none` for a plain connection.
abbrev pub tls_config : Settings → Option Bool
tls_config s = if s.use_tls then some s.skip_verify else none

-- The metadata of the authentication, from the subdomains of the forwarder.
unfoldable pub agent_metadata : List Bytes → List (Bytes × Bytes)
agent_metadata [] = []
agent_metadata (sub ∷ subs) = (codes "subdomains", join (codes ",") (sub ∷ subs)) ∷ []
