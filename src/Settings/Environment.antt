-- ===== src/Settings/Environment.antt =====
-- Which variables the settings of cmd/agent/main.go depend on.
use tunnel_agent.Base.{◌≡◌, refl, List, [], ◌∷◌, Option, Bytes, codes, ℤ, All}
use tunnel_agent.Settings.{Settings, override, start_settings}

-- The variables that main reads.
abbrev pub variables : List Bytes
variables =
    codes "SERVER"
    ∷ codes "TLS"
    ∷ codes "SKIP_VERIFY"
    ∷ codes "TOKEN"
    ∷ codes "AGENT_ID"
    ∷ codes "LOCAL"
    ∷ codes "HEARTBEAT"
    ∷ codes "READ_TIMEOUT"
    ∷ codes "REQUEST_TIMEOUT"
    ∷ codes "LOG_LEVEL"
    ∷ codes "LOG_JSON"
    ∷ codes "METRICS"
    ∷ codes "METRICS_PORT"
    ∷ []

-- Environments that agree on the variables `SERVER`, `TOKEN` and the other eleven without a prefix
-- start the agent alike: a variable of any other name, such as `TUNNEL_TOKEN`, has no effect.
pub start_settings-variables :
    (parse_duration : Bytes → Option ℤ) (env env' : Bytes → Bytes) (flags : Settings)
    → All (λ (name : Bytes). env name ≡ env' name) variables
    → start_settings parse_duration env flags ≡ start_settings parse_duration env' flags
unfolding start_settings override
start_settings-variables parse_duration env env' flags h =
    rw
      (
        h.0, h.1.0, h.1.1.0, h.1.1.1.0, h.1.1.1.1.0, h.1.1.1.1.1.0, h.1.1.1.1.1.1.0,
        h.1.1.1.1.1.1.1.0, h.1.1.1.1.1.1.1.1.0, h.1.1.1.1.1.1.1.1.1.0, h.1.1.1.1.1.1.1.1.1.1.0,
        h.1.1.1.1.1.1.1.1.1.1.1.0, h.1.1.1.1.1.1.1.1.1.1.1.1.0,
      )
      refl
