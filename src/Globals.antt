-- ===== src/Globals.antt =====
-- The two package variables that every part writes: globalMetrics of internal/metrics/metrics.go and
-- globalHealthChecker of internal/health/health.go.
use tunnel_agent.Base.{ℕ, Bytes, ◌≡◌, refl}
use tunnel_agent.Metrics.{Metrics}
use tunnel_agent.Health.{HealthChecker, HealthStatus, update_named}

pub record Globals : Type 0 where
  pub metrics : Metrics
  pub health : HealthChecker

-- metrics.GetMetrics().F()
abbrev pub count : (Metrics → Metrics) → Globals → Globals
count f g = record g { metrics = f g.metrics }

-- if check, ok := health.GetHealthChecker().GetCheck(name); ok { check.UpdateCheck(...) }
abbrev pub note_health : Bytes → HealthStatus → Bytes → ℕ → Globals → Globals
note_health name status message now g = record g {
  health = update_named name status message now g.health;
}

-- The counters of streams.
pub record SameCounters (g g' : Globals) : Type 0 where
  pub active : g'.metrics.streams_active ≡ g.metrics.streams_active
  pub completed : g'.metrics.streams_completed ≡ g.metrics.streams_completed
  pub total : g'.metrics.streams_total ≡ g.metrics.streams_total

abbrev pub same_counters : (g : Globals) → SameCounters g g
same_counters g = record { active = refl; completed = refl; total = refl }
