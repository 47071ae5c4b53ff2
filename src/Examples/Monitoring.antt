-- ===== src/Examples/Monitoring.antt =====
-- The answers of the metrics server for concrete checks and counters.
use tunnel_agent.Base.{ℕ, ◌≡◌, refl, [], ◌∷◌, ◌++◌, none, some, Bytes, codes, insert}
use tunnel_agent.Health.{
  HealthStatus, healthy, degraded, Check, HealthChecker, get_all_checks, get_overall_status,
}
use tunnel_agent.Metrics.{Metrics, zero_metrics, decrement_streams_active}
use tunnel_agent.Monitoring.{metrics_answer, health_answer}
use tunnel_agent.Monitoring.Answers.{metrics_answer-Reads}
use tunnel_agent.Monitoring.Objects.{metrics_object}
use tunnel_agent.Monitoring.Quoted.{health_answer_quoted}
use tunnel_agent.Monitoring.Reader.{json_tokens, IsPlainText}

abbrev a_time : ℕ → Bytes
a_time t = codes "2024-01-15T10:30:00Z"

plain_time : (t : ℕ) → IsPlainText (a_time t)
plain_time t = (
  refl,
  (
    refl,
    (
      refl,
      (
        refl,
        (
          refl,
          (
            refl,
            (
              refl,
              (
                refl,
                (
                  refl,
                  (
                    refl,
                    (
                      refl,
                      (refl, (refl, (refl, (refl, (refl, (refl, (refl, (refl, (refl, tt))))))))),
                    ),
                  ),
                ),
              ),
            ),
          ),
        ),
      ),
    ),
  ),
)

abbrev check_of : Bytes → HealthStatus → Bytes → Check
check_of name status message = record {
  name = name;
  status = status;
  message = message;
  last_check = 3;
}

abbrev two_checks : HealthChecker
two_checks = record {
  checks = (codes "local", 0) ∷ (codes "streams", 1) ∷ [];
  cells =
      check_of (codes "local") degraded (codes "EOF") ∷ check_of (codes "streams") healthy [] ∷ [];
}

-- A gauge that went below zero is printed as -1.
abbrev below_zero : Metrics
below_zero = decrement_streams_active zero_metrics

metrics_answer-Reads_example :
    json_tokens (metrics_answer a_time below_zero two_checks)
    ≡ some (metrics_object a_time below_zero (get_overall_status two_checks))
metrics_answer-Reads_example = metrics_answer-Reads a_time plain_time below_zero two_checks

-- The text of an error of http.Client.Do.
abbrev failed_check : Check
failed_check =
    check_of (codes "local") degraded
      (codes "Get " ++ b'"' ∷ b'h' ∷ codes "ttp://localhost:3003/\": EOF")

abbrev one_failed : HealthChecker
one_failed = record { checks = (codes "local", 0) ∷ []; cells = failed_check ∷ [] }

health_answer_quoted_example : json_tokens (health_answer a_time one_failed) ≡ none
unfolding get_all_checks insert
health_answer_quoted_example =
    health_answer_quoted a_time one_failed (codes "local") (codes "Get ")
      (codes "ttp://localhost:3003/\": EOF") b'h' 0 [] failed_check
      (refl, (refl, (refl, (refl, (refl, tt))))) (refl, (refl, (refl, (refl, tt)))) refl refl refl
      refl
