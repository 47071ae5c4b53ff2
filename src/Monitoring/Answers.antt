-- ===== src/Monitoring/Answers.antt =====
-- What a JSON reader gets from the answers of the metrics server of cmd/agent/main.go.
use tunnel_agent.Base.{ℕ, ◌≡◌, refl, ap, ◌∙◌, [], some, Bytes}
use tunnel_agent.Health.{
  HealthStatus, healthy, degraded, unhealthy, HealthChecker, get_overall_status,
}
use tunnel_agent.Metrics.{Metrics}
use tunnel_agent.Monitoring.{status_text, metrics_pieces, metrics_answer}
use tunnel_agent.Monitoring.Objects.{metrics_object}
use tunnel_agent.Monitoring.Reader.{
  between, read_bytes, tokens_read, json_tokens, IsPlainText, after_piece, after_pieces, Fits,
  AllFit, read_pieces,
}

pub status_text-IsPlainText : (status : HealthStatus) → IsPlainText (status_text status)
unfolding status_text
status_text-IsPlainText healthy = (refl, (refl, (refl, (refl, (refl, (refl, (refl, tt)))))))
status_text-IsPlainText degraded =
    (refl, (refl, (refl, (refl, (refl, (refl, (refl, (refl, tt))))))))
status_text-IsPlainText unhealthy =
    (refl, (refl, (refl, (refl, (refl, (refl, (refl, (refl, (refl, tt)))))))))

module _ (format_time : ℕ → Bytes) where
  module _ (plain_time : (t : ℕ) → IsPlainText (format_time t)) where
    metrics_pieces-AllFit :
        (s : Metrics) (status : HealthStatus)
        → AllFit (metrics_pieces format_time s status) (between [])
    unfolding AllFit Fits after_piece read_bytes
    metrics_pieces-AllFit s status = (
      tt,
      (
        tt,
        (
          tt,
          (
            tt,
            (
              tt,
              (
                tt,
                (
                  tt,
                  (
                    tt,
                    (
                      tt,
                      (
                        tt,
                        (
                          tt,
                          (
                            tt,
                            (
                              tt,
                              (
                                tt,
                                (
                                  tt,
                                  (
                                    tt,
                                    (
                                      tt,
                                      (
                                        tt,
                                        (
                                          tt,
                                          (
                                            tt,
                                            (
                                              tt,
                                              (
                                                tt,
                                                (
                                                  tt,
                                                  (
                                                    tt,
                                                    (
                                                      tt,
                                                      (
                                                        tt,
                                                        (
                                                          tt,
                                                          (
                                                            tt,
                                                            (
                                                            tt,
                                                            (
                                                            tt,
                                                            (
                                                            tt,
                                                            (
                                                            tt,
                                                            (
                                                            tt,
                                                            (
                                                            tt,
                                                            (
                                                            tt,
                                                            (
                                                            tt,
                                                            (
                                                            tt,
                                                            (
                                                            tt,
                                                            (
                                                            tt,
                                                            (
                                                            tt,
                                                            (
                                                            tt,
                                                            (
                                                            plain_time s.last_connection_time,
                                                            (
                                                            tt,
                                                            (
                                                            plain_time s.last_request_time,
                                                            (
                                                            tt,
                                                            (
                                                            plain_time s.last_heartbeat_time,
                                                            (
                                                            tt,
                                                            (
                                                            status_text-IsPlainText status,
                                                            (tt, tt),
                                                            ),
                                                            ),
                                                            ),
                                                            ),
                                                            ),
                                                            ),
                                                            ),
                                                            ),
                                                            ),
                                                            ),
                                                            ),
                                                            ),
                                                            ),
                                                            ),
                                                            ),
                                                            ),
                                                            ),
                                                            ),
                                                            ),
                                                            ),
                                                          ),
                                                        ),
                                                      ),
                                                    ),
                                                  ),
                                                ),
                                              ),
                                            ),
                                          ),
                                        ),
                                      ),
                                    ),
                                  ),
                                ),
                              ),
                            ),
                          ),
                        ),
                      ),
                    ),
                  ),
                ),
              ),
            ),
          ),
        ),
      ),
    )

    metrics_pieces-tokens :
        (s : Metrics) (status : HealthStatus)
        → tokens_read (after_pieces (metrics_pieces format_time s status) (between []))
          ≡ some (metrics_object format_time s status)
    unfolding after_pieces after_piece read_bytes
    metrics_pieces-tokens s status = refl

    -- The answer of /metrics is, for a reader of JSON tokens, the object with every counter of the
    -- snapshot under its name as a signed number, the times, and the overall status, provided that
    -- formatted times need no escape.
    pub metrics_answer-Reads :
        (m : Metrics) (hc : HealthChecker)
        → json_tokens (metrics_answer format_time m hc)
          ≡ some (metrics_object format_time m (get_overall_status hc))
    unfolding json_tokens metrics_answer
    metrics_answer-Reads m hc =
        let status = get_overall_status hc in
        ap tokens_read (
          read_pieces (metrics_pieces format_time m status) (between [])
            (metrics_pieces-AllFit m status))
        ∙ metrics_pieces-tokens m status
