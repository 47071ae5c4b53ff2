-- ===== src/Monitoring/Checks.antt =====
-- What a JSON reader gets from the answer of /health of cmd/agent/main.go.
use tunnel_agent.Base.{
  ℕ, ◌≡◌, List, [], ◌∷◌, ◌++◌, Option, none, some, map, reverse, Bytes, codes, get_elem?,
}
use tunnel_agent.Health.{
  HealthStatus, Check, HealthChecker, get_status, get_overall_status, get_all_checks,
}
use tunnel_agent.Monitoring.{Piece, literal, string, status_text}
use tunnel_agent.Monitoring.Objects.{object, member, text_value}
use tunnel_agent.Monitoring.Reader.{
  Token, mark, Reading, between, IsPlainText, after_pieces, AllFit,
}

-- The reader between tokens, with what it has read in the order of the text.
abbrev at : List Token → Reading
at xs = between (reverse xs)

-- Pieces that the reader takes as these tokens, wherever it stands between tokens.
Gives : List Piece → List Token → Type 0
Gives ps ts = (xs : List Token) → AllFit ps (at xs) × (after_pieces ps (at xs) ≡ at (xs ++ ts))

abbrev pub start_pieces : HealthStatus → List Piece
start_pieces status =
    literal (codes "{\n  \"status\": \"")
    ∷ string (status_text status)
    ∷ literal (codes "\",\n  \"checks\": {")
    ∷ []

abbrev health_start : HealthStatus → List Token
health_start status =
    mark b'{'
    ∷ (member (codes "status") (text_value (status_text status))
        ++ mark b',' ∷ member (codes "checks") (mark b'{' ∷ []))

module _ (format_time : ℕ → Bytes) where
  -- The object of a check.
  abbrev pub check_object : Option (HealthStatus × Bytes × ℕ) → List Token
  check_object none = []
  check_object (some (status, message, last_check)) = object (
      member (codes "status") (text_value (status_text status))
      ∷ member (codes "message") (text_value message)
      ∷ member (codes "last_check") (text_value (format_time last_check))
      ∷ [])

  abbrev pub check_member : HealthChecker → Bytes × ℕ → List Token
  check_member hc (name, check) = member name (check_object (get_status check hc))

  abbrev pub health_object : HealthChecker → List Token
  health_object hc = object (
      member (codes "status") (text_value (status_text (get_overall_status hc)))
      ∷ member (codes "checks") (object (map (check_member hc) (get_all_checks hc)))
      ∷ [])

  -- A check whose name and message need no escape, behind a pointer of the store.
  abbrev pub IsShown : HealthChecker → Bytes × ℕ → Type 0
  IsShown hc (name, check) =
      IsPlainText name × ((c : Check) × (get_elem? hc.cells check ≡ some c) × IsPlainText c.message)
