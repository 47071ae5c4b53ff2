-- ===== src/Health.antt =====
-- internal/health/health.go: the health checker with its checks on a store, since `RegisterCheck`
-- and `GetCheck` hand out pointers. A pointer is an index in the store.
pub mod Overall
use tunnel_agent.Base.{
  ℕ, Bool, true, false, ◌||◌, List, [], ◌∷◌, ◌++◌, Option, none, some, Bytes, length, get_elem?,
  set, lookup, insert, string_eq, if◌then◌else◌,
}

pub data HealthStatus : Type 0 where
  healthy degraded unhealthy : HealthStatus

pub record Check : Type 0 where
  pub name : Bytes
  pub status : HealthStatus
  pub message : Bytes
  pub last_check : ℕ

-- `checks` maps a name to a pointer, `cells` holds what the pointers point at.
pub record HealthChecker : Type 0 where
  pub checks : List (Bytes × ℕ)
  pub cells : List Check

abbrev pub no_checks : HealthChecker
no_checks = record { checks = []; cells = [] }

-- The new checker, and the pointer that the caller keeps.
unfoldable pub register_check : Bytes → ℕ → HealthChecker → HealthChecker × ℕ
register_check name now hc = (
  record {
    checks = insert name (length hc.cells) hc.checks;
    cells =
        hc.cells ++ record { name = name; status = healthy; message = []; last_check = now } ∷ [];
  },
  length hc.cells,
)

abbrev pub get_check : Bytes → HealthChecker → Option ℕ
get_check name hc = lookup name hc.checks

write_check : Option Check → ℕ → HealthStatus → Bytes → ℕ → HealthChecker → HealthChecker
write_check none ptr status message now hc = hc
write_check (some c) ptr status message now hc = record hc {
  cells = set hc.cells ptr (record c { status = status; message = message; last_check = now });
}

-- `check.UpdateCheck(status, message)` through a pointer.
unfoldable pub update_check : ℕ → HealthStatus → Bytes → ℕ → HealthChecker → HealthChecker
unfolding write_check
update_check ptr status message now hc =
    write_check (get_elem? hc.cells ptr) ptr status message now hc

update_found : Option ℕ → HealthStatus → Bytes → ℕ → HealthChecker → HealthChecker
update_found none status message now hc = hc
update_found (some ptr) status message now hc = update_check ptr status message now hc

-- `if check, ok := GetCheck(name); ok { check.UpdateCheck(...) }`
unfoldable pub update_named : Bytes → HealthStatus → Bytes → ℕ → HealthChecker → HealthChecker
unfolding update_found update_check
update_named name status message now hc = update_found (get_check name hc) status message now hc

abbrev pub get_status : ℕ → HealthChecker → Option (HealthStatus × Bytes × ℕ)
get_status ptr hc = elim (get_elem? hc.cells ptr) [
  | none ↦ none
  | some c ↦ some (c.status, c.message, c.last_check)
]

abbrev pub status_of : HealthChecker → ℕ → HealthStatus
status_of hc ptr = elim (get_elem? hc.cells ptr) [ none ↦ healthy | some c ↦ c.status ]

abbrev pub is_unhealthy : HealthStatus → Bool
is_unhealthy unhealthy = true
is_unhealthy _ = false

abbrev pub is_degraded : HealthStatus → Bool
is_degraded degraded = true
is_degraded _ = false

-- The loop over the checks, with the two flags that it sets.
overall_loop : HealthChecker → List (Bytes × ℕ) → Bool → Bool → HealthStatus
overall_loop hc [] has_unhealthy has_degraded =
    if has_unhealthy then unhealthy else if has_degraded then degraded else healthy
overall_loop hc ((name, ptr) ∷ rest) has_unhealthy has_degraded =
    overall_loop hc rest (has_unhealthy || is_unhealthy (status_of hc ptr))
      (has_degraded || is_degraded (status_of hc ptr))

overall_checks : HealthChecker → List (Bytes × ℕ) → HealthStatus
unfolding overall_loop
overall_checks hc [] = healthy
overall_checks hc (c ∷ rest) = overall_loop hc (c ∷ rest) false false

unfoldable pub get_overall_status : HealthChecker → HealthStatus
unfolding overall_checks overall_loop
get_overall_status hc = overall_checks hc hc.checks

copy_checks : List (Bytes × ℕ) → List (Bytes × ℕ) → List (Bytes × ℕ)
copy_checks [] result = result
copy_checks ((name, check) ∷ rest) result = copy_checks rest (insert name check result)

-- A fresh map with the same entries.
unfoldable pub get_all_checks : HealthChecker → List (Bytes × ℕ)
unfolding copy_checks
get_all_checks hc = copy_checks hc.checks []
