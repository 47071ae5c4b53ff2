-- ===== src/Health/Overall.antt =====
-- The overall status of internal/health/health.go against the statuses of the checks.
use tunnel_agent.Base.{
  ℕ, ◌≤◌, ◌≡◌, refl, sym, ap, ◌∙◌, subst, ◌⊎◌, inl, inr, Bool, true, false, ◌||◌, List, [], ◌∷◌,
  Bytes, arith, All, Any, if◌then◌else◌,
}
use tunnel_agent.Health.{
  HealthStatus, healthy, degraded, unhealthy, HealthChecker, status_of, is_unhealthy, is_degraded,
  overall_loop, overall_checks, get_overall_status,
}

-- How bad a status is.
unfoldable pub rank : HealthStatus → ℕ
rank healthy = 0
rank degraded = 1
rank unhealthy = 2

worst : HealthStatus → HealthStatus → HealthStatus
worst healthy t = t
worst degraded unhealthy = unhealthy
worst degraded _ = degraded
worst unhealthy t = unhealthy

worst_assoc : (r s t : HealthStatus) → worst (worst r s) t ≡ worst r (worst s t)
unfolding worst
worst_assoc healthy s t = refl
worst_assoc degraded healthy t = refl
worst_assoc degraded degraded healthy = refl
worst_assoc degraded degraded degraded = refl
worst_assoc degraded degraded unhealthy = refl
worst_assoc degraded unhealthy t = refl
worst_assoc unhealthy s t = refl

worst_left : (s t : HealthStatus) → rank s ≤ rank (worst s t)
unfolding worst rank
worst_left healthy t = ground arith
worst_left degraded healthy = ground arith
worst_left degraded degraded = ground arith
worst_left degraded unhealthy = ground arith
worst_left unhealthy t = ground arith

worst_right : (s t : HealthStatus) → rank t ≤ rank (worst s t)
unfolding worst rank
worst_right healthy t = omega arith
worst_right degraded healthy = ground arith
worst_right degraded degraded = ground arith
worst_right degraded unhealthy = ground arith
worst_right unhealthy healthy = ground arith
worst_right unhealthy degraded = ground arith
worst_right unhealthy unhealthy = ground arith

worst_either : (s t : HealthStatus) → (worst s t ≡ s) ⊎ (worst s t ≡ t)
unfolding worst
worst_either healthy t = inr refl
worst_either degraded healthy = inl refl
worst_either degraded degraded = inl refl
worst_either degraded unhealthy = inr refl
worst_either unhealthy t = inl refl

-- What the two flags of the loop stand for.
flagged : Bool → Bool → HealthStatus
flagged u d = if u then unhealthy else if d then degraded else healthy

flagged-worst :
    (u d : Bool) (s : HealthStatus)
    → flagged (u || is_unhealthy s) (d || is_degraded s) ≡ worst (flagged u d) s
unfolding flagged worst
flagged-worst true d s = refl
flagged-worst false true healthy = refl
flagged-worst false true degraded = refl
flagged-worst false true unhealthy = refl
flagged-worst false false healthy = refl
flagged-worst false false degraded = refl
flagged-worst false false unhealthy = refl

module _ (hc : HealthChecker) where
  worst_of : List (Bytes × ℕ) → HealthStatus
  worst_of [] = healthy
  worst_of ((name, ptr) ∷ rest) = worst (status_of hc ptr) (worst_of rest)

  overall_loop-worst :
      (cs : List (Bytes × ℕ)) (u d : Bool)
      → overall_loop hc cs u d ≡ worst (flagged u d) (worst_of cs)
  unfolding overall_loop worst_of flagged worst
  overall_loop-worst [] true d = refl
  overall_loop-worst [] false true = refl
  overall_loop-worst [] false false = refl
  overall_loop-worst ((name, ptr) ∷ rest) u d =
      overall_loop-worst rest (u || is_unhealthy (status_of hc ptr))
        (d || is_degraded (status_of hc ptr))
      ∙ (ap (λ (s : HealthStatus). worst s (worst_of rest)) (flagged-worst u d (status_of hc ptr))
          ∙ worst_assoc (flagged u d) (status_of hc ptr) (worst_of rest))

  overall_checks-worst : (cs : List (Bytes × ℕ)) → overall_checks hc cs ≡ worst_of cs
  unfolding overall_checks worst_of flagged worst
  overall_checks-worst [] = refl
  overall_checks-worst (c ∷ rest) = overall_loop-worst (c ∷ rest) false false

  -- A status that no check is worse than, and that some check has unless it is `healthy`.
  abbrev pub IsWorst : HealthStatus → List (Bytes × ℕ) → Type 0
  IsWorst s cs =
      All (λ (c : Bytes × ℕ). rank (status_of hc c.1) ≤ rank s) cs
      × ((s ≡ healthy) ⊎ Any (λ (c : Bytes × ℕ). status_of hc c.1 ≡ s) cs)

  All-below :
      (s t : HealthStatus) (cs : List (Bytes × ℕ))
      → rank s ≤ rank t
      → All (λ (c : Bytes × ℕ). rank (status_of hc c.1) ≤ rank s) cs
      → All (λ (c : Bytes × ℕ). rank (status_of hc c.1) ≤ rank t) cs
  All-below s t [] h all = tt
  All-below s t (c ∷ cs) h all = (omega (arith, h, all.0), All-below s t cs h all.1)

  attained :
      (s t : HealthStatus) (c : Bytes × ℕ) (cs : List (Bytes × ℕ))
      → status_of hc c.1 ≡ s
      → (t ≡ healthy) ⊎ Any (λ (c' : Bytes × ℕ). status_of hc c'.1 ≡ t) cs
      → (worst s t ≡ healthy) ⊎ Any (λ (c' : Bytes × ℕ). status_of hc c'.1 ≡ worst s t) (c ∷ cs)
  attained s t c cs e h = elim (worst_either s t) [
    | inl l ↦ inr (inl (e ∙ sym l))
    | inr r ↦ elim h [
      | inl g ↦ inl (r ∙ g)
      | inr any ↦ inr (
          inr (
            subst (λ (x : HealthStatus). Any (λ (c' : Bytes × ℕ). status_of hc c'.1 ≡ x) cs) (sym r)
              any))
    ]
  ]

  worst_of-IsWorst : (cs : List (Bytes × ℕ)) → IsWorst (worst_of cs) cs
  unfolding worst_of
  worst_of-IsWorst [] = (tt, inl refl)
  worst_of-IsWorst ((name, ptr) ∷ rest) =
      let s = status_of hc ptr in
      let t = worst_of rest in
      let ih = worst_of-IsWorst rest in
      (
        (worst_left s t, All-below t (worst s t) rest (worst_right s t) ih.0),
        attained s t (name, ptr) rest refl ih.1,
      )

  -- The overall status is the worst status of a check, in whatever order the checks are read, and
  -- `healthy` where there is none.
  pub get_overall_status-IsWorst : IsWorst (get_overall_status hc) hc.checks
  unfolding get_overall_status
  get_overall_status-IsWorst =
      subst (λ (s : HealthStatus). IsWorst s hc.checks) (sym (overall_checks-worst hc.checks))
        (worst_of-IsWorst hc.checks)
