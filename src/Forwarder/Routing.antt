-- ===== src/Forwarder/Routing.antt =====
-- determineLocalURL of client/local_forward.go, which takes the first service that `range` comes to.
use mathlib.Core.Logic.Or
use mathlib.Core.List.{Mem, Perm, mem-cons, not-mem-nil, mem-cons_self, mem-cons_of_mem}
use mathlib.Core.Bool.{Bool-set}
use mathlib.Core.List.Perm
use tunnel_agent.Base.{
  ◌≡◌, ◌≢◌, refl, sym, ◌∙◌, ◌⊎◌, inl, inr, Bool, true, false, not, ◌&&◌, List, [], ◌∷◌, Bytes,
  arith, Bool-cases, bytes_eq, bytes_eq_iff, ap, if◌then◌else◌,
}
use tunnel_agent.Forwarder.{LocalForwarder, first_match, matches_host, determine_local_url}

-- The service takes requests for the host.
abbrev pub routes : Bytes → Bytes × Bytes → Bool
routes host service = not (bytes_eq service.0 []) && matches_host host service.0

pub first_match_step :
    (host : Bytes) (x : Bytes × Bytes) (rest : List (Bytes × Bytes)) (default_url : Bytes)
    → first_match host (x ∷ rest) default_url
      ≡ (if routes host x then x.1 else first_match host rest default_url)
unfolding first_match
first_match_step host (sub, url) rest default_url = refl

-- The URL is that of a service that takes the host, or the default where none does.
first_match_cases :
    (host : Bytes) (l : List (Bytes × Bytes)) (default_url : Bytes)
    → ((x : Bytes × Bytes) × Mem x l
        × (routes host x ≡ true)
        × (first_match host l default_url ≡ x.1))
      ⊎ (((x : Bytes × Bytes) → Mem x l → routes host x ≡ false)
          × (first_match host l default_url ≡ default_url))
first_match_cases host [] default_url =
    inr (λ x m. absurd (not-mem-nil m), unfold first_match in refl)
first_match_cases host (x ∷ rest) default_url = elim (Bool-cases (routes host x)) [
  | inl hit ↦ inl (x, mem-cons_self, hit, first_match_step host x rest default_url ∙ rw hit)
  | inr miss ↦
      let later : first_match host (x ∷ rest) default_url ≡ first_match host rest default_url =
        first_match_step host x rest default_url ∙ rw miss in
      elim (first_match_cases host rest default_url) [
        | inl (y, m, hit, e) ↦ inl (y, mem-cons_of_mem _ m, hit, later ∙ e)
        | inr (none_is, e) ↦ inr (
          λ y m.
              Or.elim (Bool-set _ _) (mem-cons.0 m) (λ same. rw same miss) (λ deep. none_is y deep),
          later ∙ e,
        )
      ]
]

first_match-Perm :
    (host default_url : Bytes) (l l' : List (Bytes × Bytes))
    → Perm l l'
    → ((x y : Bytes × Bytes)
        → Mem x l
        → Mem y l
        → routes host x ≡ true
        → routes host y ≡ true
        → x.1 ≡ y.1)
    → first_match host l default_url ≡ first_match host l' default_url
first_match-Perm host default_url l l' p agree = elim (first_match_cases host l default_url) [
  | inl (x, m, hit, e) ↦ elim (first_match_cases host l' default_url) [
    | inl (y, m', hit', e') ↦ e ∙ agree x y m ((Perm.mem_iff p).1 m') hit hit' ∙ sym e'
    | inr (none_is, _) ↦ cc (hit, none_is x ((Perm.mem_iff p).0 m))
  ]
  | inr (none_is, e) ↦ elim (first_match_cases host l' default_url) [
    | inl (y, m', hit', _) ↦ cc (hit', none_is y ((Perm.mem_iff p).1 m'))
    | inr (_, e') ↦ e ∙ sym e'
  ]
]

first_match_order :
    (host default_url : Bytes) (x y : Bytes × Bytes) (rest : List (Bytes × Bytes))
    → routes host x ≡ true
    → routes host y ≡ true
    → x.1 ≢ y.1
    → first_match host (x ∷ y ∷ rest) default_url ≢ first_match host (y ∷ x ∷ rest) default_url
first_match_order host default_url x y rest hx hy differ same = differ (
    sym (first_match_step host x (y ∷ rest) default_url ∙ rw hx)
    ∙ same
    ∙ (first_match_step host y (x ∷ rest) default_url ∙ rw hy))

-- Where the services that take a host agree on the URL, the order in which the map is read does
-- not matter.
pub determine_local_url-Perm :
    (host : Bytes) (lf : LocalForwarder) (services : List (Bytes × Bytes))
    → Perm lf.local_services services
    → ((x y : Bytes × Bytes)
        → Mem x lf.local_services
        → Mem y lf.local_services
        → routes host x ≡ true
        → routes host y ≡ true
        → x.1 ≡ y.1)
    → determine_local_url host lf
      ≡ determine_local_url host (record lf { local_services = services })
unfolding determine_local_url
determine_local_url-Perm host lf services p agree =
    ap (λ (u : Bytes). if bytes_eq host [] then lf.default_url else u)
      (first_match-Perm host lf.default_url lf.local_services services p agree)

-- Where two services that take a host differ, the order in which the map is read decides between
-- them.
pub determine_local_url_order :
    (host : Bytes) (lf : LocalForwarder) (x y : Bytes × Bytes) (rest : List (Bytes × Bytes))
    → host ≢ []
    → routes host x ≡ true
    → routes host y ≡ true
    → x.1 ≢ y.1
    → determine_local_url host (record lf { local_services = x ∷ y ∷ rest })
      ≢ determine_local_url host (record lf { local_services = y ∷ x ∷ rest })
unfolding determine_local_url
determine_local_url_order host lf x y rest some_host hx hy differ =
    let given : bytes_eq host [] ≡ false = ground (arith, bytes_eq_iff host []) in
    rw given (first_match_order host lf.default_url x y rest hx hy differ)
