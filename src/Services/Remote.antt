-- ===== src/Services/Remote.antt =====
-- fetchRemoteConfig of cmd/agent/main.go. The HTTP client and the JSON decoder are parameters.
use tunnel_agent.Base.{
  ℕ, ◌≡◌, ◌≢◌, refl, ap, ◌∙◌, inl, inr, Bool, true, false, List, [], ◌∷◌, ◌++◌, Option, none, some,
  Bytes, codes, arith, ◌==◌, bytes_eq, lookup, insert, lookup-insert, string_eq, Bool-cases,
  if_both, if◌then◌else◌,
}
use tunnel_agent.Errors.{GoError, Result, ok, err}
use tunnel_agent.Forwarder.{LocalForwarder, add_service}
use tunnel_agent.Services.{add_mapping, add_mappings}

-- `valid_url` is whether http.NewRequest takes the URL; `do_request` sends a GET with the header
-- X-Tunnel-Token and gives status and body; `decode` gives the pairs of subdomain and target.
pub record ConfigClient : Type 0 where
  pub valid_url : Bytes → Bool
  pub do_request : Bytes → Bytes → Result (ℕ × Bytes)
  pub decode : Bytes → Result (List (Bytes × Bytes))

-- A request that is nil has no header to set: that panics.
pub data Fetched : Type 0 where
  fetched : LocalForwarder → Fetched
  nil_request : Fetched

abbrev pub config_url : Bytes → Bytes
config_url api_base = api_base ++ codes "/api/user/config"

module _ (client : ConfigClient) where
  decoded : Result (List (Bytes × Bytes)) → LocalForwarder → LocalForwarder
  decoded (err e) lf = lf
  decoded (ok mappings) lf = add_mappings mappings lf

  answered : Result (ℕ × Bytes) → LocalForwarder → LocalForwarder
  unfolding decoded
  answered (err e) lf = lf
  answered (ok (status, body)) lf = if status == 200 then decoded (client.decode body) lf else lf

  -- The error of http.NewRequest is ignored.
  unfoldable pub fetch_remote_config : Bytes → Bytes → LocalForwarder → Fetched
  unfolding answered
  fetch_remote_config api_base token lf =
      if client.valid_url (config_url api_base)
      then fetched (answered (client.do_request (config_url api_base) token) lf)
      else nil_request

-- The target of the last mapping of a subdomain.
abbrev pub or_else {ℓ} : {A : Type ℓ} → Option A → Option A → Option A
or_else none o = o
or_else (some a) o = some a

abbrev pub last_target : Bytes → List (Bytes × Bytes) → Option Bytes
last_target host [] = none
last_target host ((sub, target) ∷ rest) =
    or_else (last_target host rest) (if bytes_eq sub host then some target else none)

-- The first URL that is not empty.
abbrev pub first_url : Bytes → List (Bytes × Bytes) → Bytes
first_url url [] = url
first_url url ((sub, target) ∷ rest) = if bytes_eq url [] then first_url target rest else url

-- What a fetch does in each case.
pub data Fetches (client : ConfigClient) (url token : Bytes) (lf : LocalForwarder)
    : Fetched → Type 0 where
  bad_url : client.valid_url url ≡ false → Fetches client url token lf nil_request
  no_answer :
      {e : GoError}
      → client.valid_url url ≡ true
      → client.do_request url token ≡ err e
      → Fetches client url token lf (fetched lf)
  bad_status :
      {status : ℕ} {body : Bytes}
      → client.valid_url url ≡ true
      → client.do_request url token ≡ ok (status, body)
      → status ≢ 200
      → Fetches client url token lf (fetched lf)
  bad_body :
      {body : Bytes} {e : GoError}
      → client.valid_url url ≡ true
      → client.do_request url token ≡ ok (200, body)
      → client.decode body ≡ err e
      → Fetches client url token lf (fetched lf)
  configures :
      {body : Bytes} {mappings : List (Bytes × Bytes)} (lf' : LocalForwarder)
      → client.valid_url url ≡ true
      → client.do_request url token ≡ ok (200, body)
      → client.decode body ≡ ok mappings
      → ((host : Bytes)
          → lookup host lf'.local_services
            ≡ or_else (last_target host mappings) (lookup host lf.local_services))
      → lf'.default_url ≡ first_url lf.default_url mappings
      → Fetches client url token lf (fetched lf')

add_mapping-lookup :
    (sub target host : Bytes) (lf : LocalForwarder)
    → lookup host (add_mapping sub target lf).local_services
      ≡ or_else (if bytes_eq sub host then some target else none) (lookup host lf.local_services)
unfolding add_service
add_mapping-lookup sub target host lf =
    if_both
      (λ (x : LocalForwarder).
        lookup host x.local_services
        ≡ or_else (if bytes_eq sub host then some target else none) (lookup host lf.local_services))
      (bytes_eq lf.default_url []) _ _ inserted inserted
  where
    branch :
        (b : Bool) (o : Option Bytes)
        → (if b then some target else o) ≡ or_else (if b then some target else none) o
    branch true o = refl
    branch false o = refl

    inserted :
        lookup host (insert sub target lf.local_services)
        ≡ or_else (if bytes_eq sub host then some target else none) (lookup host lf.local_services)
    inserted =
        lookup-insert sub host target lf.local_services
        ∙ branch (bytes_eq sub host) (lookup host lf.local_services)

first_url_set :
    (url : Bytes) (ms : List (Bytes × Bytes)) → bytes_eq url [] ≡ false → first_url url ms ≡ url
first_url_set url [] h = refl
first_url_set url ((sub, target) ∷ ms) h = rw h refl

add_mapping-default :
    (sub target : Bytes) (lf : LocalForwarder) (rest : List (Bytes × Bytes))
    → first_url (add_mapping sub target lf).default_url rest
      ≡ first_url lf.default_url ((sub, target) ∷ rest)
unfolding add_service
add_mapping-default sub target lf rest = elim (Bool-cases (bytes_eq lf.default_url [])) [
  | inl e ↦ rw e refl
  | inr e ↦ rw e (first_url_set lf.default_url rest e)
]

or_else_assoc {ℓ} :
    {A : Type ℓ} (a b c : Option A) → or_else a (or_else b c) ≡ or_else (or_else a b) c
or_else_assoc none b c = refl
or_else_assoc (some x) b c = refl

add_mappings-lookup :
    (ms : List (Bytes × Bytes)) (host : Bytes) (lf : LocalForwarder)
    → lookup host (add_mappings ms lf).local_services
      ≡ or_else (last_target host ms) (lookup host lf.local_services)
unfolding add_mappings
add_mappings-lookup [] host lf = refl
add_mappings-lookup ((sub, target) ∷ ms) host lf =
    add_mappings-lookup ms host (add_mapping sub target lf)
    ∙ ap (or_else (last_target host ms)) (add_mapping-lookup sub target host lf)
    ∙ or_else_assoc (last_target host ms) (if bytes_eq sub host then some target else none)
        (lookup host lf.local_services)

add_mappings-default :
    (ms : List (Bytes × Bytes)) (lf : LocalForwarder)
    → (add_mappings ms lf).default_url ≡ first_url lf.default_url ms
unfolding add_mappings
add_mappings-default [] lf = refl
add_mappings-default ((sub, target) ∷ ms) lf =
    add_mappings-default ms (add_mapping sub target lf) ∙ add_mapping-default sub target lf ms

module _ (client : ConfigClient) (api_base token : Bytes) (lf : LocalForwarder) where
  decoded-Fetches :
      (body : Bytes) (r : Result (List (Bytes × Bytes)))
      → client.valid_url (config_url api_base) ≡ true
      → client.do_request (config_url api_base) token ≡ ok (200, body)
      → client.decode body ≡ r
      → Fetches client (config_url api_base) token lf (fetched (decoded client r lf))
  unfolding decoded
  decoded-Fetches body (err e) v a d = bad_body v a d
  decoded-Fetches body (ok ms) v a d =
      configures (add_mappings ms lf) v a d (λ host. add_mappings-lookup ms host lf)
        (add_mappings-default ms lf)

  answered-Fetches :
      (r : Result (ℕ × Bytes))
      → client.valid_url (config_url api_base) ≡ true
      → client.do_request (config_url api_base) token ≡ r
      → Fetches client (config_url api_base) token lf (fetched (answered client r lf))
  unfolding answered
  answered-Fetches (err e) v a = no_answer v a
  answered-Fetches (ok (status, body)) v a = elim (Bool-cases (status == 200)) [
    | inl good ↦ rw good (
        decoded-Fetches body (client.decode body) v
          (a ∙ ap (λ (n : ℕ). ok (n, body)) (is_200 status good)) refl)
    | inr bad ↦ rw bad (bad_status v a (not_200 status bad))
  ]
    where
      is_200 : (n : ℕ) → (n == 200) ≡ true → n ≡ 200
      is_200 n h = ground arith

      not_200 : (n : ℕ) → (n == 200) ≡ false → n ≢ 200
      not_200 n h = ground arith

  -- A fetch changes the table only on an answer with status 200 that decodes: then each subdomain
  -- goes to its last target, the others stay, and the default URL is the first that is not empty. A
  -- URL that http.NewRequest refuses makes the agent panic.
  pub fetch_remote_config-Fetches :
      Fetches client (config_url api_base) token lf (fetch_remote_config client api_base token lf)
  unfolding fetch_remote_config
  fetch_remote_config-Fetches = elim (Bool-cases (client.valid_url (config_url api_base))) [
    | inl v ↦ rw v (answered-Fetches (client.do_request (config_url api_base) token) v refl)
    | inr v ↦ rw v (bad_url v)
  ]
