-- ===== src/Services/Default.antt =====
-- What a list of services with no subdomain does, for parseLocalServices of cmd/agent/main.go.
use tunnel_agent.Base.{
  ◌≡◌, ◌≢◌, refl, ◌∙◌, inl, inr, List, [], ◌∷◌, Bytes, All, codes, Bool-cases, bytes_eq,
  bytes_eq_refl, insert, string_eq, ℕ, if_both,
}
use tunnel_agent.Forwarder.{
  LocalForwarder, add_service, new_local_forwarder, determine_local_url, first_match,
  get_default_url,
}
use tunnel_agent.Services.{add_part, add_parts, parse_local_services}
use tunnel_agent.Text.{split, trim_space}
use tunnel_agent.Text.Pieces.{split-All, trim_space-All, contains_sub_absent}

-- A part without an equals sign.
abbrev IsPlain : Bytes → Type 0
IsPlain s = All (λ c. c ≢ b'=') s

-- Every service is the one with the empty subdomain, and the default is the one at the start.
record IsNameless (default_url : Bytes) (lf : LocalForwarder) : Type 0 where
  unnamed : All (λ (x : Bytes × Bytes). x.0 ≡ []) lf.local_services
  same_default : lf.default_url ≡ default_url

insert-unnamed :
    (url : Bytes) (m : List (Bytes × Bytes))
    → All (λ (x : Bytes × Bytes). x.0 ≡ []) m
    → All (λ (x : Bytes × Bytes). x.0 ≡ []) (insert [] url m)
unfolding insert
insert-unnamed url [] h = (refl, tt)
insert-unnamed url ((k, v) ∷ m) h = elim (Bool-cases (bytes_eq k [])) [
  | inl e ↦ rw e (refl, h.1)
  | inr e ↦ rw e (h.0, insert-unnamed url m h.1)
]

add_part-IsNameless :
    (d part : Bytes) (lf : LocalForwarder)
    → IsPlain part
    → IsNameless d lf
    → IsNameless d (add_part part lf)
unfolding add_part add_service
add_part-IsNameless d part lf plain h = if_both (IsNameless d) (bytes_eq part []) _ _ h (
    rw (contains_sub_absent b'=' part plain) (record {
      unnamed = insert-unnamed part lf.local_services h.unnamed;
      same_default = h.same_default;
    }))

add_parts-IsNameless :
    (d : Bytes) (parts : List Bytes) (lf : LocalForwarder)
    → All IsPlain parts
    → IsNameless d lf
    → IsNameless d (add_parts parts lf)
unfolding add_parts
add_parts-IsNameless d [] lf plain h = h
add_parts-IsNameless d (part ∷ parts) lf plain h =
    add_parts-IsNameless d parts (add_part (trim_space part) lf) plain.1
      (add_part-IsNameless d (trim_space part) lf (trim_space-All (λ c. c ≢ b'=') part plain.0) h)

first_match-unnamed :
    (host d : Bytes) (m : List (Bytes × Bytes))
    → All (λ (x : Bytes × Bytes). x.0 ≡ []) m
    → first_match host m d ≡ d
unfolding first_match
first_match-unnamed host d [] h = refl
first_match-unnamed host d ((k, v) ∷ m) h =
    rw (h.0, bytes_eq_refl []) (first_match-unnamed host d m h.1)

-- A list of services in which no part has an equals sign never sets the default URL: from a
-- forwarder made with an empty default, as the agent makes it, every host gets the empty URL.
pub parse_local_services_plain :
    (input host : Bytes) (timeout : ℕ)
    → All (λ c. c ≢ b'=') input
    → (get_default_url (parse_local_services input (new_local_forwarder [] timeout)) ≡ [])
      × (determine_local_url host (parse_local_services input (new_local_forwarder [] timeout))
          ≡ [])
unfolding parse_local_services new_local_forwarder determine_local_url
parse_local_services_plain input host timeout plain =
    let lf = parse_local_services input (new_local_forwarder [] timeout) in
    let h =
      add_parts-IsNameless [] (split (codes ",") input) (new_local_forwarder [] timeout)
        (split-All (λ c. c ≢ b'=') (codes ",") input plain)
        (record { unnamed = tt; same_default = refl }) in
    (
      h.same_default,
      if_both (λ (u : Bytes). u ≡ []) (bytes_eq host []) _ _ h.same_default
          (first_match-unnamed host lf.default_url lf.local_services h.unnamed ∙ h.same_default),
    )
