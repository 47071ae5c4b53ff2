-- ===== src/Examples/Routes.antt =====
-- Routing and the list of services on concrete texts.
use mathlib.Core.List.Perm
use mathlib.Core.Logic.Or
use mathlib.Core.List.{Mem, mem-cons, not-mem-nil}
use tunnel_agent.Base.{
  ◌≡◌, ◌≢◌, refl, sym, ◌∙◌, true, List, [], ◌∷◌, some, codes, arith, Bytes, bytes_eq,
}
use tunnel_agent.Forwarder.{
  LocalForwarder, parse_request, determine_local_url, new_local_forwarder, get_default_url,
}
use tunnel_agent.Errors.{ok}
use tunnel_agent.Forwarder.Parsing.{
  Written, IsWritten, print_request, parsed_as, parse_request-print_request,
}
use tunnel_agent.Forwarder.Routing.{routes, determine_local_url-Perm, determine_local_url_order}
use tunnel_agent.Services.{parse_local_services}
use tunnel_agent.Services.Default.{parse_local_services_plain}
use tunnel_agent.Text.{has_prefix, trim_space, trim_left}

-- A host that the services `a` and `a.b` both take.
abbrev host : Bytes
host = codes "a.b.c"

abbrev table : LocalForwarder
table = record { local_services = []; default_url = codes "d"; timeout = 1 }

determine_local_url_order_example :
    determine_local_url host
      (record table { local_services = (codes "a", codes "u") ∷ (codes "a.b", codes "v") ∷ [] })
    ≢ determine_local_url host
        (record table { local_services = (codes "a.b", codes "v") ∷ (codes "a", codes "u") ∷ [] })
unfolding has_prefix bytes_eq
determine_local_url_order_example =
    determine_local_url_order host table (codes "a", codes "u") (codes "a.b", codes "v") []
      (λ e. ground arith) refl refl (λ e. ground arith)

parse_local_services_plain_example :
    (get_default_url (parse_local_services (codes "http://x") (new_local_forwarder [] 30)) ≡ [])
    × (determine_local_url
          (codes "h")
          (parse_local_services (codes "http://x") (new_local_forwarder [] 30))
        ≡ [])
parse_local_services_plain_example =
    parse_local_services_plain (codes "http://x") (codes "h") 30 (omega arith)

-- The services `a` and `x`, in both orders; one of them takes the host.
abbrev services : List (Bytes × Bytes)
services = (codes "a", codes "u") ∷ (codes "x", codes "v") ∷ []

Bytes-set : IsSet Bytes
Bytes-set = hlevel

routed : (x : Bytes × Bytes) → Mem x services → routes host x ≡ true → x.1 ≡ codes "u"
unfolding has_prefix bytes_eq
routed x m h =
    Or.elim (Bytes-set _ _) (mem-cons.0 m) (λ e. rw e)
      λ deep.
        Or.elim (Bytes-set _ _) (mem-cons.0 deep) (λ e. absurd (cc (rw e at h)))
          λ nothing. absurd (not-mem-nil nothing)

agree :
    (x y : Bytes × Bytes)
    → Mem x services
    → Mem y services
    → routes host x ≡ true
    → routes host y ≡ true
    → x.1 ≡ y.1
agree x y mx my hx hy = routed x mx hx ∙ sym (routed y my hy)

determine_local_url-Perm_example :
    determine_local_url host (record table { local_services = services })
    ≡ determine_local_url host
        (record table { local_services = (codes "x", codes "v") ∷ (codes "a", codes "u") ∷ [] })
determine_local_url-Perm_example =
    determine_local_url-Perm host (record table { local_services = services })
      ((codes "x", codes "v") ∷ (codes "a", codes "u") ∷ []) (Perm.swap _ _ []) agree

abbrev written : Written
written = record {
  method = codes "GET";
  path = codes "/a";
  query = some (codes "q=1");
  version = codes "HTTP/1.1";
  fields = (codes "host", codes "a.b") ∷ [];
  body = codes "x\r\n\r\ny";
}

written-IsWritten : IsWritten written
unfolding trim_space trim_left
written-IsWritten = record {
  method = ground arith;
  path = ground arith;
  path_only = ground arith;
  query = ground arith;
  version = ground arith;
  fields = ((ground arith, ground arith, refl, ground arith, refl), tt);
}

parse_request-print_request_example : parse_request (print_request written) ≡ ok (parsed_as written)
parse_request-print_request_example = parse_request-print_request written written-IsWritten
