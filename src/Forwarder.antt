-- ===== src/Forwarder.antt =====
-- client/local_forward.go: the table of local services, parsing of a request, the local URL, and the
-- response text. A map is an association list in the order in which `range` goes over it, so a
-- statement for every order is one for every list with the same entries.
pub mod Routing
pub mod Url
pub mod Parsing
pub mod Forwarding
use tunnel_agent.Base.{
  ℕ, suc, Bool, true, false, not, ◌&&◌, ◌||◌, List, [], ◌∷◌, ◌++◌, Option, none, some, Bytes, codes,
  map, ◌==◌, leb, bytes_eq, lookup, insert, string_eq, if◌then◌else◌,
}
use tunnel_agent.Errors.{GoError, foreign, Result, ok, err}
use tunnel_agent.Text.{
  has_prefix, cut, split, split_two, trim_space, trim_left, trim_right, lower, upper,
}

pub record LocalForwarder : Type 0 where
  pub local_services : List (Bytes × Bytes)
  pub default_url : Bytes
  pub timeout : ℕ

unfoldable pub new_local_forwarder : Bytes → ℕ → LocalForwarder
new_local_forwarder default_url timeout = record {
  local_services = [];
  default_url = default_url;
  timeout = timeout;
}

unfoldable pub add_service : Bytes → Bytes → LocalForwarder → LocalForwarder
add_service subdomain local_url lf = record lf {
  local_services = insert subdomain local_url lf.local_services;
}

abbrev pub set_default_url : Bytes → LocalForwarder → LocalForwarder
set_default_url url lf = record lf { default_url = url }

abbrev pub get_default_url : LocalForwarder → Bytes
get_default_url lf = lf.default_url

-- for sub := range lf.localServices { if sub != "" { subs = append(subs, sub) } }
unfoldable pub subdomains_of : List (Bytes × Bytes) → List Bytes
subdomains_of [] = []
subdomains_of ((sub, url) ∷ rest) =
    if not (bytes_eq sub []) then sub ∷ subdomains_of rest else subdomains_of rest

abbrev pub get_subdomains : LocalForwarder → List Bytes
get_subdomains lf = subdomains_of lf.local_services

-- strings.HasPrefix(host, sub+".") || host == sub
abbrev pub matches_host : Bytes → Bytes → Bool
matches_host host sub = has_prefix host (sub ++ codes ".") || bytes_eq host sub

-- The loop over the services.
unfoldable pub first_match : Bytes → List (Bytes × Bytes) → Bytes → Bytes
first_match host [] default_url = default_url
first_match host ((sub, url) ∷ rest) default_url =
    if not (bytes_eq sub []) && matches_host host sub
    then url
    else first_match host rest default_url

unfoldable pub determine_local_url : Bytes → LocalForwarder → Bytes
unfolding first_match
determine_local_url host lf =
    if bytes_eq host [] then lf.default_url else first_match host lf.local_services lf.default_url

abbrev pub is_slash : ℕ → Bool
is_slash c = c == b'/'

unfoldable pub build_local_url : Bytes → Bytes → Bytes → Bytes
build_local_url base_url path query =
    let url = trim_right is_slash base_url ++ (codes "/" ++ trim_left is_slash path) in
    if not (bytes_eq query []) then url ++ (codes "?" ++ query) else url

-- An http.Header: the values of each canonical key, in the order of their coming.
abbrev pub Header : Type 0
Header = List (Bytes × List Bytes)

-- A byte of a token, as net/textproto takes it.
abbrev pub is_token : ℕ → Bool
is_token c =
    leb b'a' c && leb c b'z'
    || leb b'A' c && leb c b'Z'
    || leb b'0' c && leb c b'9'
    || c == b'!'
    || c == b'#'
    || c == b'$'
    || c == b'%'
    || c == b'&'
    || c == b'\''
    || c == b'*'
    || c == b'+'
    || c == b'-'
    || c == b'.'
    || c == b'^'
    || c == b'_'
    || c == b'`'
    || c == b'|'
    || c == b'~'

all_tokens : Bytes → Bool
all_tokens [] = true
all_tokens (c ∷ s) = is_token c && all_tokens s

-- Upper case at the start and behind each dash, lower case elsewhere.
canonical_from : Bool → Bytes → Bytes
canonical_from up [] = []
canonical_from up (c ∷ s) = (if up then upper c else lower c) ∷ canonical_from (c == b'-') s

-- textproto.CanonicalMIMEHeaderKey
unfoldable pub canonical_key : Bytes → Bytes
unfolding all_tokens canonical_from
canonical_key key = if all_tokens key then canonical_from true key else key

values_or_nil : Option (List Bytes) → List Bytes
values_or_nil none = []
values_or_nil (some vs) = vs

-- headers.Add(key, value) and headers.Get(key)
unfoldable pub header_add : Bytes → Bytes → Header → Header
unfolding canonical_key values_or_nil
header_add key value h =
    insert (canonical_key key) (values_or_nil (lookup (canonical_key key) h) ++ value ∷ []) h

first_value : List Bytes → Bytes
first_value [] = []
first_value (v ∷ vs) = v

unfoldable pub header_get : Bytes → Header → Bytes
unfolding canonical_key values_or_nil first_value
header_get key h = first_value (values_or_nil (lookup (canonical_key key) h))

pub record Request : Type 0 where
  pub method : Bytes
  pub path : Bytes
  pub query : Bytes
  pub headers : Header
  pub body : Bytes

abbrev pub crlf : Bytes
crlf = codes "\r\n"

-- One line of the header; a line with no colon is skipped.
add_line : Bytes × Option Bytes → Header → Header
unfolding header_add
add_line (before, none) headers = headers
add_line (before, some after) headers = header_add (trim_space before) (trim_space after) headers

unfoldable pub parse_headers : List Bytes → Header → Header
unfolding add_line
parse_headers [] headers = headers
parse_headers (line ∷ lines) headers = parse_headers lines (add_line (cut (codes ":") line) headers)

abbrev pub query_or_empty : Option Bytes → Bytes
query_or_empty none = []
query_or_empty (some query) = query

-- The method and the target, which stand before the first two spaces of the request line; there
-- must be a third part.
parse_request_line : List Bytes → Header → Bytes → Result Request
parse_request_line (method ∷ target ∷ version ∷ parts) headers body = ok (record {
  method = method;
  path = (cut (codes "?") target).0;
  query = query_or_empty (cut (codes "?") target).1;
  headers = headers;
  body = body;
})
parse_request_line _ headers body = err (foreign (codes "invalid request line format"))

parse_lines : List Bytes → Bytes → Result Request
unfolding parse_request_line
parse_lines [] body = err (foreign (codes "invalid request line"))
parse_lines (line ∷ lines) body =
    parse_request_line (split (codes " ") line) (parse_headers lines []) body

parse_parts : List Bytes → Result Request
unfolding parse_lines
parse_parts [] = err (foreign (codes "invalid request format"))
parse_parts (head ∷ []) = parse_lines (split crlf head) []
parse_parts (head ∷ body ∷ rest) = parse_lines (split crlf head) body

unfoldable pub parse_request : Bytes → Result Request
unfolding parse_parts
parse_request payload = parse_parts (split_two (codes "\r\n\r\n") payload)

-- An http.Response, as far as it is written back.
pub record Response : Type 0 where
  pub proto : Bytes
  pub status : Bytes
  pub header : Header

-- fmt.Sprintf("%s: %s\r\n", key, value)
abbrev pub header_line : Bytes → Bytes → Bytes
header_line key value = key ++ (codes ": " ++ (value ++ crlf))

unfoldable pub value_lines : Bytes → List Bytes → Bytes
value_lines key [] = []
value_lines key (value ∷ values) = header_line key value ++ value_lines key values

unfoldable pub header_lines : Header → Bytes
unfolding value_lines
header_lines [] = []
header_lines ((key, values) ∷ rest) = value_lines key values ++ header_lines rest

-- What writeResponseHeader writes to the stream, in one call of Write.
unfoldable pub response_header : Response → Bytes
unfolding header_lines
response_header resp =
    resp.proto ++ (codes " " ++ (resp.status ++ (crlf ++ (header_lines resp.header ++ crlf))))

unfoldable pub build_response : Response → Bytes → Bytes
unfolding header_lines
build_response resp body =
    (resp.proto ++ (codes " " ++ (resp.status ++ crlf)))
    ++ (header_lines resp.header ++ (crlf ++ body))
