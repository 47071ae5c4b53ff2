-- ===== src/Forwarder/Parsing.antt =====
-- parseRequest of client/local_forward.go on the text of a request.
use tunnel_agent.Base.{
  ◌≡◌, ◌≢◌, refl, ap, ◌∙◌, ℕ, List, [], ◌∷◌, ◌++◌, Option, none, some, Bytes, codes, arith, All,
  map,
}
use tunnel_agent.Errors.{ok}
use tunnel_agent.Forwarder.{
  Header, header_add, Request, crlf, add_line, parse_headers, query_or_empty, parse_request_line,
  parse_lines, parse_parts, parse_request,
}
use tunnel_agent.Text.{cut, split, split_two, split_two_of, trim_space, trim_left, join}
use tunnel_agent.Text.Blocks.{IsLine, cut_blank_line}
use tunnel_agent.Text.Find.{Without, cut_found, cut_absent, split-join}

-- A request as a client writes it.
pub record Written : Type 0 where
  pub method : Bytes
  pub path : Bytes
  pub query : Option Bytes
  pub version : Bytes
  pub fields : List (Bytes × Bytes)
  pub body : Bytes

unfoldable pub target : Bytes → Option Bytes → Bytes
target path none = path
target path (some query) = path ++ (codes "?" ++ query)

-- key: value
unfoldable pub field_line : Bytes × Bytes → Bytes
field_line (key, value) = key ++ (codes ":" ++ (codes " " ++ value))

abbrev pub request_line : Written → Bytes
request_line w = join (codes " ") (w.method ∷ target w.path w.query ∷ w.version ∷ [])

unfoldable pub print_request : Written → Bytes
print_request w =
    join crlf (request_line w ∷ map field_line w.fields) ++ (codes "\r\n\r\n" ++ w.body)

-- The headers of the fields, in the order of their lines.
unfoldable pub headers_of : List (Bytes × Bytes) → Header → Header
headers_of [] h = h
headers_of ((key, value) ∷ fields) h = headers_of fields (header_add key value h)

-- White space stands inside a text only.
abbrev pub IsTrimmed : Bytes → Type 0
IsTrimmed s = trim_space s ≡ s

abbrev pub IsField : Bytes × Bytes → Type 0
IsField (key, value) =
    Without b'\r' key × Without b':' key × IsTrimmed key × Without b'\r' value × IsTrimmed value

-- A part of the request line.
abbrev pub IsWord : Bytes → Type 0
IsWord s = Without b'\r' s × Without b' ' s

abbrev pub IsQuery : Option Bytes → Type 0
IsQuery none = Unit
IsQuery (some query) = IsWord query

pub record IsWritten (w : Written) : Type 0 where
  pub method : IsWord w.method
  pub path : IsWord w.path
  pub path_only : Without b'?' w.path
  pub query : IsQuery w.query
  pub version : IsWord w.version
  pub fields : All IsField w.fields

Without-append : (x : ℕ) (s t : Bytes) → Without x s → Without x t → Without x (s ++ t)
Without-append x [] t h k = k
Without-append x (c ∷ s) t h k = (h.0, Without-append x s t h.1 k)

add_field :
    (key value : Bytes) (h : Header)
    → IsField (key, value)
    → add_line (cut (codes ":") (field_line (key, value))) h ≡ header_add key value h
unfolding field_line add_line
add_field key value h (_, colon, trimmed, _, kept) =
    rw (cut_found b':' [] key (codes " " ++ value) colon) (
      ap (λ (k : Bytes). header_add k (trim_space (codes " " ++ value)) h) trimmed
      ∙ ap (λ (v : Bytes). header_add key v h) (space value ∙ kept))
  where
    space : (v : Bytes) → trim_space (codes " " ++ v) ≡ trim_space v
    space v = unfold trim_space trim_left in refl

parse_headers-fields :
    (fields : List (Bytes × Bytes)) (h : Header)
    → All IsField fields
    → parse_headers (map field_line fields) h ≡ headers_of fields h
unfolding parse_headers headers_of
parse_headers-fields [] h good = refl
parse_headers-fields ((key, value) ∷ fields) h good =
    ap (parse_headers (map field_line fields)) (add_field key value h good.0)
    ∙ parse_headers-fields fields (header_add key value h) good.1

target-IsWord :
    (path : Bytes) (query : Option Bytes) → IsWord path → IsQuery query → IsWord (target path query)
unfolding target
target-IsWord path none p q = p
target-IsWord path (some query) p q = (
  Without-append b'\r' path _ p.0 (ground arith, q.0),
  Without-append b' ' path _ p.1 (ground arith, q.1),
)

cut-target :
    (path : Bytes) (query : Option Bytes)
    → Without b'?' path
    → cut (codes "?") (target path query) ≡ (path, query)
unfolding target
cut-target path none h = cut_absent b'?' [] path h
cut-target path (some query) h = cut_found b'?' [] path query h

field_line-IsLine : (field : Bytes × Bytes) → IsField field → IsLine (field_line field)
unfolding field_line
field_line-IsLine (key, value) (cr, _, _, value_cr, _) =
    (Without-append b'\r' key _ cr (ground arith, (ground arith, value_cr)), not_nil key)
  where
    not_nil : (k : Bytes) → k ++ (codes ":" ++ (codes " " ++ value)) ≢ []
    not_nil [] e = cc
    not_nil (c ∷ k) e = cc

fields-All :
    (fields : List (Bytes × Bytes)) → All IsField fields → All IsLine (map field_line fields)
fields-All [] h = tt
fields-All (field ∷ fields) h = (field_line-IsLine field h.0, fields-All fields h.1)

lines-Without : (lines : List Bytes) → All IsLine lines → All (Without b'\r') lines
lines-Without [] h = tt
lines-Without (l ∷ ls) h = (h.0.0, lines-Without ls h.1)

request_line-Without : (w : Written) → IsWritten w → Without b'\r' (request_line w)
unfolding join
request_line-Without w h = Without-append b'\r' w.method _ h.method.0 (
  ground arith,
  Without-append b'\r' (target w.path w.query) _ (target-IsWord w.path w.query h.path h.query).0
      (ground arith, h.version.0),
)

request_line-split :
    (w : Written)
    → IsWritten w
    → split (codes " ") (request_line w) ≡ w.method ∷ target w.path w.query ∷ w.version ∷ []
request_line-split w h =
    split-join b' ' [] w.method (target w.path w.query ∷ w.version ∷ []) h.method.1
      ((target-IsWord w.path w.query h.path h.query).1, (h.version.1, tt))

abbrev pub parsed_as : Written → Request
parsed_as w = record {
  method = w.method;
  path = w.path;
  query = query_or_empty w.query;
  headers = headers_of w.fields [];
  body = w.body;
}

-- A request that is written as usual is parsed into its parts: the method, the path, the query, the
-- fields in their order, each under its canonical key and without the white space around it, and
-- the body, whatever bytes the body has.
pub parse_request-print_request :
    (w : Written) → IsWritten w → parse_request (print_request w) ≡ ok (parsed_as w)
unfolding parse_request print_request parse_parts parse_lines parse_request_line split_two
parse_request-print_request w h =
    let lines = map field_line w.fields in
    let parts = w.method ∷ target w.path w.query ∷ w.version ∷ [] in
    ap (λ (r : Bytes × Option Bytes). parse_parts (split_two_of r))
      (cut_blank_line (request_line w) lines w.body (request_line-Without w h)
        (fields-All w.fields h.fields))
    ∙ (ap (λ (ls : List Bytes). parse_lines ls w.body)
          (split-join b'\r' (codes "\n") (request_line w) lines (request_line-Without w h)
            (lines-Without lines (fields-All w.fields h.fields)))
        ∙ (ap (λ (ps : List Bytes). parse_request_line ps (parse_headers lines []) w.body)
              (request_line-split w h)
            ∙ (ap (λ (hs : Header). parse_request_line parts hs w.body)
                  (parse_headers-fields w.fields [] h.fields)
                ∙ ap
                    (λ (r : Bytes × Option Bytes).
                      ok (record (parsed_as w) { path = r.0; query = query_or_empty r.1 }))
                    (cut-target w.path w.query h.path_only))))
