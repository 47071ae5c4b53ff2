-- ===== src/Examples/Forwarding.antt =====
-- A forwarded request on concrete data.
use tunnel_agent.Agent.{new_agent}
use tunnel_agent.Base.{arith, ◌≡◌, refl, [], ◌∷◌, none, some, codes, Bytes, bytes_eq, string_eq}
use tunnel_agent.Forwarder.{parse_request, build_local_url}
use tunnel_agent.Forwarder.Forwarding.{Span, forward_request}
use tunnel_agent.Forwarder.Forwarding.Completion.{forward_request_completes}
use tunnel_agent.Forwarder.{Request, parse_headers}
use tunnel_agent.Base.{insert, lookup}
use tunnel_agent.Text.{trim_space}
use tunnel_agent.Forwarder.Url.{Joins, build_local_url-Joins}
use tunnel_agent.Examples.{demo, demo_http, demo_answer, demo_table, connected_agent}
use tunnel_agent.Stream.{fresh_stream}
use tunnel_agent.Stream.Metadata.{set_metadata, get_metadata, get_metadata-set_metadata}
use tunnel_agent.Stream.Writer.{Sending, copy, write_frame}
use tunnel_agent.Stream.Writer.Bursts.{quiet, copy_burst}
use tunnel_agent.Stream.Writer.Overwriting.{copy_overwrites}
use tunnel_agent.Text.{cut, has_prefix, split, split_two}

abbrev request : Bytes
request = codes "GET /index?q=1 HTTP/1.1\r\nHost: a.example.com\r\n\r\n"

abbrev sending : Sending
sending = record { connector = connected_agent.connector; accepted = [] }

abbrev span : Span
span = record { started = 3; finished = 4 }

abbrev parsed : Request
parsed = record {
  method = codes "GET";
  path = codes "/index";
  query = codes "q=1";
  headers = (codes "Host", codes "a.example.com" ∷ []) ∷ [];
  body = [];
}

build_local_url-Joins_example :
    Joins
      (codes "http://localhost:3003//")
      (codes "/index")
      (codes "q=1")
      (build_local_url (codes "http://localhost:3003//") (codes "/index") (codes "q=1"))
build_local_url-Joins_example =
    build_local_url-Joins (codes "http://localhost:3003//") (codes "/index") (codes "q=1")

copy_burst_example : (copy demo 5 0 (quiet (codes "a" ∷ [] ∷ codes "b" ∷ [])) none sending).1 ≡ none
unfolding new_agent
copy_burst_example =
    copy_burst demo 5 0 (codes "a" ∷ [] ∷ codes "b" ∷ []) none sending refl (omega arith)

metadata_kept :
    get_metadata (codes "k") (set_metadata (codes "k") (codes "v") (fresh_stream 5 0))
    ≡ some (codes "v")
unfolding bytes_eq
metadata_kept = get_metadata-set_metadata (codes "k") (codes "k") (codes "v") (fresh_stream 5 0)

forward_request_completes_example :
    (forward_request demo demo_http span demo_table 5 request sending
      connected_agent.globals).result
    ≡ none
unfolding new_agent parse_request split split_two cut has_prefix parse_headers insert trim_space
    lookup
forward_request_completes_example =
    forward_request_completes demo demo_http span demo_table 5 0 request sending
      connected_agent.globals parsed demo_answer.response (codes "hello" ∷ []) refl refl refl refl
      (omega arith)

copy_overwrites_example :
    (copy demo 5 7
      (quiet (codes "ab" ∷ codes "cd" ∷ codes "ef" ∷ []))
      none
      sending).0.connector.send_ch
    ≡ write_frame demo 5 (some 7) (codes "ef")
      ∷ write_frame demo 5 (some 7) (codes "ef")
      ∷ write_frame demo 5 (some 7) (codes "ef")
      ∷ []
unfolding new_agent
copy_overwrites_example =
    copy_overwrites demo 5 7 1 (codes "ab" ∷ codes "cd" ∷ []) (codes "ef") sending
      (refl, (refl, tt)) refl refl (omega arith) tt
