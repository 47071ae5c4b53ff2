-- ===== src/Services.antt =====
-- parseLocalServices and the mapping loop of fetchRemoteConfig of cmd/agent/main.go.
pub mod Default
pub mod Remote
use tunnel_agent.Base.{
  Bool, true, false, not, ◌&&◌, List, [], ◌∷◌, Option, none, some, Bytes, codes, bytes_eq,
  if◌then◌else◌,
}
use tunnel_agent.Forwarder.{LocalForwarder, add_service, set_default_url, get_default_url}
use tunnel_agent.Text.{cut, split, trim_space, contains_sub}

-- A mapping that also gives the default URL, if none is set yet.
abbrev pub add_mapping : Bytes → Bytes → LocalForwarder → LocalForwarder
add_mapping sub url lf =
    let added = add_service sub url lf in
    if bytes_eq (get_default_url added) [] then set_default_url url added else added

add_pair : Bytes × Option Bytes → LocalForwarder → LocalForwarder
add_pair (key, none) lf = lf
add_pair (key, some value) lf =
    if not (bytes_eq (trim_space key) []) && not (bytes_eq (trim_space value) [])
    then add_mapping (trim_space key) (trim_space value) lf
    else lf

-- One part of the list, trimmed.
add_part : Bytes → LocalForwarder → LocalForwarder
unfolding add_pair
add_part part lf =
    if bytes_eq part []
    then lf
    else if contains_sub part (codes "=")
    then add_pair (cut (codes "=") part) lf
    else add_service [] part lf

unfoldable pub add_parts : List Bytes → LocalForwarder → LocalForwarder
unfolding add_part
add_parts [] lf = lf
add_parts (part ∷ parts) lf = add_parts parts (add_part (trim_space part) lf)

unfoldable pub parse_local_services : Bytes → LocalForwarder → LocalForwarder
parse_local_services input lf = add_parts (split (codes ",") input) lf

-- The mappings of a decoded configuration.
unfoldable pub add_mappings : List (Bytes × Bytes) → LocalForwarder → LocalForwarder
add_mappings [] lf = lf
add_mappings ((sub, target) ∷ rest) lf = add_mappings rest (add_mapping sub target lf)
