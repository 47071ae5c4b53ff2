-- ===== src/Stream/Metadata.antt =====
-- SetMetadata and GetMetadata of client/stream.go.
use tunnel_agent.Base.{
  ◌≡◌, refl, List, [], Option, none, some, Bytes, lookup, insert, lookup-insert, string_eq,
  bytes_eq, if◌then◌else◌,
}
use tunnel_agent.Stream.{Stream}

-- A nil map is made first.
made : Option (List (Bytes × Bytes)) → List (Bytes × Bytes)
made none = []
made (some m) = m

unfoldable pub set_metadata : Bytes → Bytes → Stream → Stream
unfolding made
set_metadata key value s = record s { metadata = some (insert key value (made s.metadata)) }

value_in : Bytes → Option (List (Bytes × Bytes)) → Option Bytes
value_in key none = none
value_in key (some m) = lookup key m

unfoldable pub get_metadata : Bytes → Stream → Option Bytes
unfolding value_in
get_metadata key s = value_in key s.metadata

value_made :
    (key : Bytes) (m : Option (List (Bytes × Bytes))) → lookup key (made m) ≡ value_in key m
unfolding made value_in lookup
value_made key none = refl
value_made key (some m) = refl

-- GetMetadata gives the value of the last SetMetadata of its key, and a SetMetadata of another key,
-- or of a stream whose map is nil, does not change what it gives.
pub get_metadata-set_metadata :
    (key other value : Bytes) (s : Stream)
    → get_metadata other (set_metadata key value s)
      ≡ (if bytes_eq key other then some value else get_metadata other s)
unfolding get_metadata set_metadata value_in
get_metadata-set_metadata key other value s =
    rw (lookup-insert key other value (made s.metadata), value_made other s.metadata) refl
