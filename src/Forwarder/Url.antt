-- ===== src/Forwarder/Url.antt =====
-- buildLocalURL of client/local_forward.go.
use tunnel_agent.Base.{
  ◌≡◌, refl, sym, not, [], ◌++◌, Bytes, codes, reverse, append-nil, bytes_eq, Bool-cases, inl, inr,
  if◌then◌else◌,
}
use tunnel_agent.Forwarder.{is_slash, build_local_url}
use tunnel_agent.Text.{trim_left, trim_right}
use tunnel_agent.Text.Trimming.{Starts, IsCut, trim_left-TrimsLeft, trim_right-TrimsRight}

-- The two parts of a URL around its one slash, and the slashes that stood there before.
pub record Joins (base path query url : Bytes) : Type 0 where
  pub left : Bytes
  pub right : Bytes
  pub base_slashes : Bytes
  pub path_slashes : Bytes
  pub base_whole : base ≡ left ++ base_slashes
  pub path_whole : path ≡ path_slashes ++ right
  pub slashes : IsCut is_slash base_slashes × IsCut is_slash path_slashes
  pub single : Starts is_slash (reverse left) × Starts is_slash right
  pub joined :
      url ≡ (left ++ (codes "/" ++ right)) ++ (if bytes_eq query [] then [] else codes "?" ++ query)

with_query :
    (left right query : Bytes)
    → (if not (bytes_eq query []) then (left ++ right) ++ (codes "?" ++ query) else left ++ right)
      ≡ (left ++ right) ++ (if bytes_eq query [] then [] else codes "?" ++ query)
with_query left right query = elim (Bool-cases (bytes_eq query [])) [
  | inl e ↦ rw e (sym (append-nil (left ++ right)))
  | inr e ↦ rw e refl
]

-- The local URL is the base and the path, less the slashes between them, around exactly one slash,
-- and then the query behind a question mark, if there is one.
pub build_local_url-Joins :
    (base path query : Bytes) → Joins base path query (build_local_url base path query)
unfolding build_local_url
build_local_url-Joins base path query =
    let b = trim_right-TrimsRight is_slash base in
    let r = trim_left-TrimsLeft is_slash path in
    record {
      left = trim_right is_slash base;
      right = trim_left is_slash path;
      base_slashes = b.off;
      path_slashes = r.off;
      base_whole = b.whole;
      path_whole = r.whole;
      slashes = (b.cut, r.cut);
      single = (b.clean, r.clean);
      joined = with_query (trim_right is_slash base) (codes "/" ++ trim_left is_slash path) query;
    }
