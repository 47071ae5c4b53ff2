-- ===== src/Text.antt =====
-- The functions of Go's strings and bytes packages that the agent calls, on byte strings. White
-- space and letter case are those of ASCII.
pub mod Pieces
pub mod Find
pub mod Trimming
pub mod Blocks
use tunnel_agent.Base.{
  ℕ, suc, ◌+◌, ◌-◌, Bool, true, false, ◌&&◌, ◌||◌, List, [], ◌∷◌, ◌++◌, Option, none, some, map,
  reverse, Bytes, leb, ◌==◌, length, drop, if◌then◌else◌,
}

-- strings.HasPrefix(s, prefix)
unfoldable pub has_prefix : Bytes → Bytes → Bool
has_prefix s [] = true
has_prefix [] (p ∷ ps) = false
has_prefix (c ∷ s) (p ∷ ps) = c == p && has_prefix s ps

unfoldable pub cons_first : ℕ → Bytes × Option Bytes → Bytes × Option Bytes
cons_first c (before, after) = (c ∷ before, after)

-- What stands before the first `sep` and, if there is one, what stands after it: strings.Index and
-- the two slices around the index, in one.
unfoldable pub cut : Bytes → Bytes → Bytes × Option Bytes
unfolding has_prefix cons_first
cut sep [] = if has_prefix [] sep then ([], some []) else ([], none)
cut sep (c ∷ s) =
    if has_prefix (c ∷ s) sep
    then ([], some (drop (length sep) (c ∷ s)))
    else cons_first c (cut sep s)

-- strings.Contains(s, sub)
unfoldable pub contains_sub : Bytes → Bytes → Bool
unfolding has_prefix
contains_sub [] sub = has_prefix [] sub
contains_sub (c ∷ s) sub = has_prefix (c ∷ s) sub || contains_sub s sub

-- strings.SplitN(s, sep, 2)
unfoldable pub split_two_of : Bytes × Option Bytes → List Bytes
split_two_of (before, none) = before ∷ []
split_two_of (before, some after) = before ∷ after ∷ []

unfoldable pub split_two : Bytes → Bytes → List Bytes
unfolding split_two_of
split_two sep s = split_two_of (cut sep s)

-- strings.Split(s, sep), with the piece read so far in front. Fuel is the length of the text: every
-- separator has a byte at least.
split_fuel : ℕ → Bytes → Bytes × Option Bytes → List Bytes
split_fuel fuel sep (piece, none) = piece ∷ []
split_fuel ℕ.zero sep (piece, some rest) = piece ∷ []
split_fuel (suc fuel) sep (piece, some rest) = piece ∷ split_fuel fuel sep (cut sep rest)

unfoldable pub split : Bytes → Bytes → List Bytes
unfolding split_fuel
split sep s = split_fuel (length s) sep (cut sep s)

-- strings.ToLower(s)
abbrev pub lower : ℕ → ℕ
lower c = if leb b'A' c && leb c b'Z' then c + 32 else c

abbrev pub to_lower : Bytes → Bytes
to_lower = map lower

abbrev pub upper : ℕ → ℕ
upper c = if leb b'a' c && leb c b'z' then c - 32 else c

abbrev pub is_space : ℕ → Bool
is_space c = c == b' ' || leb 9 c && leb c 13

unfoldable pub trim_left : (ℕ → Bool) → Bytes → Bytes
trim_left cutset [] = []
trim_left cutset (c ∷ s) = if cutset c then trim_left cutset s else c ∷ s

unfoldable pub trim_right : (ℕ → Bool) → Bytes → Bytes
unfolding trim_left
trim_right cutset s = reverse (trim_left cutset (reverse s))

-- strings.TrimSpace(s)
unfoldable pub trim_space : Bytes → Bytes
unfolding trim_left trim_right
trim_space s = trim_right is_space (trim_left is_space s)

-- strings.Join(parts, sep)
unfoldable pub join : Bytes → List Bytes → Bytes
join sep [] = []
join sep (p ∷ []) = p
join sep (p ∷ q ∷ ps) = p ++ (sep ++ join sep (q ∷ ps))
