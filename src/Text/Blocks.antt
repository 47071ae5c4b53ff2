-- ===== src/Text/Blocks.antt =====
-- Lines that end with a carriage return and a line feed, up to a blank line.
use tunnel_agent.Base.{
  ◌≡◌, ◌≢◌, refl, ap, ◌∙◌, ℕ, false, List, [], ◌∷◌, ◌++◌, append_assoc, some, Bytes, codes, arith,
  All, ◌==◌,
}
use tunnel_agent.Text.{has_prefix, cons_first, cut, join}
use tunnel_agent.Text.Find.{Without, prepend, cut_skip, cut_found}

abbrev pub line_end : Bytes
line_end = codes "\r\n"

abbrev pub blank_line : Bytes
blank_line = codes "\r\n\r\n"

-- A line that is not blank.
abbrev pub IsLine : Bytes → Type 0
IsLine s = Without b'\r' s × (s ≢ [])

-- Behind the end of a line stands the next line, and not a blank one.
skip_line_end :
    (c : ℕ) (t : Bytes)
    → c ≢ b'\r'
    → cut blank_line (line_end ++ (c ∷ t)) ≡ prepend line_end (cut blank_line (c ∷ t))
unfolding cut cons_first has_prefix
skip_line_end c t h = rw differs refl
  where
    differs : (c == b'\r') ≡ false
    differs = ground (arith, h)

starts :
    (m : Bytes) (ls : List Bytes) (t : Bytes)
    → IsLine m
    → (c : ℕ) × (u : Bytes) × (join line_end (m ∷ ls) ++ t ≡ c ∷ u) × (c ≢ b'\r')
unfolding join
starts [] ls t h = absurd (h.1 refl)
starts (c ∷ m) [] t h = (c, m ++ t, refl, h.0.0)
starts (c ∷ m) (n ∷ ls) t h = (c, (m ++ (line_end ++ join line_end (n ∷ ls))) ++ t, refl, h.0.0)

skip_to_line :
    (u t : Bytes) (c : ℕ)
    → t ≡ c ∷ u
    → c ≢ b'\r'
    → cut blank_line (line_end ++ t) ≡ prepend line_end (cut blank_line t)
skip_to_line u t c e h = rw e (skip_line_end c u h)

-- The first blank line is the one behind the lines.
pub cut_blank_line :
    (l : Bytes) (ls : List Bytes) (t : Bytes)
    → Without b'\r' l
    → All IsLine ls
    → cut blank_line (join line_end (l ∷ ls) ++ (blank_line ++ t))
      ≡ (join line_end (l ∷ ls), some t)
unfolding join
cut_blank_line l [] t h hs = cut_found b'\r' (codes "\n\r\n") l t h
cut_blank_line l (m ∷ ls) t h hs =
    let rest = join line_end (m ∷ ls) in
    let (c, u, e, other) = starts m ls (blank_line ++ t) hs.0 in
    ap (cut blank_line) (append_assoc l (line_end ++ rest) (blank_line ++ t))
    ∙ (cut_skip b'\r' (codes "\n\r\n") l (line_end ++ (rest ++ (blank_line ++ t))) h
        ∙ ap (prepend l) (
            skip_to_line u (rest ++ (blank_line ++ t)) c e other
            ∙ ap (prepend line_end) (cut_blank_line m ls t hs.0.0 hs.1)))
