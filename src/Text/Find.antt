-- ===== src/Text/Find.antt =====
-- Where strings.Index and strings.Split find a separator in a text that was put together with it.
use tunnel_agent.Base.{
  ◌≡◌, ◌≢◌, refl, ap, ◌∙◌, ℕ, zero, suc, ◌≤◌, false, true, List, [], ◌∷◌, ◌++◌, append-nil, Option,
  none, some, Bytes, arith, All, length, length-append, drop, ==_refl,
}
use tunnel_agent.Text.{has_prefix, cons_first, cut, split, split_fuel, join}

-- A text without the byte.
abbrev pub Without : ℕ → Bytes → Type 0
Without x s = All (λ c. c ≢ x) s

abbrev pub prepend : Bytes → Bytes × Option Bytes → Bytes × Option Bytes
prepend b r = (b ++ r.0, r.1)

has_prefix_self : (s t : Bytes) → has_prefix (s ++ t) s ≡ true
unfolding has_prefix
has_prefix_self [] [] = refl
has_prefix_self [] (c ∷ t) = refl
has_prefix_self (c ∷ s) t = ground (arith, ==_refl c, has_prefix_self s t)

drop-append : (s t : Bytes) → drop (length s) (s ++ t) ≡ t
drop-append [] t = refl
drop-append (c ∷ s) t = drop-append s t

module _ (x : ℕ) (ps : Bytes) where
  other_byte : (c : ℕ) (t : Bytes) → c ≢ x → has_prefix (c ∷ t) (x ∷ ps) ≡ false
  unfolding has_prefix
  other_byte c t h = ground (arith, h)

  pub cut_here : (t : Bytes) → cut (x ∷ ps) ((x ∷ ps) ++ t) ≡ ([], some t)
  unfolding cut
  cut_here t = rw (has_prefix_self (x ∷ ps) t) (ap (λ (b : Bytes). ([], some b)) (drop-append ps t))

  pub cut_skip : (b t : Bytes) → Without x b → cut (x ∷ ps) (b ++ t) ≡ prepend b (cut (x ∷ ps) t)
  unfolding cut cons_first
  cut_skip [] t h = refl
  cut_skip (c ∷ b) t h = rw (other_byte c (b ++ t) h.0) (ap (cons_first c) (cut_skip b t h.1))

  pub cut_found : (b t : Bytes) → Without x b → cut (x ∷ ps) (b ++ ((x ∷ ps) ++ t)) ≡ (b, some t)
  cut_found b t h =
      cut_skip b ((x ∷ ps) ++ t) h
      ∙ (ap (prepend b) (cut_here t) ∙ ap (λ (a : Bytes). (a, some t)) (append-nil b))

  pub cut_absent : (b : Bytes) → Without x b → cut (x ∷ ps) b ≡ (b, none)
  unfolding cut cons_first
  cut_absent [] h = refl
  cut_absent (c ∷ b) h = rw (other_byte c b h.0) (ap (cons_first c) (cut_absent b h.1))

  split_fuel-join :
      (fuel : ℕ) (l : Bytes) (ls : List Bytes)
      → length ls ≤ fuel
      → Without x l
      → All (Without x) ls
      → split_fuel fuel (x ∷ ps) (cut (x ∷ ps) (join (x ∷ ps) (l ∷ ls))) ≡ l ∷ ls
  unfolding split_fuel join
  split_fuel-join fuel l [] enough h hs = rw (cut_absent l h) refl
  split_fuel-join zero l (m ∷ ls) enough h hs = absurd (omega arith)
  split_fuel-join (suc fuel) l (m ∷ ls) enough h hs =
      rw (cut_found l (join (x ∷ ps) (m ∷ ls)) h)
        (ap (λ (r : List Bytes). l ∷ r) (split_fuel-join fuel m ls (omega arith) hs.0 hs.1))

  length-join : (l : Bytes) (ls : List Bytes) → length ls ≤ length (join (x ∷ ps) (l ∷ ls))
  unfolding join
  length-join l [] = omega arith
  length-join l (m ∷ ls) = omega (
    arith,
    length-join m ls,
    length-append l ((x ∷ ps) ++ join (x ∷ ps) (m ∷ ls)),
    length-append ps (join (x ∷ ps) (m ∷ ls)),
  )

  -- The length of the text is fuel enough.
  pub split-join :
      (l : Bytes) (ls : List Bytes)
      → Without x l
      → All (Without x) ls
      → split (x ∷ ps) (join (x ∷ ps) (l ∷ ls)) ≡ l ∷ ls
  unfolding split
  split-join l ls h hs = split_fuel-join _ l ls (length-join l ls) h hs
