-- ===== src/Text/Trimming.antt =====
-- What strings.TrimLeft and strings.TrimRight take off.
use mathlib.Core.List.{reverse-append, reverse-reverse}
use tunnel_agent.Base.{
  ◌≡◌, refl, sym, ◌∙◌, ap, inl, inr, ℕ, Bool, true, false, [], ◌∷◌, ◌++◌, Bytes, reverse,
  Bool-cases, All,
}
use tunnel_agent.Text.{trim_left, trim_right}
use tunnel_agent.Text.Pieces.{All-reverse}

module _ (cutset : ℕ → Bool) where
  -- The first byte stays.
  abbrev pub Starts : Bytes → Type 0
  Starts [] = Unit
  Starts (c ∷ s) = cutset c ≡ false

  abbrev pub IsCut : Bytes → Type 0
  IsCut s = All (λ c. cutset c ≡ true) s

  pub record TrimsLeft (s t : Bytes) : Type 0 where
    pub off : Bytes
    pub whole : s ≡ off ++ t
    pub cut : IsCut off
    pub clean : Starts t

  pub trim_left-TrimsLeft : (s : Bytes) → TrimsLeft s (trim_left cutset s)
  unfolding trim_left
  trim_left-TrimsLeft [] = record { off = []; whole = refl; cut = tt; clean = tt }
  trim_left-TrimsLeft (c ∷ s) = elim (Bool-cases (cutset c)) [
    | inl e ↦
        let ih = trim_left-TrimsLeft s in
        rw e (record {
          off = c ∷ ih.off;
          whole = ap (λ (b : Bytes). c ∷ b) ih.whole;
          cut = (e, ih.cut);
          clean = ih.clean;
        })
    | inr e ↦ rw e (record { off = []; whole = refl; cut = tt; clean = e })
  ]

  pub record TrimsRight (s t : Bytes) : Type 0 where
    pub off : Bytes
    pub whole : s ≡ t ++ off
    pub cut : IsCut off
    pub clean : Starts (reverse t)

  pub trim_right-TrimsRight : (s : Bytes) → TrimsRight s (trim_right cutset s)
  unfolding trim_right
  trim_right-TrimsRight s =
      let l = trim_left-TrimsLeft (reverse s) in
      record {
        off = reverse l.off;
        whole =
            sym (reverse-reverse s)
            ∙ (ap reverse l.whole ∙ reverse-append l.off (trim_left cutset (reverse s)));
        cut = All-reverse (λ c. cutset c ≡ true) l.off l.cut;
        clean = rw (reverse-reverse (trim_left cutset (reverse s))) l.clean;
      }
