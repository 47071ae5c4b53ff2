-- ===== src/Text/Pieces.antt =====
-- Where the bytes of a piece of text come from.
use mathlib.Core.List.{reverse-cons}
use tunnel_agent.Base.{
  ℕ, zero, suc, ◌≡◌, ◌≢◌, refl, inl, inr, Bool, false, [], ◌∷◌, Option, none, some, reverse, Bytes,
  arith, All, All-append_one, length, drop, Bool-cases,
}
use tunnel_agent.Text.{
  has_prefix, cut, cons_first, split, split_fuel, contains_sub, is_space, trim_left, trim_space,
}

module _ (P : ℕ → Type 0) where
  All-drop : (n : ℕ) (s : Bytes) → All P s → All P (drop n s)
  All-drop zero s h = h
  All-drop (suc n) [] h = h
  All-drop (suc n) (c ∷ s) h = All-drop n s h.1

  abbrev pub AllParts : Bytes × Option Bytes → Type 0
  AllParts (before, none) = All P before
  AllParts (before, some after) = All P before × All P after

  cons_first-AllParts :
      (c : ℕ) (r : Bytes × Option Bytes) → P c → AllParts r → AllParts (cons_first c r)
  unfolding cons_first
  cons_first-AllParts c (b, none) p h = (p, h)
  cons_first-AllParts c (b, some a) p h = ((p, h.0), h.1)

  pub cut-AllParts : (sep s : Bytes) → All P s → AllParts (cut sep s)
  unfolding cut
  cut-AllParts sep [] h = elim (Bool-cases (has_prefix [] sep)) [
    | inl e ↦ rw e (tt, tt)
    | inr e ↦ rw e tt
  ]
  cut-AllParts sep (c ∷ s) h = elim (Bool-cases (has_prefix (c ∷ s) sep)) [
    | inl e ↦ rw e (tt, All-drop (length sep) (c ∷ s) h)
    | inr e ↦ rw e (cons_first-AllParts c (cut sep s) h.0 (cut-AllParts sep s h.1))
  ]

  split_fuel-All :
      (fuel : ℕ) (sep : Bytes) (r : Bytes × Option Bytes)
      → AllParts r
      → All (All P) (split_fuel fuel sep r)
  unfolding split_fuel
  split_fuel-All fuel sep (b, none) h = (h, tt)
  split_fuel-All zero sep (b, some a) h = (h.0, tt)
  split_fuel-All (suc fuel) sep (b, some a) h =
      (h.0, split_fuel-All fuel sep (cut sep a) (cut-AllParts sep a h.1))

  pub split-All : (sep s : Bytes) → All P s → All (All P) (split sep s)
  unfolding split
  split-All sep s h = split_fuel-All (length s) sep (cut sep s) (cut-AllParts sep s h)

  pub All-reverse : (s : Bytes) → All P s → All P (reverse s)
  All-reverse [] h = h
  All-reverse (c ∷ s) h = rw reverse-cons (All-append_one P (reverse s) c (All-reverse s h.1) h.0)

  pub trim_left-All : (cutset : ℕ → Bool) (s : Bytes) → All P s → All P (trim_left cutset s)
  unfolding trim_left
  trim_left-All cutset [] h = h
  trim_left-All cutset (c ∷ s) h = elim (Bool-cases (cutset c)) [
    | inl e ↦ rw e (trim_left-All cutset s h.1)
    | inr e ↦ rw e h
  ]

  pub trim_space-All : (s : Bytes) → All P s → All P (trim_space s)
  unfolding trim_space
  trim_space-All s h =
      All-reverse _ (trim_left-All is_space _ (All-reverse _ (trim_left-All is_space s h)))

-- A text without a byte does not contain it.
pub contains_sub_absent : (b : ℕ) (s : Bytes) → All (λ c. c ≢ b) s → contains_sub s (b ∷ []) ≡ false
unfolding contains_sub
contains_sub_absent b [] h = refl
contains_sub_absent b (c ∷ s) h = ground (arith, contains_sub_absent b s h.1)
