-- ===== src/Base/Digits.antt =====
-- The bytes of a decimal text.
use Prim.Native.Nat.{ℕ, zero, suc, ◌+◌, ◌/◌, ◌%◌, ◌≤◌}
use mathlib.Core.Path.{◌≡◌, refl}
use mathlib.Core.Logic.{inl, inr}
use mathlib.Core.Bool.{true}
use mathlib.Core.List.{[], ◌∷◌}
use native.Mathlib.Omega.{arith}
use tunnel_agent.Base.Decimal.{digits_onto, decimal}
use tunnel_agent.Base.Lists.{All}
use tunnel_agent.Base.Tests.{Bytes, ltb, Bool-cases}

-- A text that begins with a digit.
pub record BeginsDigit (s : Bytes) : Type 0 where
  pub head : ℕ
  pub tail : Bytes
  pub is : s ≡ head ∷ tail
  pub low : b'0' ≤ head
  pub high : head ≤ b'9'

digits_onto-BeginsDigit :
    (fuel n x : ℕ) (rest : Bytes)
    → b'0' ≤ x
    → x ≤ b'9'
    → BeginsDigit (digits_onto fuel n (x ∷ rest))
unfolding digits_onto
digits_onto-BeginsDigit zero n x rest l h = record {
  head = x;
  tail = rest;
  is = refl;
  low = l;
  high = h;
}
digits_onto-BeginsDigit (suc fuel) n x rest l h = elim (Bool-cases (ltb n 10)) [
  | inl small ↦ rw small (record {
    head = b'0' + n;
    tail = x ∷ rest;
    is = refl;
    low = omega arith;
    high = top n small;
  })
  | inr large ↦
      rw large (
        digits_onto-BeginsDigit fuel (n / 10) (b'0' + n % 10) (x ∷ rest) (omega arith)
          (omega arith))
]
  where
    top : (n : ℕ) → ltb n 10 ≡ true → b'0' + n ≤ b'9'
    top n h = ground arith

pub decimal-BeginsDigit : (n : ℕ) → BeginsDigit (decimal n)
unfolding decimal digits_onto
decimal-BeginsDigit n = elim (Bool-cases (ltb n 10)) [
  | inl small ↦
      rw (one_more n, small)
        (record { head = b'0' + n; tail = []; is = refl; low = omega arith; high = top n small })
  | inr large ↦
      rw (one_more n, large)
        (digits_onto-BeginsDigit n (n / 10) (b'0' + n % 10) [] (omega arith) (omega arith))
]
  where
    one_more : (n : ℕ) → n + 1 ≡ suc n
    one_more n = omega arith

    top : (n : ℕ) → ltb n 10 ≡ true → b'0' + n ≤ b'9'
    top n h = ground arith

-- What a property of the digits gives for a decimal text.
module _ (P : ℕ → Type 0) (digit : (d : ℕ) → d ≤ 9 → P (b'0' + d)) where
  digits_onto-All : (fuel n : ℕ) (rest : Bytes) → All P rest → All P (digits_onto fuel n rest)
  unfolding digits_onto
  digits_onto-All zero n rest h = h
  digits_onto-All (suc fuel) n rest h = elim (Bool-cases (ltb n 10)) [
    | inl small ↦ rw small (digit n (below n small), h)
    | inr large ↦
        rw large
          (digits_onto-All fuel (n / 10) ((b'0' + n % 10) ∷ rest) (digit (n % 10) (omega arith), h))
  ]
    where
      below : (n : ℕ) → ltb n 10 ≡ true → n ≤ 9
      below n h = ground arith

  pub decimal-All : (n : ℕ) → All P (decimal n)
  unfolding decimal
  decimal-All n = digits_onto-All (n + 1) n [] tt
