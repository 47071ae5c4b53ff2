-- ===== src/Base/Words.antt =====
-- int64 as its bit pattern, a number below 2 ^ 64 (-1 is 2 ^ 64 - 1).
use Prim.Native.Nat.{ℕ, ◌+◌, ◌-◌, ◌%◌, ◌^◌}
use mathlib.Core.Path.{◌≡◌}
use native.Mathlib.Omega.{arith}
use tunnel_agent.Base.Tests.{ltb, if◌then◌else◌}

abbrev pub word : ℕ
word = 2 ^ 64

-- atomic.AddInt64(&x, 1) and atomic.AddInt64(&x, -1)
unfoldable pub inc64 : ℕ → ℕ
inc64 x = (x + 1) % word

unfoldable pub dec64 : ℕ → ℕ
dec64 x = (x + (word - 1)) % word

pub inc64-mod : (n : ℕ) → inc64 (n % word) ≡ (n + 1) % word
unfolding inc64
inc64-mod n = omega arith

pub dec64-mod : (n : ℕ) → dec64 ((n + 1) % word) ≡ n % word
unfolding dec64
dec64-mod n = omega arith

-- A signed number, `negsuc n` being -(n + 1), under the library's names.
pub data ℤ : Type 0 where
  pos : ℕ → ℤ
  negsuc : ℕ → ℤ

-- The number that a bit pattern stands for.
abbrev pub signed : ℕ → ℤ
signed x = if ltb x (2 ^ 63) then pos x else negsuc (word - 1 - x)
