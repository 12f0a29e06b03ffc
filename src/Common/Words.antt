-- ===== src/Common/Words.antt =====
-- `uint32_t` arithmetic: sums and differences modulo 2 ^ 32.
use Prim.Native.Nat.{ℕ, ◌+◌, ◌-◌, ◌%◌, ◌<◌, ◌≤◌}
use mathlib.Core.Path.{◌≡◌}
use native.Mathlib.Omega.{arith}

-- 2 ^ 32
abbrev pub word_mod : ℕ
word_mod = 4294967296

unfoldable pub add32 : ℕ → ℕ → ℕ
add32 a b = (a + b) % word_mod

-- `-` on ℕ stops at 0, so the modulus is added first.
unfoldable pub sub32 : ℕ → ℕ → ℕ
sub32 a b = (a + word_mod - b) % word_mod

pub add32_small : (a b : ℕ) → a + b < word_mod → add32 a b ≡ a + b
unfolding add32
add32_small a b h = omega arith

pub sub32_small : (a b : ℕ) → b ≤ a → a < word_mod → sub32 a b ≡ a - b
unfolding sub32
sub32_small a b h k = omega arith
