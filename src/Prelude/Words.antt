-- ===== src/Prelude/Words.antt =====
-- Machine arithmetic: `size_t` (64 bits) with its wrap-around, and where it does not wrap.
use Prim.Native.Nat.{ℕ, ◌+◌, ◌-◌, ◌%◌, ◌^◌, ◌≤◌, ◌<◌}
use mathlib.Core.Path.{◌≡◌}
use native.Mathlib.Omega.{arith}

abbrev pub size_mod : ℕ
size_mod = 2 ^ 64

unfoldable pub add_size : ℕ → ℕ → ℕ
add_size a b = (a + b) % size_mod

unfoldable pub sub_size : ℕ → ℕ → ℕ
sub_size a b = (a + size_mod - b) % size_mod

pub add_size_lem : (a b : ℕ) → a + b < size_mod → add_size a b ≡ a + b
unfolding add_size
add_size_lem a b h = omega arith

pub sub_size_lem : (a b : ℕ) → b ≤ a → a < size_mod → sub_size a b ≡ a - b
unfolding sub_size
sub_size_lem a b h k = omega arith

pub ruleset size_laws = (arith, add_size_lem, sub_size_lem)
