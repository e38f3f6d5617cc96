-- ===== src/Prelude/Family.antt =====
-- Families indexed by a number, such as the threads of a pool: update at one index.
use Prim.Native.Nat.{ℕ, compare, Ordering}
use mathlib.Core.Path.{◌≡◌}
use mathlib.Core.Logic.{◌≢◌}
use native.Mathlib.Omega.{arith}

-- `f` with the value at `i` replaced.
abbrev pub update {ℓ} : {A : Type ℓ} → (ℕ → A) → ℕ → A → ℕ → A
update f i a j = elim (compare i j) [ Ordering.eq ↦ a | _ ↦ f j ]

pub update_self {ℓ} : {A : Type ℓ} (f : ℕ → A) (i : ℕ) (a : A) → update f i a i ≡ a
update_self f i a = ground arith

pub update_ne {ℓ} : {A : Type ℓ} (f : ℕ → A) (i j : ℕ) (a : A) → i ≢ j → update f i a j ≡ f j
update_ne f i j a h = ground arith
