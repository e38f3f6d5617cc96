-- ===== src/Frames/Bits.antt =====
-- The operators `|` and `^` of C on numbers of a given width, bit by bit.
use multithread_libevent_exa.Prelude.{ℕ, zero, suc, ◌+◌, ◌%◌, ◌^◌, ◌<◌, ◌≡◌, ap, ◌∙◌, arith, max}
use Prim.Native.Nat.{◌/◌, ◌*◌}

unfoldable pub bits_or : ℕ → ℕ → ℕ → ℕ
bits_or zero a b = 0
bits_or (suc w) a b = max (a % 2) (b % 2) + 2 * bits_or w (a / 2) (b / 2)

unfoldable pub bits_xor : ℕ → ℕ → ℕ → ℕ
bits_xor zero a b = 0
bits_xor (suc w) a b = (a % 2 + b % 2) % 2 + 2 * bits_xor w (a / 2) (b / 2)

-- `(a ^ b) ^ b` is `a`.
pub bits_xor_twice : (w a b : ℕ) → a < 2 ^ w → bits_xor w (bits_xor w a b) b ≡ a
unfolding bits_xor
bits_xor_twice zero a b h = omega arith
bits_xor_twice (suc w) a b h =
    let r = (a % 2 + b % 2) % 2 in
    let q = bits_xor w (a / 2) (b / 2) in
    let l : (r + 2 * q) % 2 ≡ r = omega arith in
    let u : (r + 2 * q) / 2 ≡ q = omega arith in
    let ih : bits_xor w q (b / 2) ≡ a / 2 = bits_xor_twice w (a / 2) (b / 2) (omega arith) in
    ap (λ x. (x + b % 2) % 2 + 2 * bits_xor w ((r + 2 * q) / 2) (b / 2)) l
    ∙ ap (λ y. (r + b % 2) % 2 + 2 * bits_xor w y (b / 2)) u
    ∙ ap (λ z. (r + b % 2) % 2 + 2 * z) ih
    ∙ (omega arith)
