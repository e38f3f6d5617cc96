-- ===== src/Frames/Length.antt =====
-- ExtNet/ws/WsStickyWrap.cpp: the length that `sendFrame` writes is the one that `parseWsHead` reads.
use multithread_libevent_exa.Prelude.{
  false, ℕ, zero, suc, ◌+◌, ◌*◌, ◌/◌, ◌%◌, ◌^◌, ◌<◌, ◌≤◌, ◌≡◌, refl, ap, ◌∙◌, arith, max, List, ◌∷◌,
  ◌++◌, drop, length, replicate, lt→ltb, le→leb, leb, get_or, ◌⊎◌, inl, inr, Bool-cases, leb→le,
  leb→lt,
}
use multithread_libevent_exa.Frames.{
  Ws, read_payload, parse_ws_head, parse_op, parse_payload, frame_head, joined_bytes, shifted,
  extend, byte_of,
}
use multithread_libevent_exa.Frames.Bits.{bits_or}

or_zero : (w a : ℕ) → a < 2 ^ w → bits_or w a 0 ≡ a
unfolding bits_or
or_zero zero a h = omega arith
or_zero (suc w) a h =
    ap (λ r. max (a % 2) 0 + 2 * r) (or_zero w (a / 2) (omega arith)) ∙ omega arith

-- `|` of a multiple of 2^k and a number below 2^k is their sum.
or_low : (k w q b : ℕ) → b < 2 ^ k → 2 ^ k * q + b < 2 ^ w → bits_or w (2 ^ k * q) b ≡ 2 ^ k * q + b
unfolding bits_or
or_low zero w q b h l =
    let e : b ≡ 0 = omega arith in
    let m : 2 ^ 0 * q ≡ q = omega arith in
    ap (λ x. bits_or w x b) m
    ∙ ap (λ x. bits_or w q x) e
    ∙ or_zero w q (omega arith)
    ∙ omega (arith, e)
or_low (suc k) zero q b h l = omega arith
or_low (suc k) (suc w) q b h l =
    let p : 2 ^ suc k * q ≡ 2 * (2 ^ k * q) =
      (let e : 2 ^ suc k ≡ 2 * 2 ^ k = omega arith in ap (λ x. x * q) e) ∙ grind arith in
    let u : (2 ^ suc k * q) / 2 ≡ 2 ^ k * q = omega (arith, p) in
    let v : (2 ^ suc k * q) % 2 ≡ 0 = omega (arith, p) in
    let ih : bits_or w (2 ^ k * q) (b / 2) ≡ 2 ^ k * q + b / 2 =
      or_low k w q (b / 2) (omega arith) (omega (arith, p)) in
    ap (λ x. max x (b % 2) + 2 * bits_or w ((2 ^ suc k * q) / 2) (b / 2)) v
    ∙ ap (λ x. max 0 (b % 2) + 2 * bits_or w x (b / 2)) u
    ∙ ap (λ x. max 0 (b % 2) + 2 * x) ih
    ∙ omega (arith, p)

extend_small : (b : ℕ) → b < 128 → extend b ≡ b
unfolding extend
extend_small b h = rw (lt→ltb b 128 h) refl

-- Two bytes that are not negative as `char`.
joined-two :
    (b0 b1 : ℕ) (rest : List ℕ)
    → b0 < 128
    → b1 < 128
    → joined_bytes 2 (b0 ∷ (b1 ∷ rest)) ≡ 256 * b0 + b1
unfolding joined_bytes shifted
joined-two b0 b1 rest h0 h1 =
    let e0 : (extend b0 * 2 ^ 8) % 2 ^ 64 ≡ 2 ^ 8 * b0 =
      ap (λ x. (x * 2 ^ 8) % 2 ^ 64) (extend_small b0 h0) ∙ omega arith in
    let e1 : (extend b1 * 2 ^ 0) % 2 ^ 64 ≡ b1 =
      ap (λ x. (x * 2 ^ 0) % 2 ^ 64) (extend_small b1 h1) ∙ omega arith in
    ap (λ x. bits_or 64 x (bits_or 64 ((extend b1 * 2 ^ 0) % 2 ^ 64) 0)) e0
    ∙ ap (λ x. bits_or 64 (2 ^ 8 * b0) (bits_or 64 x 0)) e1
    ∙ ap (λ x. bits_or 64 (2 ^ 8 * b0) x) (or_zero 64 b1 (omega arith))
    ∙ or_low 8 64 b0 b1 (omega arith) (omega arith)

-- A state that has read the first two bytes of a frame, and what it has then of the length.
abbrev pub behind_head : ℕ → ℕ → Ws
behind_head b0 b1 = record {
  op = read_payload;
  wbs = (b0, b1);
  len = 0;
  masks = replicate 4 0;
  parse_index = 0;
}

-- The second byte of the head, and the bytes behind it.
abbrev pub second : List ℕ → ℕ
second bs = get_or bs 1 0

-- `parseWsHead` there, on at least one byte.
in_payload :
    (b0 b1 c : ℕ) (rest : List ℕ)
    → parse_ws_head (behind_head b0 b1) (c ∷ rest) ≡ parse_payload (behind_head b0 b1) (c ∷ rest)
unfolding parse_ws_head parse_op
in_payload b0 b1 c rest = refl

long_payload :
    (b0 c0 c1 : ℕ) (rest : List ℕ)
    → (parse_payload (behind_head b0 126) (c0 ∷ (c1 ∷ rest))).ws.len
      ≡ joined_bytes 2 (c0 ∷ (c1 ∷ rest))
unfolding parse_payload
long_payload b0 c0 c1 rest =
    rw (le→leb 2 (length (c0 ∷ (c1 ∷ rest))) (omega arith), parse_payload) refl

short_payload :
    (b0 n : ℕ) (rest : List ℕ)
    → n ≤ 125
    → (parse_payload (behind_head b0 (n % 128)) rest).ws.len ≡ n
unfolding parse_payload
short_payload b0 n rest h =
    let q : n % 128 % 128 ≡ n = omega arith in
    rw (q, parse_payload) (rw (lt→ltb n 126 (omega arith)) refl)

-- For a size of at most 125 bytes, or one below 2^15 whose low byte is below 128, and with at least
-- one byte behind the head: parseWsHead reads from the head that sendFrame writes for this size, once
-- its first two bytes are taken, a length that is the size.
pub frame_head-length :
    (size type c : ℕ) (rest : List ℕ)
    → size < 2 ^ 15
    → (size ≤ 125) ⊎ (size % 256 < 128)
    → let head = frame_head size type in
      (parse_ws_head
        (behind_head (get_or head 0 0) (second head))
        (drop 2 head ++ (c ∷ rest))).ws.len
      ≡ size
unfolding frame_head
frame_head-length size type c rest small low = elim (Bool-cases (leb size 125)) [
  | inl le ↦ rw le (
      ap (λ p. p.ws.len) (in_payload (128 + type) (size % 128) c rest)
      ∙ short_payload (128 + type) size (c ∷ rest) (leb→le size 125 le))
  | inr gt ↦ rw gt (
      rw (lt→ltb size 65535 (omega arith)) (
        ap (λ p. p.ws.len)
          (in_payload (128 + type) 126 (byte_of size 8) (byte_of size 0 ∷ (c ∷ rest)))
        ∙ long_payload (128 + type) (byte_of size 8) (byte_of size 0) (c ∷ rest)
        ∙ long_bytes gt low))
]
  where
    long_bytes :
        leb size 125 ≡ false
        → (size ≤ 125) ⊎ (size % 256 < 128)
        → joined_bytes 2 (byte_of size 8 ∷ (byte_of size 0 ∷ (c ∷ rest))) ≡ size
    long_bytes gt (inl le) = absurd (omega (arith, leb→lt size 125 gt))
    long_bytes gt (inr l) =
        joined-two (byte_of size 8) (byte_of size 0) (c ∷ rest) (omega arith) (omega arith)
        ∙ omega arith
