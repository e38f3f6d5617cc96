-- ===== src/Prelude/Lists.antt =====
-- Lists measured and indexed by native numbers, under the library's names, and blocks of memory.
use Prim.Native.Nat.{ℕ, zero, suc, ◌+◌, ◌-◌, ◌≤◌, ◌<◌, min}
use mathlib.Core.Path.{◌≡◌, refl, ap}
use mathlib.Core.List.{List, [], ◌∷◌, ◌++◌, append-nil}
use native.Mathlib.Omega.{arith}

module _ {ℓ} {A : Type ℓ} where
  abbrev pub length : List A → ℕ
  length [] = 0
  length (x ∷ xs) = suc (length xs)

  abbrev pub get_or : List A → ℕ → A → A
  get_or [] i d = d
  get_or (x ∷ xs) zero d = x
  get_or (x ∷ xs) (suc i) d = get_or xs i d

  abbrev pub take : ℕ → List A → List A
  take zero xs = []
  take (suc n) [] = []
  take (suc n) (x ∷ xs) = x ∷ take n xs

  abbrev pub drop : ℕ → List A → List A
  drop zero xs = xs
  drop (suc n) [] = []
  drop (suc n) (x ∷ xs) = drop n xs

  abbrev pub replicate : ℕ → A → List A
  replicate zero a = []
  replicate (suc n) a = a ∷ replicate n a

  -- std::copy to `block + at`. What falls past the end of the block is not stored.
  unfoldable pub store : List A → ℕ → List A → List A
  store [] at bs = []
  store (x ∷ m) zero [] = x ∷ m
  store (x ∷ m) zero (b ∷ bs) = b ∷ store m zero bs
  store (x ∷ m) (suc at) bs = x ∷ store m at bs

  -- A predicate of every entry.
  abbrev pub All {κ} : (A → Type κ) → List A → Type κ
  All P [] = Unit
  All P (x ∷ xs) = P x × All P xs

  pub length-append : (xs ys : List A) → length (xs ++ ys) ≡ length xs + length ys
  length-append [] ys = omega arith
  length-append (x ∷ xs) ys = omega (arith, length-append xs ys)

  pub length-take : (n : ℕ) (xs : List A) → length (take n xs) ≡ min n (length xs)
  length-take zero xs = omega arith
  length-take (suc n) [] = omega arith
  length-take (suc n) (x ∷ xs) = omega (arith, length-take n xs)

  pub length-drop : (n : ℕ) (xs : List A) → length (drop n xs) ≡ length xs - n
  length-drop zero xs = omega arith
  length-drop (suc n) [] = omega arith
  length-drop (suc n) (x ∷ xs) = omega (arith, length-drop n xs)

  pub length-replicate : (n : ℕ) (a : A) → length (replicate n a) ≡ n
  length-replicate zero a = refl
  length-replicate (suc n) a = ap suc (length-replicate n a)

  pub take-append-drop : (n : ℕ) (xs : List A) → take n xs ++ drop n xs ≡ xs
  take-append-drop zero xs = refl
  take-append-drop (suc n) [] = refl
  take-append-drop (suc n) (x ∷ xs) = rw (take-append-drop n xs)

  pub take-of_length-le : (n : ℕ) (xs : List A) → length xs ≤ n → take n xs ≡ xs
  take-of_length-le zero [] h = refl
  take-of_length-le zero (x ∷ xs) h = absurd (omega arith)
  take-of_length-le (suc n) [] h = refl
  take-of_length-le (suc n) (x ∷ xs) h = ap (◌∷◌ x) (take-of_length-le n xs (omega arith))

  pub drop-of_length-le : (n : ℕ) (xs : List A) → length xs ≤ n → drop n xs ≡ []
  drop-of_length-le zero [] h = refl
  drop-of_length-le zero (x ∷ xs) h = absurd (omega arith)
  drop-of_length-le (suc n) [] h = refl
  drop-of_length-le (suc n) (x ∷ xs) h = drop-of_length-le n xs (omega arith)

  -- Taking and dropping within the first part, and past it.
  pub take-append_of_le : (n : ℕ) (xs ys : List A) → n ≤ length xs → take n (xs ++ ys) ≡ take n xs
  take-append_of_le zero xs ys h = refl
  take-append_of_le (suc n) [] ys h = absurd (omega arith)
  take-append_of_le (suc n) (x ∷ xs) ys h = ap (◌∷◌ x) (take-append_of_le n xs ys (omega arith))

  pub drop-append_of_le :
      (n : ℕ) (xs ys : List A) → n ≤ length xs → drop n (xs ++ ys) ≡ drop n xs ++ ys
  drop-append_of_le zero xs ys h = refl
  drop-append_of_le (suc n) [] ys h = absurd (omega arith)
  drop-append_of_le (suc n) (x ∷ xs) ys h = drop-append_of_le n xs ys (omega arith)

  pub drop-append_past :
      (n m : ℕ) (xs ys : List A) → n ≡ length xs + m → drop n (xs ++ ys) ≡ drop m ys
  drop-append_past n m [] ys h = let e : n ≡ m = omega arith in rw e
  drop-append_past zero m (x ∷ xs) ys h = absurd (omega arith)
  drop-append_past (suc n) m (x ∷ xs) ys h = drop-append_past n m xs ys (omega arith)

  pub take-append_past :
      (n m : ℕ) (xs ys : List A) → n ≡ length xs + m → take n (xs ++ ys) ≡ xs ++ take m ys
  take-append_past n m [] ys h = let e : n ≡ m = omega arith in rw e
  take-append_past zero m (x ∷ xs) ys h = absurd (omega arith)
  take-append_past (suc n) m (x ∷ xs) ys h = ap (◌∷◌ x) (take-append_past n m xs ys (omega arith))

  pub drop-drop : (m n k : ℕ) (xs : List A) → k ≡ n + m → drop m (drop n xs) ≡ drop k xs
  drop-drop m zero k xs h = let e : k ≡ m = omega arith in rw e
  drop-drop zero (suc n) zero [] h = refl
  drop-drop (suc m) (suc n) zero [] h = refl
  drop-drop zero (suc n) (suc k) [] h = refl
  drop-drop (suc m) (suc n) (suc k) [] h = refl
  drop-drop m (suc n) zero (x ∷ xs) h = absurd (omega arith)
  drop-drop m (suc n) (suc k) (x ∷ xs) h = drop-drop m n k xs (omega arith)

  pub take-take : (n k : ℕ) (xs : List A) → n ≤ k → take n (take k xs) ≡ take n xs
  take-take zero k xs h = refl
  take-take (suc n) zero xs h = absurd (omega arith)
  take-take (suc n) (suc k) [] h = refl
  take-take (suc n) (suc k) (x ∷ xs) h = ap (◌∷◌ x) (take-take n k xs (omega arith))

  pub take-nil : (n : ℕ) → take n [] ≡ []
  take-nil zero = refl
  take-nil (suc n) = refl

  pub drop-take : (n k : ℕ) (xs : List A) → n ≤ k → drop n (take k xs) ≡ take (k - n) (drop n xs)
  drop-take zero k xs h = let e : k - 0 ≡ k = omega arith in rw e
  drop-take (suc n) zero xs h = absurd (omega arith)
  drop-take (suc n) (suc k) [] h = rw (take-nil (suc k - suc n))
  drop-take (suc n) (suc k) (x ∷ xs) h =
      let e : suc k - suc n ≡ k - n = omega arith in rw e (drop-take n k xs (omega arith))

  pub get_or-append_left :
      (xs ys : List A) (i : ℕ) (d : A) → i < length xs → get_or (xs ++ ys) i d ≡ get_or xs i d
  get_or-append_left [] ys i d h = absurd (omega arith)
  get_or-append_left (x ∷ xs) ys zero d h = refl
  get_or-append_left (x ∷ xs) ys (suc i) d h = get_or-append_left xs ys i d (omega arith)

  pub get_or-append_right :
      (xs ys : List A) (i j : ℕ) (d : A) → i ≡ length xs + j → get_or (xs ++ ys) i d ≡ get_or ys j d
  get_or-append_right [] ys i j d h = let e : i ≡ j = omega arith in rw e
  get_or-append_right (x ∷ xs) ys zero j d h = absurd (omega arith)
  get_or-append_right (x ∷ xs) ys (suc i) j d h = get_or-append_right xs ys i j d (omega arith)

  pub get_or-take : (n i : ℕ) (xs : List A) (d : A) → i < n → get_or (take n xs) i d ≡ get_or xs i d
  get_or-take zero i xs d h = absurd (omega arith)
  get_or-take (suc n) i [] d h = refl
  get_or-take (suc n) zero (x ∷ xs) d h = refl
  get_or-take (suc n) (suc i) (x ∷ xs) d h = get_or-take n i xs d (omega arith)

  pub get_or-drop :
      (n i k : ℕ) (xs : List A) (d : A) → k ≡ i + n → get_or (drop n xs) i d ≡ get_or xs k d
  get_or-drop zero i k xs d h = let e : k ≡ i = omega arith in rw e
  get_or-drop (suc n) i k [] d h = refl
  get_or-drop (suc n) i zero (x ∷ xs) d h = absurd (omega arith)
  get_or-drop (suc n) i (suc k) (x ∷ xs) d h = get_or-drop n i k xs d (omega arith)

  pub All-append {κ} : (P : A → Type κ) (xs ys : List A) → All P xs → All P ys → All P (xs ++ ys)
  All-append P [] ys hx hy = hy
  All-append P (x ∷ xs) ys hx hy = (hx.0, All-append P xs ys hx.1 hy)

  pub All-append_left {κ} : (P : A → Type κ) (xs ys : List A) → All P (xs ++ ys) → All P xs
  All-append_left P [] ys h = tt
  All-append_left P (x ∷ xs) ys h = (h.0, All-append_left P xs ys h.1)

  pub All-append_right {κ} : (P : A → Type κ) (xs ys : List A) → All P (xs ++ ys) → All P ys
  All-append_right P [] ys h = h
  All-append_right P (x ∷ xs) ys h = All-append_right P xs ys h.1

  pub length-store : (m : List A) (at : ℕ) (bs : List A) → length (store m at bs) ≡ length m
  unfolding store
  length-store [] at bs = refl
  length-store (x ∷ m) zero [] = refl
  length-store (x ∷ m) zero (b ∷ bs) = ap suc (length-store m zero bs)
  length-store (x ∷ m) (suc at) bs = ap suc (length-store m at bs)

  take-store-zero : (m bs : List A) → length bs ≤ length m → take (length bs) (store m zero bs) ≡ bs
  unfolding store
  take-store-zero [] [] h = refl
  take-store-zero [] (b ∷ bs) h = absurd (omega arith)
  take-store-zero (x ∷ m) [] h = refl
  take-store-zero (x ∷ m) (b ∷ bs) h = ap (◌∷◌ b) (take-store-zero m bs (omega arith))

  -- The bytes up to the end of a store are those before it, then what was stored.
  pub take-store :
      (m : List A) (at k : ℕ) (bs : List A)
      → k ≡ at + length bs
      → k ≤ length m
      → take k (store m at bs) ≡ take at m ++ bs
  unfolding store
  take-store m zero k bs e h =
      let e' : k ≡ length bs = omega arith in rw e' (take-store-zero m bs (omega arith))
  take-store [] (suc at) k bs e h = absurd (omega arith)
  take-store (x ∷ m) (suc at) zero bs e h = absurd (omega arith)
  take-store (x ∷ m) (suc at) (suc k) bs e h =
      ap (◌∷◌ x) (take-store m at k bs (omega arith) (omega arith))

  pub append-nil_of : (xs ys : List A) → ys ≡ [] → xs ++ ys ≡ xs
  append-nil_of xs ys e = rw e (append-nil xs)

  pub eq-nil_of_length : (xs : List A) → length xs ≡ 0 → xs ≡ []
  eq-nil_of_length [] e = refl
  eq-nil_of_length (x ∷ xs) e = absurd (omega arith)
