-- ===== src/Client/Print.antt =====
-- client.cc, `read_cb`: what it prints of the bytes that come.
use multithread_libevent_exa.Prelude.{
  ℕ, zero, suc, ◌<◌, ◌≤◌, ◌≡◌, refl, arith, Bool, true, false, List, [], ◌∷◌, Option, none, some,
  length, replicate, store, ◌==◌, ◌||◌, ltb, ltb→lt, ltb→le, if◌then◌else◌,
}
use multithread_libevent_exa.MemoryBuff.{◌>>=◌}
use multithread_libevent_exa.Client.{Bufferevent, c_string, read_cb}

-- The bytes before the first zero, and whether there is one.
abbrev pub before_zero : List ℕ → List ℕ
before_zero [] = []
before_zero (b ∷ bs) = let rest = before_zero bs in if b == 0 then [] else b ∷ rest

abbrev pub has_zero : List ℕ → Bool
has_zero [] = false
has_zero (b ∷ bs) = (b == 0) || has_zero bs

-- A string that is shorter than its block ends in it.
pub c_string-short :
    (bs : List ℕ) (n : ℕ)
    → length bs < n
    → c_string (store (replicate n 0) 0 bs) ≡ some (before_zero bs)
unfolding c_string store
c_string-short bs zero h = absurd (omega arith)
c_string-short [] (suc n) h = refl
c_string-short (b ∷ bs) (suc n) h = rw (c_string-short bs n (omega arith)) (ground arith)

-- One that fills its block ends in it where it has a zero.
c_string-full :
    (bs : List ℕ) (n : ℕ)
    → length bs ≡ n
    → c_string (store (replicate n 0) 0 bs) ≡ (if has_zero bs then some (before_zero bs) else none)
unfolding c_string store
c_string-full [] zero h = refl
c_string-full [] (suc n) h = absurd (omega arith)
c_string-full (b ∷ bs) zero h = absurd (omega arith)
c_string-full (b ∷ bs) (suc n) h =
    rw (c_string-full bs n (omega arith)) (by_zero (b == 0) (has_zero bs))
  where
    by_zero :
        (z h : Bool)
        → (if z
            then some []
            else (do s ← (if h then some (before_zero bs) else none); some (b ∷ s)))
          ≡ (if (z || h) then some (if z then [] else b ∷ before_zero bs) else none)
    by_zero true h = refl
    by_zero false true = refl
    by_zero false false = refl

c_string_lem :
    (bs : List ℕ) (n : ℕ)
    → length bs ≤ n
    → c_string (store (replicate n 0) 0 bs)
      ≡ (if ltb (length bs) n || has_zero bs then some (before_zero bs) else none)
c_string_lem bs n h = go (ltb (length bs) n) refl
  where
    go :
        (t : Bool)
        → ltb (length bs) n ≡ t
        → c_string (store (replicate n 0) 0 bs)
          ≡ (if (t || has_zero bs) then some (before_zero bs) else none)
    go true e = c_string-short bs n (ltb→lt (length bs) n e)
    go false e = c_string-full bs n (omega (arith, h, ltb→le (length bs) n e))

-- A string that is there is passed on.
if-bind :
    {A : Type 0} (t : Bool) (str : List ℕ) (f : List ℕ → Option A)
    → ((if t then some str else none) >>= f) ≡ (if t then f str else none)
if-bind true str f = refl
if-bind false str f = refl

module _ (bufferevent : Bufferevent) (s : bufferevent.State) where
  abbrev pub bytes : List ℕ
  bytes = (bufferevent.read s 1024).0

  -- read_cb of the client prints the bytes that it reads up to the first zero, if they are fewer than
  -- 1024 or one of them is zero. Otherwise it has no defined behaviour: 1024 bytes without a zero fill
  -- the block, and the string does not end in it.
  pub read_cb_lem : read_cb bufferevent (some s) ≡ (
      if ltb (length bytes) 1024 || has_zero bytes
      then some (before_zero bytes, (bufferevent.read s 1024).1)
      else none)
  unfolding read_cb
  read_cb_lem =
      rw (c_string_lem bytes 1024 (bufferevent.read-length s 1024))
        (if-bind (ltb (length bytes) 1024 || has_zero bytes) (before_zero bytes) _)
