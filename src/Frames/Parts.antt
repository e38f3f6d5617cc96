-- ===== src/Frames/Parts.antt =====
-- ExtNet/ws/WsStickyWrap.cpp: the data of a frame that comes in two parts.
use multithread_libevent_exa.Prelude.{
  ℕ, suc, ◌+◌, ◌%◌, ◌^◌, ◌<◌, ◌≤◌, ◌≡◌, refl, sym, ap, subst, arith, true, List, [], ◌∷◌, ◌++◌,
  some, length, get_or, lt→ltb, le→leb, lt→leb, length-append,
}
use multithread_libevent_exa.Frames.{
  Ws, Op, init_head, read_data, parse_ws_head, parse_op, parse_data, unmask_loop, after_unmask,
}
use multithread_libevent_exa.Frames.Bits.{bits_xor, bits_xor_twice}
use multithread_libevent_exa.Frames.Mask.{mask_from, Accepted, frame_masks, at_op}

-- The loop of READ_DATA on the data that has come, be it all or not.
unmask_part :
    (masks ds : List ℕ) (n i k : ℕ)
    → Accepted masks i ds
    → i + length ds ≡ k
    → k ≤ n
    → n < 2 ^ 16
    → unmask_loop masks n i (mask_from masks i ds) ≡ (true, k, ds, length ds)
unfolding unmask_loop
unmask_part masks [] n i k a e le small =
    let q : i ≡ k = omega (arith, e) in ap (λ j. (true, j, [], 0)) q
unmask_part masks (b ∷ bs) n i k a e le small =
    let m = get_or masks (i % 4) 0 in
    let next : (i + 1) % 2 ^ 16 ≡ suc i = omega (arith, e) in
    let ih : unmask_loop masks n ((i + 1) % 2 ^ 16) (mask_from masks (suc i) bs)
        ≡ (true, k, bs, length bs) =
      subst (λ j. unmask_loop masks n j (mask_from masks (suc i) bs) ≡ (true, k, bs, length bs))
        (sym next) (unmask_part masks bs n (suc i) k a.2 (omega (arith, e)) le small) in
    rw (lt→ltb i n (omega (arith, e)))
      (rw a.1 (rw ih (ap (λ x. (true, k, x ∷ bs, suc (length bs))) (bits_xor_twice 8 b m a.0))))

pub mask_from-append :
    (masks : List ℕ) (i j : ℕ) (xs ys : List ℕ)
    → j ≡ i + length xs
    → mask_from masks i (xs ++ ys) ≡ mask_from masks i xs ++ mask_from masks j ys
mask_from-append masks i j [] ys e =
    let q : i ≡ j = omega (arith, e) in ap (λ k. mask_from masks k ys) q
mask_from-append masks i j (x ∷ xs) ys e =
    ap (◌∷◌ (bits_xor 8 x (get_or masks (i % 4) 0)))
      (mask_from-append masks (suc i) j xs ys (omega (arith, e)))

pub Accepted-append :
    (masks : List ℕ) (i j : ℕ) (xs ys : List ℕ)
    → j ≡ i + length xs
    → Accepted masks i (xs ++ ys)
    → Accepted masks i xs × Accepted masks j ys
Accepted-append masks i j [] ys e a =
    let q : i ≡ j = omega (arith, e) in (tt, subst (λ k. Accepted masks k ys) q a)
Accepted-append masks i j (x ∷ xs) ys e a =
    let (left, right) = Accepted-append masks (suc i) j xs ys (omega (arith, e)) a.2 in
    ((a.0, a.1, left), right)

module _ (s : Ws) (b0 m0 m1 m2 m3 : ℕ) (c : ℕ) (cs : List ℕ) (y : ℕ) (ys : List ℕ) where
  abbrev masks : List ℕ
  masks = frame_masks s b0 m0 m1 m2 m3 c cs []

  abbrev data_of_frame : List ℕ
  data_of_frame = (c ∷ cs) ++ (y ∷ ys)

  abbrev size : ℕ
  size = length data_of_frame

  abbrev part : ℕ
  part = length (c ∷ cs)

  abbrev ws_at : Op → ℕ → Ws
  ws_at op i = at_op s b0 m0 m1 m2 m3 c (cs ++ (y ∷ ys)) [] op size masks i

  sizes : size ≡ part + length (y ∷ ys)
  sizes = length-append (c ∷ cs) (y ∷ ys)

  pub first_part :
      size < 126
      → Accepted masks 0 (c ∷ cs)
      → parse_ws_head (ws_at read_data 0) (mask_from masks 0 (c ∷ cs))
        ≡ record { ws = ws_at read_data part; bytes = c ∷ cs; result = some part }
  unfolding parse_ws_head parse_op parse_data after_unmask
  first_part few a =
      rw
        (
          unmask_part masks (c ∷ cs) size 0 part a (omega arith) (omega (arith, sizes))
              (omega (arith, few)),
          parse_data,
        )
        (rw (lt→leb size part (omega (arith, sizes)), after_unmask) refl)

  pub second_part :
      size < 126
      → Accepted masks part (y ∷ ys)
      → parse_ws_head (ws_at read_data part) (mask_from masks part (y ∷ ys))
        ≡ record { ws = ws_at init_head size; bytes = y ∷ ys; result = some (length (y ∷ ys)) }
  unfolding parse_ws_head parse_op parse_data after_unmask
  second_part few a =
      rw
        (
          unmask_part masks (y ∷ ys) size part size a (omega (arith, sizes)) (omega arith)
              (omega (arith, few)),
          parse_data,
        )
        (rw (le→leb size size (omega arith), after_unmask) refl)
