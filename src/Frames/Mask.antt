-- ===== src/Frames/Mask.antt =====
-- ExtNet/ws/WsStickyWrap.cpp: the frame of a client that masks its data, parsed call by call.
use multithread_libevent_exa.Prelude.{
  ℕ, suc, ◌+◌, ◌%◌, ◌^◌, ◌<◌, ◌≡◌, refl, sym, ap, subst, ◌∙◌, arith, true, false, List, [], ◌∷◌,
  ◌++◌, some, length, get_or, ◌==◌, lt→ltb, le→ltb, le→leb, take, drop, replicate, take-append-drop,
}
use multithread_libevent_exa.Frames.{
  Ws, Op, init_head, read_payload, read_mask_key, read_data, parse_ws_head, parse_op,
  parse_init_head, parse_payload, parse_mask_key, parse_data, unmask_loop, after_unmask,
  parse_calls, after_call,
}
use multithread_libevent_exa.Frames.Bits.{bits_xor, bits_xor_twice}

-- RFC 6455, 5.3: each byte is combined with the byte of the mask at its place modulo 4.
abbrev pub mask_from : List ℕ → ℕ → List ℕ → List ℕ
mask_from masks i [] = []
mask_from masks i (b ∷ bs) = bits_xor 8 b (get_or masks (i % 4) 0) ∷ mask_from masks (suc i) bs

-- Bytes that `parseWsHead` accepts when they are masked: none of them becomes 255.
abbrev pub Accepted : List ℕ → ℕ → List ℕ → Type 0
Accepted masks i [] = Unit {0}
Accepted masks i (b ∷ bs) =
    (b < 256) × ((bits_xor 8 b (get_or masks (i % 4) 0) == 255) ≡ false) × Accepted masks (suc i) bs

unmask_rest : (masks rest : List ℕ) (n : ℕ) → unmask_loop masks n n rest ≡ (true, n, rest, 0)
unfolding unmask_loop
unmask_rest masks [] n = refl
unmask_rest masks (b ∷ bs) n = rw (le→ltb n n (omega arith)) refl

-- The loop of the state READ_DATA, on data that the client has masked from the place that the index
-- has, where no masked byte is 255, up to a length below 2^16, and whatever follows: it ends by its
-- test, the data is unmasked, the index is at the length, and the bytes that follow are neither read
-- nor changed.
pub unmask_lem :
    (masks ds rest : List ℕ) (n i : ℕ)
    → Accepted masks i ds
    → i + length ds ≡ n
    → n < 2 ^ 16
    → unmask_loop masks n i (mask_from masks i ds ++ rest) ≡ (true, n, ds ++ rest, length ds)
unfolding unmask_loop
unmask_lem masks [] rest n i a e small =
    subst (λ k. unmask_loop masks n k rest ≡ (true, n, rest, 0)) (sym (omega (arith, e)))
      (unmask_rest masks rest n)
unmask_lem masks (b ∷ bs) rest n i a e small =
    let m = get_or masks (i % 4) 0 in
    let next : (i + 1) % 2 ^ 16 ≡ suc i = omega (arith, e) in
    let ih : unmask_loop masks n ((i + 1) % 2 ^ 16) (mask_from masks (suc i) bs ++ rest)
        ≡ (true, n, bs ++ rest, length bs) =
      subst
        (λ k.
          unmask_loop masks n k (mask_from masks (suc i) bs ++ rest)
          ≡ (true, n, bs ++ rest, length bs))
        (sym next) (unmask_lem masks bs rest n (suc i) a.2 (omega (arith, e)) small) in
    rw (lt→ltb i n (omega (arith, e))) (
      rw a.1
        (rw ih (ap (λ x. (true, n, x ∷ (bs ++ rest), suc (length bs))) (bits_xor_twice 8 b m a.0))))

parse_calls_step :
    (n : ℕ) (s : Ws) (bs : List ℕ) (s' s'' : Ws) (bs' out : List ℕ) (r : ℕ)
    → parse_ws_head s bs ≡ record { ws = s'; bytes = bs'; result = some r }
    → parse_calls n s' (drop r bs') ≡ some (s'', out)
    → parse_calls (suc n) s bs ≡ some (s'', take r bs' ++ out)
unfolding parse_calls after_call
parse_calls_step n s bs s' s'' bs' out r e f =
    ap (after_call (parse_calls n)) e ∙ rw (f, after_call) refl

module _ (s : Ws) (b0 m0 m1 m2 m3 : ℕ) (d : ℕ) (ds rest : List ℕ) where
  abbrev pub frame_masks : List ℕ
  frame_masks = m0 ∷ (m1 ∷ (m2 ∷ (m3 ∷ [])))

  abbrev pub head_of : List ℕ
  head_of = b0 ∷ ((128 + length (d ∷ ds)) ∷ [])

  -- The masked data, and what follows the frame.
  abbrev pub masked : List ℕ
  masked = mask_from frame_masks 0 (d ∷ ds) ++ rest

  -- A state in which the head of this frame has been read.
  abbrev pub at_op : Op → ℕ → List ℕ → ℕ → Ws
  at_op op n masks i = record {
    op = op;
    wbs = (b0, 128 + length (d ∷ ds));
    len = n;
    masks = masks;
    parse_index = i;
  }

  pub first_call :
      (bs : List ℕ)
      → s.op ≡ init_head
      → parse_ws_head s (head_of ++ bs) ≡ record {
        ws = at_op read_payload 0 (replicate 4 0) 0;
        bytes = head_of ++ bs;
        result = some 2;
      }
  unfolding parse_ws_head parse_op parse_init_head
  first_call bs e = rw e refl

  pub second_call :
      (b : ℕ) (bs : List ℕ)
      → length (d ∷ ds) < 126
      → parse_ws_head (at_op read_payload 0 (replicate 4 0) 0) (b ∷ bs) ≡ record {
        ws = at_op read_mask_key (length (d ∷ ds)) (replicate 4 0) 0;
        bytes = b ∷ bs;
        result = some 0;
      }
  unfolding parse_ws_head parse_op parse_payload
  second_call b bs few =
      let q : (128 + length (d ∷ ds)) % 128 ≡ length (d ∷ ds) = omega arith in
      rw (q, parse_payload) (rw (lt→ltb (length (d ∷ ds)) 126 few) refl)

  pub third_call :
      (bs : List ℕ)
      → parse_ws_head (at_op read_mask_key (length (d ∷ ds)) (replicate 4 0) 0) (frame_masks ++ bs)
        ≡ record {
          ws = at_op read_data (length (d ∷ ds)) frame_masks 0;
          bytes = frame_masks ++ bs;
          result = some 4;
        }
  unfolding parse_ws_head parse_op parse_mask_key
  third_call bs = rw (le→leb 4 (length (frame_masks ++ bs)) (omega arith), parse_mask_key) refl

  pub fourth_call :
      length (d ∷ ds) < 126
      → Accepted frame_masks 0 (d ∷ ds)
      → parse_ws_head (at_op read_data (length (d ∷ ds)) frame_masks 0) masked ≡ record {
        ws = at_op init_head (length (d ∷ ds)) frame_masks (length (d ∷ ds));
        bytes = (d ∷ ds) ++ rest;
        result = some (length (d ∷ ds));
      }
  unfolding parse_ws_head parse_op parse_data after_unmask
  fourth_call few a =
      rw
        (
          unmask_lem frame_masks (d ∷ ds) rest (length (d ∷ ds)) 0 a (omega arith) (omega arith),
          parse_data,
        )
        (rw (le→leb (length (d ∷ ds)) (length (d ∷ ds)) (omega arith), after_unmask) refl)

  -- Take a state that waits for a frame, and the frame of a client with 1 to 125 bytes of data under a
  -- mask, where no masked byte is 255, whatever follows it. Four calls of parseWsHead read it: head,
  -- length, mask and data. They leave the data unmasked in its place and all other bytes as they were,
  -- with the length and the mask in the state, which waits for the next frame.
  pub parse_calls_lem :
      s.op ≡ init_head
      → length (d ∷ ds) < 126
      → Accepted frame_masks 0 (d ∷ ds)
      → parse_calls 4 s (head_of ++ (frame_masks ++ masked))
        ≡ some (
          at_op init_head (length (d ∷ ds)) frame_masks (length (d ∷ ds)),
          head_of ++ (frame_masks ++ ((d ∷ ds) ++ rest)),
        )
  unfolding parse_calls
  parse_calls_lem e few a =
      let n = length (d ∷ ds) in
      let out = (d ∷ ds) ++ rest in
      let s1 = at_op read_payload 0 (replicate 4 0) 0 in
      let s2 = at_op read_mask_key n (replicate 4 0) 0 in
      let s3 = at_op read_data n frame_masks 0 in
      let s4 = at_op init_head n frame_masks n in
      let tail = frame_masks ++ masked in
      let whole = take n out ++ drop n out in
      let c4 = parse_calls_step 0 s3 masked s4 s4 out (drop n out) n (fourth_call few a) refl in
      let c3 = parse_calls_step 1 s2 tail s3 s4 tail whole 4 (third_call masked) c4 in
      let c2 =
        parse_calls_step 2 s1 tail s2 s4 tail (frame_masks ++ whole) 0
          (second_call m0 (drop 1 tail) few) c3 in
      parse_calls_step 3 s (head_of ++ tail) s1 s4 (head_of ++ tail) (frame_masks ++ whole) 2
        (first_call tail e) c2
      ∙ ap (λ x. some (s4, head_of ++ (frame_masks ++ x))) (take-append-drop n out)
