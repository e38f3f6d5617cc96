-- ===== src/Buffer/Space.antt =====
-- buffer.cc, `space`, `spaceChunk` and `spaceHaveSeted`: free memory that a caller fills itself.
use multithread_libevent_exa.Prelude.{
  ℕ, ==→lt, eq-nil_of_length, append-nil_of, zero, suc, subst, leb, leb→le, All-append, ◌+◌, ◌-◌,
  ◌≤◌, ◌<◌, ◌≡◌, refl, sym, ap, ◌∙◌, arith, inl, inr, List, [], ◌∷◌, ◌++◌, length, size_mod, All,
  drop, Bool-cases, ltb, ltb→lt, ltb→le, some, max, ◌==◌, ==→≡, length-append, false,
}
use multithread_libevent_exa.Buffer.{
  Buffer, front?, push_front, contents, contents_of, pop_empty, space, space_chunk, store_space,
  space_have_seted,
}
use multithread_libevent_exa.Buffer.Memory.{
  Chunk, bytes, room, fill, new_chunk, IsChunk, room_lem, length-bytes,
}
use multithread_libevent_exa.Buffer.Valid.{
  Holds, IsFull, IsLive, Chunks, Chunks-rest, Chunks-full, front-cases, contents-push_front,
  front?-push_front,
}
use multithread_libevent_exa.Buffer.Front.{parts, front_full, filled_Holds, grown_Holds}

-- The pointer leads to the free memory of the front chunk, `n` bytes at least.
pub record Offers (b : Buffer) (n : ℕ) (region : List ℕ) : Type 0 where
  pub rest : List Chunk
  pub front : Chunk
  pub is_front : b.chunk_list ≡ push_front rest front
  pub is_region : region ≡ drop front.end front.p
  pub large : n ≤ front.cap - front.end

pop_empty_lem :
    (fuel : ℕ) (cs : List Chunk)
    → length cs ≤ fuel
    → Chunks cs
    → (contents_of (pop_empty fuel cs) ≡ contents_of cs) × All IsFull (pop_empty fuel cs)
unfolding pop_empty
pop_empty_lem zero [] le v = (refl, tt)
pop_empty_lem zero (c ∷ cs) le v = absurd (omega arith)
pop_empty_lem (suc fuel) cs le v = elim (front-cases cs) [
  | inl (e, f) ↦ rw (f, pop_empty) (refl, rw e tt)
  | inr (rest, c, e, f) ↦
      rw (f, pop_empty)
        (elim (Bool-cases (c.offset == c.end)) [
          | inl empty ↦
              rw empty (dropped rest c e (==→≡ _ _ empty) (λ l w. pop_empty_lem fuel rest l w))
          | inr some_data ↦ rw some_data (refl, kept rest c e some_data)
        ])
]
  where
    split :
        (rest : List Chunk) (c : Chunk)
        → cs ≡ push_front rest c
        → All IsFull rest × IsChunk c × IsLive c
    split rest c e = Chunks-rest rest c (subst Chunks e v)

    dropped :
        (rest : List Chunk) (c : Chunk)
        → cs ≡ push_front rest c
        → c.offset ≡ c.end
        → (length rest ≤ fuel
            → Chunks rest
            → (contents_of (pop_empty fuel rest) ≡ contents_of rest)
              × All IsFull (pop_empty fuel rest))
        → (contents_of (pop_empty fuel rest) ≡ contents_of cs) × All IsFull (pop_empty fuel rest)
    dropped rest c e empty again = (ih.0 ∙ sym same, ih.1)
      where
        no_bytes : bytes c ≡ []
        no_bytes = eq-nil_of_length _ (length-bytes (split rest c e).1 ∙ omega arith)

        same : contents_of cs ≡ contents_of rest
        same =
            ap contents_of e
            ∙ contents-push_front rest c
            ∙ append-nil_of (contents_of rest) (bytes c) no_bytes

        shorter : length rest ≤ fuel
        shorter = omega (arith, ap length e, length-append rest (c ∷ []))

        ih :
            (contents_of (pop_empty fuel rest) ≡ contents_of rest)
            × All IsFull (pop_empty fuel rest)
        ih = again shorter (Chunks-full rest (split rest c e).0)

    kept :
        (rest : List Chunk) (c : Chunk)
        → cs ≡ push_front rest c
        → (c.offset == c.end) ≡ false
        → All IsFull cs
    kept rest c e some_data = rw e (
        All-append IsFull rest _ (split rest c e).0
          (((split rest c e).1, ==→lt _ _ some_data (split rest c e).1.ordered), tt))

module _ (fresh : ℕ → List ℕ) (length-fresh : (n : ℕ) → length (fresh n) ≡ n) where
  module _ {b : Buffer} {q : List ℕ} (h : Holds b q) where
    -- A new front chunk.
    Offers-new :
        (cs : List Chunk) (n m : ℕ)
        → m ≤ n
        → All IsFull cs
        → contents_of cs ≡ q
        → 0 < n
        → n < size_mod
        → let b' = record b { chunk_list = push_front cs (new_chunk (fresh n) n) } in
          Holds b' q × Offers b' m (fresh n)
    unfolding new_chunk
    Offers-new cs n m le full held pos small = (
      grown_Holds h cs (fresh n) n full held (length-fresh n) pos small,
      record {
        rest = cs;
        front = new_chunk (fresh n) n;
        is_front = refl;
        is_region = refl;
        large = omega arith;
      },
    )

    -- The front chunk as it is.
    Offers-front :
        (rest : List Chunk) (c : Chunk) (m : ℕ)
        → b.chunk_list ≡ push_front rest c
        → m ≤ room c
        → Offers b m (drop c.end c.p)
    Offers-front rest c m e le = record {
      rest = rest;
      front = c;
      is_front = e;
      is_region = refl;
      large = omega (arith, room_lem (parts h rest c e).1);
    }

    -- space on a well-formed buffer, for a length below 2^64, leaves the queue as it is and the buffer
    -- well-formed, whichever empty chunks it removes. The pointer leads to free memory at the end of
    -- the chunk at the front, at least as much as was asked for.
    pub space_lem :
        (len : ℕ) → len < size_mod → let r = space fresh b len in Holds r.0 q × Offers r.0 len r.1
    unfolding space contents
    space_lem len small = elim (front-cases b.chunk_list) [
      | inl (e, f) ↦ rw (f, space) grown
      | inr (rest, c, e, f) ↦
          rw (f, space)
            (elim (Bool-cases (leb len (room c))) [
              | inl le ↦ rw le (h, Offers-front rest c len e (leb→le _ _ le))
              | inr gt ↦ rw gt grown
            ])
    ]
      where
        cs : List Chunk
        cs = pop_empty (length b.chunk_list) b.chunk_list

        n : ℕ
        n = max len b.default_chunk_size

        emptied : (contents_of cs ≡ contents_of b.chunk_list) × All IsFull cs
        emptied = pop_empty_lem (length b.chunk_list) b.chunk_list (omega arith) h.valid.chunks

        grown :
            let b' = record b { chunk_list = push_front cs (new_chunk (fresh n) n) } in
            Holds b' q × Offers b' len (fresh n)
        grown =
            Offers-new cs n len (omega arith) emptied.1 (emptied.0 ∙ h.held)
              (omega (arith, h.valid.positive)) (omega (arith, h.valid.default_small))

    -- spaceChunk on a well-formed buffer leaves the queue as it is and the buffer well-formed. The
    -- pointer leads to free memory at the end of the chunk at the front, at least as much as the
    -- length that it gives, and the length is not 0.
    pub space_chunk_lem :
        let r = space_chunk fresh b in Holds r.0 q × Offers r.0 r.2 r.1 × (0 < r.2)
    unfolding space_chunk contents
    space_chunk_lem = elim (front-cases b.chunk_list) [
      | inl (e, f) ↦ rw (f, space_chunk) (grown (rw e tt))
      | inr (rest, c, e, f) ↦
          rw (f, space_chunk)
            (elim (Bool-cases (ltb 0 (room c))) [
              | inl lt ↦ rw lt (h, Offers-front rest c (room c) e (omega arith), ltb→lt _ _ lt)
              | inr no_room ↦ rw no_room (
                  grown (
                    front_full h rest c e
                      (omega (arith, ltb→le _ _ no_room, room_lem (parts h rest c e).1))))
            ])
    ]
      where
        n : ℕ
        n = b.default_chunk_size

        grown :
            All IsFull b.chunk_list
            → let b' = record b { chunk_list = push_front b.chunk_list (new_chunk (fresh n) n) } in
              Holds b' q × Offers b' n (fresh n) × (0 < n)
        grown full =
            let r =
              Offers-new b.chunk_list n n (omega arith) full h.held h.valid.positive
                h.valid.default_small in
            (r.0, r.1, h.valid.positive)

-- When a well-formed buffer offers free memory, and the caller stores there at most as many bytes as
-- it offers and announces them by spaceHaveSeted, the queue staying below 2^64 bytes, the bytes stand
-- behind the queue and the buffer is well-formed.
pub space_have_seted_lem :
    (b : Buffer) (q : List ℕ) (n : ℕ) (region src : List ℕ)
    → Holds b q
    → Offers b n region
    → length src ≤ n
    → length q + length src < size_mod
    → (b' : Buffer) × (space_have_seted (store_space b src) (length src) ≡ some b')
      × Holds b' (q ++ src)
unfolding space_have_seted fill
space_have_seted_lem b q n region src h o le small = (
  _,
  rw stored (rw (front?-push_front o.rest stored_front, space_have_seted) refl),
  filled_Holds h o.rest o.front o.is_front src fits small,
)
  where
    front : front? b.chunk_list ≡ some (o.rest, o.front)
    front = ap front? o.is_front ∙ front?-push_front o.rest o.front

    stored_front : Chunk
    stored_front = record o.front { p = (fill o.front src).p }

    stored : store_space b src ≡ record b { chunk_list = push_front o.rest stored_front }
    stored = unfold store_space in rw (front, store_space) refl

    fits : o.front.end + length src ≤ o.front.cap
    fits = omega (arith, o.large, (parts h o.rest o.front o.is_front).1.inside)
