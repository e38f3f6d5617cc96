-- ===== src/Buffer/Front.antt =====
-- The front chunk of a valid buffer: bytes put at its end, and a new chunk before it.
use multithread_libevent_exa.Prelude.{
  ℕ, subst, All-append, ◌+◌, ◌≤◌, ◌<◌, ◌≡◌, sym, ap, ◌∙◌, arith, inl, inr, List, ◌++◌, length,
  append-nil, append_assoc, size_mod, All, Bool-cases, ltb, ltb→lt, ltb→le, add_size_lem,
  length-append, add_size,
}
use multithread_libevent_exa.Buffer.{Buffer, push_front, contents, contents_of}
use multithread_libevent_exa.Buffer.Memory.{
  Chunk, bytes, fill, new_chunk, IsChunk, fill-IsChunk, bytes-fill, end-fill, new_chunk-IsChunk,
  bytes-new_chunk,
}
use multithread_libevent_exa.Buffer.Valid.{
  Holds, with-Chunks-IsValid, IsFull, IsLive, Chunks, Chunks-of, Chunks-rest, contents-push_front,
}

module _ {b : Buffer} {q : List ℕ} (h : Holds b q) where
  module _ (rest : List Chunk) (c : Chunk) (e : b.chunk_list ≡ push_front rest c) where
    pub parts : All IsFull rest × IsChunk c × IsLive c
    parts = Chunks-rest rest c (subst Chunks e h.valid.chunks)

    contents-parts : q ≡ contents_of rest ++ bytes c
    unfolding contents
    contents-parts = sym h.held ∙ ap contents_of e ∙ contents-push_front rest c

    -- A front chunk with no room has data, as all others.
    pub front_full : c.cap ≤ c.end → All IsFull b.chunk_list
    front_full le =
        subst (All IsFull) (sym e) (All-append IsFull rest _ parts.0 ((parts.1, live parts.2), tt))
      where
        live : IsLive c → c.offset < c.end
        live (inl l) = l
        live (inr l) = absurd (omega arith)

    module _ (src : List ℕ) (fits : c.end + length src ≤ c.cap)
        (small : length q + length src < size_mod) where
      filled_end : (fill c src).end ≡ c.end + length src
      filled_end = end-fill parts.1 src fits

      filled_live : IsLive (fill c src)
      unfolding fill
      filled_live = elim parts.2 [
        | inl l ↦ inl (omega (arith, filled_end))
        | inr l ↦ elim (Bool-cases (ltb 0 (length src))) [
          | inl some_src ↦ inl (omega (arith, ltb→lt 0 _ some_src, filled_end, parts.1.ordered))
          | inr no_src ↦ inr (omega (arith, ltb→le 0 _ no_src, filled_end))
        ]
      ]

      filled_contents : contents_of (push_front rest (fill c src)) ≡ q ++ src
      filled_contents =
          contents-push_front rest (fill c src)
          ∙ ap (◌++◌ (contents_of rest)) (bytes-fill parts.1 src fits)
          ∙ sym (append_assoc (contents_of rest) (bytes c) src)
          ∙ ap (λ l. l ++ src) (sym contents-parts)

      new_size : add_size b.size (length src) ≡ length q + length src
      new_size =
          ap (λ n. add_size n (length src)) (h.valid.sized ∙ ap length h.held)
          ∙ add_size_lem (length q) (length src) small

      -- Bytes copied to the end of the front chunk go behind those of the queue.
      pub filled_Holds :
          Holds
            (record b {
              size = add_size b.size (length src);
              chunk_list = push_front rest (fill c src);
            })
            (q ++ src)
      unfolding contents
      filled_Holds = record {
        valid =
            with-Chunks-IsValid _ _ h.valid
              (Chunks-of rest _ parts.0 (fill-IsChunk parts.1 src fits) filled_live)
              (omega (arith, new_size, ap length filled_contents, length-append q src))
              (omega (arith, new_size));
        held = filled_contents;
      }

  -- A new chunk without data may be put before chunks that all have some.
  pub grown_Holds :
      (cs : List Chunk) (block : List ℕ) (n : ℕ)
      → All IsFull cs
      → contents_of cs ≡ q
      → length block ≡ n
      → 0 < n
      → n < size_mod
      → Holds (record b { chunk_list = push_front cs (new_chunk block n) }) q
  unfolding contents
  grown_Holds cs block n full held size pos small = record {
    valid =
        with-Chunks-IsValid _ b.size h.valid
          (Chunks-of cs (new_chunk block n) full (new_chunk-IsChunk block n size small)
            (inr (unfold new_chunk in pos)))
          (h.valid.sized ∙ ap length (h.held ∙ sym kept)) h.valid.small;
    held = kept;
  }
    where
      kept : contents_of (push_front cs (new_chunk block n)) ≡ q
      kept =
          contents-push_front cs (new_chunk block n)
          ∙ ap (◌++◌ (contents_of cs)) (bytes-new_chunk block n)
          ∙ append-nil (contents_of cs)
          ∙ held
