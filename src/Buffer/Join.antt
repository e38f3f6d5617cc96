-- ===== src/Buffer/Join.antt =====
-- buffer.cc, `data`: bytes that lie in several chunks are copied into one.
use multithread_libevent_exa.Prelude.{
  ℕ, zero, suc, ◌+◌, ◌-◌, ◌≤◌, ◌<◌, ◌≡◌, refl, sym, ap, ◌∙◌, arith, List, [], ◌∷◌, ◌++◌, length,
  size_mod, drop, take, Bool-cases, leb, inl, inr, lt→ltb, le→ltb, le→leb, lt→leb, take-take,
  take-append_past, drop-append_past, drop-append_of_le, length-take, leb→le, leb→lt, sub_size,
  sub_size_lem, Option, some, none, length-append, take-store, take-append-drop, take-append_of_le,
  append_assoc, append-nil, min,
}
use multithread_libevent_exa.Buffer.{
  Buffer, contents, contents_of, gather, gather_round, gather_copy, data_at, data_of,
}
use multithread_libevent_exa.Buffer.Memory.{
  Chunk, bytes, used, used_lem, length-bytes, IsChunk, skip, fill, new_chunk, filled_new-IsChunk,
  filled_new_end, filled_new_offset, bytes-filled_new, skip-IsChunk, bytes-skip, offset-skip,
}
use multithread_libevent_exa.Buffer.Valid.{
  IsValid, Holds, Chunks, Chunks-head, Chunks-tail, Chunks-cons, IsFull, with-Chunks-IsValid,
}
use multithread_libevent_exa.Buffer.Read.{take-drop-bytes, back_full}

-- `gather` succeeds: it has appended `n` bytes to `out`, and what stays are the bytes behind them.
pub record Gathers (cs : List Chunk) (n : ℕ) (out : List ℕ) (r : Option (List ℕ × List Chunk))
    : Type 0 where
  pub rest : List Chunk
  pub result : r ≡ some (out ++ take n (contents_of cs), rest)
  pub chunks : Chunks rest
  pub left : contents_of rest ≡ drop n (contents_of cs)

gather_done :
    (fuel len : ℕ) (cs : List Chunk) (out : List ℕ)
    → len ≤ length out
    → gather (suc fuel) len cs out ≡ some (out, cs)
unfolding gather
gather_done fuel len cs out h = rw (le→ltb (length out) len h, gather)

module _ (fuel len n : ℕ) (c : Chunk) (cs : List Chunk) (out : List ℕ) where
  module _ (v : IsChunk c) (few : len < size_mod) (e : len ≡ length out + n) (more : 0 < n)
      (full : c.offset < c.end) where
    wanted : sub_size len (length out) ≡ n
    wanted = sub_size_lem len (length out) (omega arith) few ∙ omega arith

    round :
        gather (suc fuel) len (c ∷ cs) out ≡ gather_copy (gather fuel len) c cs (min (used c) n) out
    unfolding gather gather_round
    round =
        rw (lt→ltb (length out) len (omega arith), gather)
          (rw (lt→ltb c.offset c.end full, gather_round) (rw wanted refl))

    gather_past :
        used c ≤ n → gather (suc fuel) len (c ∷ cs) out ≡ gather fuel len cs (out ++ bytes c)
    unfolding gather_copy
    gather_past h = round ∙ copied _ (omega arith)
      where
        copied :
            (k : ℕ)
            → k ≡ used c
            → gather_copy (gather fuel len) c cs k out ≡ gather fuel len cs (out ++ bytes c)
        copied k k_eq = rw k_eq (
            rw (le→leb (used c) (used c) (omega arith), gather_copy)
              (ap (λ l. gather fuel len cs (out ++ l)) (take-drop-bytes v)))

    gather_part :
        n < used c
        → gather (suc fuel) len (c ∷ cs) out
          ≡ gather fuel len (skip c n ∷ cs) (out ++ take n (bytes c))
    unfolding gather_copy
    gather_part h = round ∙ copied _ (omega arith)
      where
        same : take n (drop c.offset c.p) ≡ take n (bytes c)
        same =
            sym (take-take n (used c) (drop c.offset c.p) (omega arith))
            ∙ ap (take n) (take-drop-bytes v)

        copied :
            (k : ℕ)
            → k ≡ n
            → gather_copy (gather fuel len) c cs k out
              ≡ gather fuel len (skip c n ∷ cs) (out ++ take n (bytes c))
        copied k k_eq = rw k_eq (
            rw (lt→leb (used c) n h, gather_copy)
              (ap (λ l. gather fuel len (skip c n ∷ cs) (out ++ l)) same))

-- The round that follows a whole chunk.
Gathers-past :
    (c : Chunk) (cs : List Chunk) (out : List ℕ) (n : ℕ)
    → Chunks (c ∷ cs)
    → used c ≤ n
    → {r r' : Option (List ℕ × List Chunk)} → r ≡ r'
    → Gathers cs (n - used c) (out ++ bytes c) r'
    → Gathers (c ∷ cs) n out r
unfolding contents_of
Gathers-past c cs out n v h step g = record {
  rest = g.rest;
  result =
      step
      ∙ g.result
      ∙ ap (λ l. some (l, g.rest))
          (append_assoc out (bytes c) (take (n - used c) (contents_of cs))
            ∙ ap (◌++◌ out)
                (sym (take-append_past n (n - used c) (bytes c) (contents_of cs) whole)));
  chunks = g.chunks;
  left = g.left ∙ sym (drop-append_past n (n - used c) (bytes c) (contents_of cs) whole);
}
  where
    whole : n ≡ length (bytes c) + (n - used c)
    whole = omega (arith, length-bytes (Chunks-head c cs v), used_lem (Chunks-head c cs v))

-- The last round, which ends inside a chunk.
Gathers-part :
    (c : Chunk) (cs : List Chunk) (out : List ℕ) (n : ℕ)
    → Chunks (c ∷ cs)
    → n < used c
    → {r : Option (List ℕ × List Chunk)} → r ≡ some (out ++ take n (bytes c), skip c n ∷ cs)
    → Gathers (c ∷ cs) n out r
unfolding contents_of
Gathers-part c cs out n v h step = record {
  rest = skip c n ∷ cs;
  result =
      step
      ∙ ap (λ l. some (out ++ l, skip c n ∷ cs))
          (sym (take-append_of_le n (bytes c) (contents_of cs) inside));
  chunks = Chunks-cons _ cs (skip-IsChunk head n fits, full) (Chunks-tail c cs v);
  left =
      ap (λ l. l ++ contents_of cs) (bytes-skip head n fits)
      ∙ sym (drop-append_of_le n (bytes c) (contents_of cs) inside);
}
  where
    head : IsChunk c
    head = Chunks-head c cs v

    inside : n ≤ length (bytes c)
    inside = omega (arith, length-bytes head, used_lem head)

    fits : c.offset + n ≤ c.end
    fits = omega (arith, used_lem head)

    full : (skip c n).offset < (skip c n).end
    full = unfold skip in omega (arith, offset-skip head n fits, used_lem head)

gather_lem :
    (fuel len n : ℕ) (cs : List Chunk) (out : List ℕ)
    → Chunks cs
    → len < size_mod
    → len ≡ length out + n
    → n ≤ length (contents_of cs)
    → length cs < fuel
    → Gathers cs n out (gather fuel len cs out)
gather_lem zero len n cs out v few e le f = absurd (omega arith)
gather_lem (suc fuel) len zero cs out v few e le f = record {
  rest = cs;
  result =
      gather_done fuel len cs out (omega arith) ∙ ap (λ l. some (l, cs)) (sym (append-nil out));
  chunks = v;
  left = refl;
}
gather_lem (suc fuel) len (suc n) [] out v few e le f = absurd (unfold contents_of in omega arith)
gather_lem (suc zero) len (suc n) (c ∷ cs) out v few e le f = absurd (omega arith)
gather_lem (suc (suc fuel)) len (suc n) (c ∷ cs) out v few e le f =
    elim (Bool-cases (leb (used c) (suc n))) [
      | inl past ↦
          Gathers-past c cs out (suc n) v (leb→le _ _ past)
            (gather_past (suc fuel) len (suc n) c cs out head few e (omega arith) full
              (leb→le _ _ past))
            (gather_lem (suc fuel) len (suc n - used c) cs (out ++ bytes c) (Chunks-tail c cs v) few
              (omega (
                arith,
                length-append out (bytes c),
                length-bytes head,
                used_lem head,
                leb→le _ _ past,
              ))
              (omega (arith, whole, length-bytes head, used_lem head, leb→le _ _ past))
              (omega arith))
      | inr part ↦ Gathers-part c cs out (suc n) v (leb→lt _ _ part) (
          gather_part (suc fuel) len (suc n) c cs out head few e (omega arith) full
            (leb→lt _ _ part)
          ∙ gather_done fuel len _ _ (
              omega (
                arith,
                length-append out (take (suc n) (bytes c)),
                length-take (suc n) (bytes c),
                length-bytes head,
                used_lem head,
                leb→lt _ _ part,
              )))
    ]
  where
    head : IsChunk c
    head = Chunks-head c cs v

    full : c.offset < c.end
    full = back_full c cs v (omega arith)

    whole : length (contents_of (c ∷ cs)) ≡ length (bytes c) + length (contents_of cs)
    whole = unfold contents_of in length-append (bytes c) (contents_of cs)

-- A pointer to the oldest `len` bytes of `q`, in a buffer that still holds `q`.
abbrev pub Joined : List ℕ → ℕ → Option (Buffer × Option (List ℕ)) → Type 0
Joined q len r =
    (b' : Buffer) × (m : List ℕ) × (r ≡ some (b', some m)) × (take len m ≡ take len q) × Holds b' q

module _ (fresh : ℕ → List ℕ) (length-fresh : (n : ℕ) → length (fresh n) ≡ n) where
  module _ (b : Buffer) (q : List ℕ) (len : ℕ) (h : Holds b q) (small : len < size_mod)
      (some_data : 0 < len) (enough : len ≤ length q) where
    -- The chunk that the gathered bytes are put in.
    joined :
        (cs : List Chunk) (out : List ℕ)
        → out ≡ take len q
        → Chunks cs
        → contents_of cs ≡ drop len q
        → let c = fill (new_chunk (fresh len) len) out in
          (take len c.p ≡ take len q) × Holds (record b { chunk_list = c ∷ cs }) q
    unfolding contents contents_of
    joined cs out e v left = (stored ∙ e, record { valid = valid; held = held })
      where
        size : length out ≡ len
        size = omega (arith, ap length e, length-take len q)

        c : Chunk
        c = fill (new_chunk (fresh len) len) out

        fits : length out ≤ len
        fits = omega (arith, size)

        stored : take len c.p ≡ out
        stored =
            unfold fill new_chunk in
            take-store (fresh len) 0 len out (omega (arith, size)) (omega (arith, length-fresh len))

        full : IsFull c
        full = (
          filled_new-IsChunk (fresh len) out len (length-fresh len) small fits,
          omega (
            arith,
            filled_new_end (fresh len) out len (length-fresh len) small fits,
            filled_new_offset (fresh len) out len (length-fresh len) small fits,
            size,
          ),
        )

        held : bytes c ++ contents_of cs ≡ q
        held =
            ap (λ l. l ++ contents_of cs)
              (bytes-filled_new (fresh len) out len (length-fresh len) small fits ∙ e)
            ∙ ap (◌++◌ (take len q)) left
            ∙ take-append-drop len q

        valid : IsValid (record b { chunk_list = c ∷ cs })
        valid =
            with-Chunks-IsValid (c ∷ cs) b.size h.valid (Chunks-cons c cs full v)
              (h.valid.sized ∙ ap length (h.held ∙ sym held)) h.valid.small

    data_at_lem :
        (cs : List Chunk) → Chunks cs → contents_of cs ≡ q → Joined q len (data_at fresh b cs len)
    unfolding data_at
    data_at_lem [] v e = absurd (unfold contents_of in omega (arith, ap length e))
    data_at_lem (c ∷ cs) v e = elim (Bool-cases (leb len (used c))) [
      | inl near ↦ rw near (b, drop c.offset c.p, refl, near_bytes (leb→le _ _ near), h)
      | inr far ↦ rw (far, g.result) (made g.rest g.chunks (g.left ∙ ap (drop len) e))
    ]
      where
        head : IsChunk c
        head = Chunks-head c cs v

        near_bytes : len ≤ used c → take len (drop c.offset c.p) ≡ take len q
        near_bytes le =
            sym (take-take len (used c) (drop c.offset c.p) le)
            ∙ ap (take len) (take-drop-bytes head)
            ∙ sym (
                take-append_of_le len (bytes c) (contents_of cs)
                  (omega (arith, length-bytes head, used_lem head)))
            ∙ ap (take len) (unfold contents_of in e)

        made :
            (rest : List Chunk)
            → Chunks rest
            → contents_of rest ≡ drop len q
            → Joined q len (
                some (
                  record b {
                    chunk_list =
                        fill (new_chunk (fresh len) len) ([] ++ take len (contents_of (c ∷ cs)))
                        ∷ rest;
                  },
                  some (fill (new_chunk (fresh len) len) ([] ++ take len (contents_of (c ∷ cs)))).p,
                ))
        made rest w left =
            let j = joined rest (take len (contents_of (c ∷ cs))) (ap (take len) e) w left in
            (_, _, refl, j.0, j.1)

        g : Gathers (c ∷ cs) len [] (gather (suc (length (c ∷ cs))) len (c ∷ cs) [])
        g =
            gather_lem (suc (length (c ∷ cs))) len len (c ∷ cs) [] v small (omega arith)
              (omega (arith, ap length e)) (omega arith)

    -- data on a well-formed buffer, with a length of at least one byte that the queue has and that is
    -- below 2^64, ends, leads to memory that begins with the oldest bytes of that number, and leaves
    -- the buffer well-formed with the same queue.
    pub data_of_lem : Joined q len (data_of fresh b len)
    unfolding data_of contents
    data_of_lem =
        rw (le→ltb b.size len (omega (arith, h.valid.sized, ap length h.held)))
          (data_at_lem b.chunk_list h.valid.chunks h.held)

  -- With too few it is null, and nothing changes.
  pub data_of_short :
      (b : Buffer) (q : List ℕ) (len : ℕ)
      → Holds b q
      → length q < len
      → data_of fresh b len ≡ some (b, none)
  unfolding data_of
  data_of_short b q len h few =
      rw (lt→ltb b.size len (omega (arith, h.valid.sized, ap length h.held))) refl
