-- ===== src/Buffer/Drain.antt =====
-- buffer.cc, `drain`: bytes leave the queue at its old end.
use multithread_libevent_exa.Prelude.{
  ℕ, ◌+◌, ◌-◌, ◌≤◌, ◌<◌, ◌≡◌, sym, ap, ◌∙◌, arith, List, [], ◌∷◌, ◌++◌, length, size_mod, drop,
  Bool-cases, ltb, leb, inl, inr, ltb→lt, ltb→le, leb→le, leb→lt, add_size, sub_size, add_size_lem,
  sub_size_lem, min, length-drop, length-append, drop-append_of_le, drop-append_past,
  drop-of_length-le,
}
use multithread_libevent_exa.Buffer.{Buffer, contents, contents_of, drain_loop, drain}
use multithread_libevent_exa.Buffer.Memory.{
  Chunk, bytes, used, skip, used_lem, length-bytes, skip-IsChunk, bytes-skip, offset-skip, IsChunk,
}
use multithread_libevent_exa.Buffer.Valid.{
  Holds, with-Chunks-IsValid, Chunks, Chunks-head, Chunks-tail, Chunks-cons,
}

-- What `drain_loop` leaves of the chunks `cs`, and the count that it returns.
pub record Drains (cs : List Chunk) (len drained : ℕ) (r : List Chunk × ℕ) : Type 0 where
  pub chunks : Chunks r.0
  pub left : contents_of r.0 ≡ drop (len - drained) (contents_of cs)
  pub count : r.1 ≡ min len (drained + length (contents_of cs))

module _ (c : Chunk) (cs : List Chunk) (v : Chunks (c ∷ cs)) (len d : ℕ)
    (few : len < size_mod) where
  head : IsChunk c
  head = Chunks-head c cs v

  length-contents : length (contents_of (c ∷ cs)) ≡ c.end - c.offset + length (contents_of cs)
  unfolding contents_of
  length-contents = omega (arith, length-append (bytes c) (contents_of cs), length-bytes head)

  -- The whole chunk is drained.
  Drains-past :
      d < len
      → used c ≤ len - d
      → {r : List Chunk × ℕ} → Drains cs len (add_size d (used c)) r
      → Drains (c ∷ cs) len d r
  unfolding contents_of
  Drains-past lt le h = record {
    chunks = h.chunks;
    left =
        h.left
        ∙ sym (
            drop-append_past (len - d) (len - add_size d (used c)) (bytes c) (contents_of cs)
              (omega (arith, past, length-bytes head, used_lem head, le, lt)));
    count = h.count ∙ omega (arith, past, length-contents, used_lem head);
  }
    where
      past : add_size d (used c) ≡ d + used c
      past = add_size_lem d (used c) (omega arith)

  -- A part of it is.
  Drains-part : d < len → len - d < used c → Drains (c ∷ cs) len d (skip c (len - d) ∷ cs, len)
  unfolding contents_of skip
  Drains-part lt part = record {
    chunks = Chunks-cons _ cs (skip-IsChunk head (len - d) inside, full) (Chunks-tail c cs v);
    left =
        ap (λ l. l ++ contents_of cs) (bytes-skip head (len - d) inside)
        ∙ sym (
            drop-append_of_le (len - d) (bytes c) (contents_of cs)
              (omega (arith, length-bytes head, used_lem head, part)));
    count = omega (arith, length-contents, used_lem head, part);
  }
    where
      inside : c.offset + (len - d) ≤ c.end
      inside = omega (arith, used_lem head, part)

      full : (skip c (len - d)).offset < c.end
      full = omega (arith, offset-skip head (len - d) inside, used_lem head, part)

drain_loop_lem :
    (cs : List Chunk) (len d : ℕ)
    → Chunks cs
    → d ≤ len
    → len < size_mod
    → Drains cs len d (drain_loop cs len d)
unfolding drain_loop contents_of
drain_loop_lem [] len d v h few = record {
  chunks = tt;
  left = sym (drop-of_length-le (len - d) [] (omega arith));
  count = omega arith;
}
drain_loop_lem (c ∷ cs) len d v h few = elim (Bool-cases (ltb d len)) [
  | inr ge ↦ rw ge (record {
    chunks = v;
    left = nothing (len - d) (omega (arith, ltb→le d len ge));
    count = omega (arith, ltb→le d len ge);
  })
  | inl lt ↦
      rw (lt, sub_size_lem len d h few)
        (elim (Bool-cases (leb (used c) (len - d))) [
          | inl le ↦ rw le (
              Drains-past c cs v len d few (ltb→lt d len lt) (leb→le _ _ le) (
                drain_loop_lem cs len (add_size d (used c)) (Chunks-tail c cs v)
                  (within (ltb→lt d len lt) (leb→le _ _ le)) few))
          | inr gt ↦ rw gt (Drains-part c cs v len d few (ltb→lt d len lt) (leb→lt _ _ gt))
        ])
]
  where
    nothing : (n : ℕ) → n ≡ 0 → contents_of (c ∷ cs) ≡ drop n (contents_of (c ∷ cs))
    nothing n e = rw e

    within : d < len → used c ≤ len - d → add_size d (used c) ≤ len
    within lt le = omega (arith, add_size_lem d (used c) (omega arith))

-- drain on a well-formed buffer, with a length below 2^64, removes the oldest bytes, leaves a
-- well-formed buffer with the rest, and returns how many it removed: the length asked for, or all that
-- there are.
pub drain_lem :
    (b : Buffer) (q : List ℕ) (len : ℕ)
    → Holds b q
    → len < size_mod
    → Holds (drain b len).0 (drop len q) × ((drain b len).1 ≡ min len (length q))
unfolding drain contents
drain_lem b q len h few = (
  record {
    valid =
        with-Chunks-IsValid _ _ h.valid g.chunks
          (omega (arith, new_size, ap length left, length-drop len q))
          (omega (arith, new_size, whole));
    held = left;
  },
  omega (arith, g.count, ap length h.held),
)
  where
    r : List Chunk × ℕ
    r = drain_loop b.chunk_list len 0

    g : Drains b.chunk_list len 0 r
    g = drain_loop_lem b.chunk_list len 0 h.valid.chunks (omega arith) few

    left : contents_of r.0 ≡ drop len q
    left =
        g.left
        ∙ ap (drop (len - 0)) h.held
        ∙ ap (λ n. drop n q) (let e : len - 0 ≡ len = omega arith in e)

    whole : b.size ≡ length q
    whole = h.valid.sized ∙ ap length h.held

    new_size : sub_size b.size r.1 ≡ length q - len
    new_size =
        sub_size_lem b.size r.1 (omega (arith, g.count, h.valid.sized, h.valid.small)) h.valid.small
        ∙ omega (arith, g.count, ap length h.held, whole)
