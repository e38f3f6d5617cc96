-- ===== src/Buffer/Read.antt =====
-- buffer.cc, `operator[]` and `dataChunk`: bytes read in place.
use multithread_libevent_exa.Prelude.{
  ℕ, ◌+◌, ◌-◌, ◌≤◌, ◌<◌, ◌≡◌, refl, sym, ap, ◌∙◌, arith, List, [], ◌∷◌, ◌++◌, length, size_mod,
  drop, take, Bool-cases, ltb, inl, inr, ltb→lt, ltb→le, add_size, sub_size, add_size_lem,
  sub_size_lem, get_or, Option, some, subst, length-append, drop-take, take-append_of_le,
  take-of_length-le, get_or-append_left, get_or-append_right, get_or-take, get_or-drop,
}
use multithread_libevent_exa.Buffer.{
  Buffer, contents, contents_of, at_loop, at, back_data, data_chunk,
}
use multithread_libevent_exa.Buffer.Memory.{Chunk, bytes, used, used_lem, length-bytes, IsChunk}
use multithread_libevent_exa.Buffer.Valid.{Holds, Chunks, Chunks-head, Chunks-tail}

-- What lies at the pointer `ch.p + ch.offset` are the chunk's bytes.
pub take-drop-bytes : {c : Chunk} → IsChunk c → take (used c) (drop c.offset c.p) ≡ bytes c
unfolding bytes
take-drop-bytes {c} v =
    ap (λ n. take n (drop c.offset c.p)) (used_lem v) ∙ sym (drop-take c.offset c.end c.p v.ordered)

get_or-bytes :
    (c : Chunk) (i j : ℕ) → j ≡ i + c.offset → j < c.end → get_or (bytes c) i 0 ≡ get_or c.p j 0
unfolding bytes
get_or-bytes c i j e h = get_or-drop c.offset i j (take c.end c.p) 0 e ∙ get_or-take c.end j c.p 0 h

module _ {c : Chunk} (v : IsChunk c) (cur i : ℕ) (small : cur + (c.end - c.offset) < size_mod) where
  reach : sub_size (add_size cur c.end) c.offset ≡ cur + (c.end - c.offset)
  unfolding sub_size add_size
  reach = omega (arith, v.ordered, v.inside, v.small)

  index :
      cur ≤ i
      → i < cur + (c.end - c.offset)
      → add_size (sub_size i cur) c.offset ≡ i - cur + c.offset
  index le lt =
      ap (λ n. add_size n c.offset) (sub_size_lem i cur le (omega arith))
      ∙ add_size_lem (i - cur) c.offset (omega (arith, v.ordered, v.inside, v.small))

at_loop_lem :
    (cs : List Chunk) (cur i : ℕ)
    → Chunks cs
    → cur ≤ i
    → cur + length (contents_of cs) < size_mod
    → at_loop cs cur i ≡ get_or (contents_of cs) (i - cur) 0
unfolding at_loop contents_of
at_loop_lem [] cur i v le small = refl
at_loop_lem (c ∷ cs) cur i v le small =
    rw (reach head cur i few) (elim (Bool-cases (ltb i (cur + (c.end - c.offset)))) [
      | inl lt ↦ rw (lt, index head cur i few le (ltb→lt _ _ lt)) (found (ltb→lt _ _ lt))
      | inr ge ↦ rw ge (
          missed (ltb→le _ _ ge) (
            at_loop_lem cs (add_size cur (used c)) i (Chunks-tail c cs v) (next (ltb→le _ _ ge))
              (omega (arith, step, length-append (bytes c) (contents_of cs), length-bytes head))))
    ])
  where
    head : IsChunk c
    head = Chunks-head c cs v

    few : cur + (c.end - c.offset) < size_mod
    few = omega (arith, length-append (bytes c) (contents_of cs), length-bytes head)

    step : add_size cur (used c) ≡ cur + (c.end - c.offset)
    step = ap (add_size cur) (used_lem head) ∙ add_size_lem cur (c.end - c.offset) few

    next : cur + (c.end - c.offset) ≤ i → add_size cur (used c) ≤ i
    next h = omega (arith, step)

    found :
        i < cur + (c.end - c.offset)
        → get_or c.p (i - cur + c.offset) 0 ≡ get_or (bytes c ++ contents_of cs) (i - cur) 0
    found h = sym (
        get_or-append_left (bytes c) (contents_of cs) (i - cur) 0 (omega (arith, length-bytes head))
        ∙ get_or-bytes c (i - cur) _ refl (omega (arith, head.ordered)))

    missed :
        cur + (c.end - c.offset) ≤ i
        → at_loop cs (add_size cur (used c)) i
          ≡ get_or (contents_of cs) (i - add_size cur (used c)) 0
        → at_loop cs (add_size cur (used c)) i ≡ get_or (bytes c ++ contents_of cs) (i - cur) 0
    missed h ih =
        ih
        ∙ sym (
            get_or-append_right (bytes c) (contents_of cs) (i - cur) (i - add_size cur (used c)) 0
              (omega (arith, step, length-bytes head)))

-- operator[] on a well-formed buffer is the byte of the queue at that index, counted from the oldest,
-- and 0 past its end.
pub at_lem : (b : Buffer) (q : List ℕ) (i : ℕ) → Holds b q → at b i ≡ get_or q i 0
unfolding at contents
at_lem b q i h =
    at_loop_lem b.chunk_list 0 i h.valid.chunks (omega arith)
      (omega (arith, h.valid.sized, h.valid.small))
    ∙ ap (λ l. get_or l (i - 0) 0) h.held
    ∙ ap (λ n. get_or q n 0) (let e : i - 0 ≡ i = omega arith in e)

-- The chunk at the back has data, if the queue has any.
pub back_full :
    (c : Chunk) (cs : List Chunk)
    → Chunks (c ∷ cs)
    → 0 < length (contents_of (c ∷ cs))
    → c.offset < c.end
unfolding contents_of
back_full c [] v h = omega (arith, length-append (bytes c) [], length-bytes v.0)
back_full c (d ∷ ds) v h = v.1

-- What `dataChunk` answers on a queue `q` that is not empty.
abbrev pub Chunked : List ℕ → Option (List ℕ × ℕ) → Type 0
Chunked q r =
    (m : List ℕ) × (n : ℕ) × (r ≡ some (m, n)) × (take n m ≡ take n q) × (0 < n) × (n ≤ length q)

back_data_lem :
    (cs : List Chunk)
    → Chunks cs
    → 0 < length (contents_of cs)
    → Chunked (contents_of cs) (back_data cs)
unfolding back_data contents_of
back_data_lem [] v h = absurd (omega arith)
back_data_lem (c ∷ cs) v h = (
  drop c.offset c.p,
  used c,
  refl,
  take-drop-bytes head
      ∙ sym (
          take-append_of_le (used c) (bytes c) (contents_of cs) (omega (arith, size))
          ∙ take-of_length-le (used c) (bytes c) (omega (arith, size))),
  omega (arith, used_lem head, back_full c cs v h),
  omega (arith, size, length-append (bytes c) (contents_of cs)),
)
  where
    head : IsChunk c
    head = Chunks-head c cs v

    size : length (bytes c) ≡ used c
    size = length-bytes head ∙ sym (used_lem head)

-- dataChunk on a well-formed buffer whose queue is not empty leads to the oldest bytes of the queue,
-- and the length that it gives is theirs and not 0.
pub data_chunk_lem : (b : Buffer) (q : List ℕ) → Holds b q → 0 < length q → Chunked q (data_chunk b)
unfolding data_chunk contents
data_chunk_lem b q h some_data =
    subst (λ l. Chunked l (back_data b.chunk_list)) h.held
      (back_data_lem b.chunk_list h.valid.chunks (omega (arith, ap length h.held)))
