-- ===== src/Buffer/Memory.antt =====
-- buffer.h, `Chunk_`: a block of memory with the part of it that is in use.
use multithread_libevent_exa.Prelude.{
  ℕ, ◌+◌, ◌-◌, ◌≤◌, ◌<◌, ◌≡◌, refl, ap, ◌∙◌, sym, arith, List, [], ◌++◌, length, take, drop, store,
  length-store, take-store, length-take, length-drop, drop-append_of_le, add_size, sub_size,
  add_size_lem, sub_size_lem, size_mod, drop-drop,
}

-- `p` holds the `cap` bytes of the block, of which `p[offset..end)` is data.
pub record Chunk : Type 0 where
  pub p : List ℕ
  pub offset : ℕ
  pub end : ℕ
  pub cap : ℕ

-- `Chunk_(len)`, on a block that `new` has returned.
unfoldable pub new_chunk : List ℕ → ℕ → Chunk
new_chunk block len = record { p = block; offset = 0; end = 0; cap = len }

-- The data of a chunk, oldest byte first.
unfoldable pub bytes : Chunk → List ℕ
bytes c = drop c.offset (take c.end c.p)

-- `ch.end - ch.offset` and `ch.cap - ch.end`.
unfoldable pub used : Chunk → ℕ
used c = sub_size c.end c.offset

unfoldable pub room : Chunk → ℕ
room c = sub_size c.cap c.end

-- `std::copy(src, src + n, ch.p + ch.end); ch.end += n`.
unfoldable pub fill : Chunk → List ℕ → Chunk
fill c src = record c { p = store c.p c.end src; end = add_size c.end (length src) }

-- `ch.offset += n`.
unfoldable pub skip : Chunk → ℕ → Chunk
skip c n = record c { offset = add_size c.offset n }

pub record IsChunk (c : Chunk) : Type 0 where
  pub block : length c.p ≡ c.cap
  pub small : c.cap < size_mod
  pub ordered : c.offset ≤ c.end
  pub inside : c.end ≤ c.cap

pub used_lem : {c : Chunk} → IsChunk c → used c ≡ c.end - c.offset
unfolding used
used_lem {c} v = sub_size_lem c.end c.offset v.ordered (omega arith)

pub room_lem : {c : Chunk} → IsChunk c → room c ≡ c.cap - c.end
unfolding room
room_lem {c} v = sub_size_lem c.cap c.end v.inside v.small

pub length-bytes : {c : Chunk} → IsChunk c → length (bytes c) ≡ c.end - c.offset
unfolding bytes
length-bytes {c} v = omega (arith, length-drop c.offset (take c.end c.p), length-take c.end c.p)

pub new_chunk-IsChunk :
    (block : List ℕ) (len : ℕ) → length block ≡ len → len < size_mod → IsChunk (new_chunk block len)
unfolding new_chunk
new_chunk-IsChunk block len e h = record {
  block = e;
  small = h;
  ordered = omega arith;
  inside = omega arith;
}

pub bytes-new_chunk : (block : List ℕ) (len : ℕ) → bytes (new_chunk block len) ≡ []
unfolding bytes new_chunk
bytes-new_chunk block len = refl

module _ {c : Chunk} (v : IsChunk c) (src : List ℕ) (fits : c.end + length src ≤ c.cap) where
  pub end-fill : (fill c src).end ≡ c.end + length src
  unfolding fill
  end-fill = add_size_lem c.end (length src) (omega arith)

  pub fill-IsChunk : IsChunk (fill c src)
  unfolding fill
  fill-IsChunk = record {
    block = omega (arith, length-store c.p c.end src);
    small = v.small;
    ordered = omega (arith, end-fill);
    inside = omega (arith, end-fill);
  }

  -- Filling a chunk puts the bytes behind its data.
  pub bytes-fill : bytes (fill c src) ≡ bytes c ++ src
  unfolding bytes fill
  bytes-fill =
      ap (drop c.offset)
        (take-store c.p c.end (fill c src).end src end-fill (omega (arith, end-fill)))
      ∙ drop-append_of_le c.offset (take c.end c.p) src (omega (arith, length-take c.end c.p))

module _ {c : Chunk} (v : IsChunk c) (n : ℕ) (fits : c.offset + n ≤ c.end) where
  pub offset-skip : (skip c n).offset ≡ c.offset + n
  unfolding skip
  offset-skip = add_size_lem c.offset n (omega arith)

  pub skip-IsChunk : IsChunk (skip c n)
  unfolding skip
  skip-IsChunk = record {
    block = v.block;
    small = v.small;
    ordered = omega (arith, offset-skip);
    inside = v.inside;
  }

  -- Skipping drops the oldest bytes.
  pub bytes-skip : bytes (skip c n) ≡ drop n (bytes c)
  unfolding bytes skip
  bytes-skip = sym (drop-drop n c.offset (skip c n).offset (take c.end c.p) offset-skip)

-- A new chunk with bytes copied to its start, as `push` and `data` make it.
module _ (block src : List ℕ) (n : ℕ) (size : length block ≡ n) (small : n < size_mod)
    (fits : length src ≤ n) where
  fresh_chunk : IsChunk (new_chunk block n)
  fresh_chunk = new_chunk-IsChunk block n size small

  into : (new_chunk block n).end + length src ≤ (new_chunk block n).cap
  unfolding new_chunk
  into = omega arith

  pub filled_new-IsChunk : IsChunk (fill (new_chunk block n) src)
  filled_new-IsChunk = fill-IsChunk fresh_chunk src into

  pub filled_new_end : (fill (new_chunk block n) src).end ≡ length src
  filled_new_end = end-fill fresh_chunk src into ∙ start
    where
      start : (new_chunk block n).end + length src ≡ length src
      start = unfold new_chunk in omega arith

  pub filled_new_offset : (fill (new_chunk block n) src).offset ≡ 0
  unfolding fill new_chunk
  filled_new_offset = refl

  pub bytes-filled_new : bytes (fill (new_chunk block n) src) ≡ src
  bytes-filled_new = bytes-fill fresh_chunk src into ∙ ap (λ l. l ++ src) (bytes-new_chunk block n)
