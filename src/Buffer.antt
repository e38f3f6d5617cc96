-- ===== src/Buffer.antt =====
-- buffer.h and buffer.cc: the queue of bytes of a connection, as a list of chunks.
-- `chunk_list` stands oldest chunk first: its head is `chunk_list_.back()`, from which data is drained,
-- and its last entry is `chunk_list_.front()`, which is filled. A block that `new` returns is `fresh n`.
-- `new` throws and never returns null, so the tests `p == nullptr` have no branch here.
pub mod Memory
pub mod Valid
pub mod Front
pub mod Push
pub mod Drain
pub mod Read
pub mod Join
pub mod Space
pub mod Refine
mod Tests
use multithread_libevent_exa.Prelude.{
  ℕ, zero, suc, ◌+◌, ◌≡◌, Bool, true, false, List, [], ◌∷◌, ◌++◌, Option, none, some, length, take,
  drop, get_or, add_size, sub_size, min, max, ltb, leb, ◌==◌, if◌then◌else◌,
}
use Memory.{Chunk, new_chunk, bytes, used, room, fill, skip}

pub record Buffer : Type 0 where
  pub size : ℕ
  pub default_chunk_size : ℕ
  pub chunk_list : List Chunk

-- `buffer()`.
unfoldable pub init : Buffer
init = record { size = 0; default_chunk_size = 4096; chunk_list = [] }

-- `chunk_list_.front()`, with the chunks behind it; `none` if there is no chunk.
pub split_last : Chunk → List Chunk → List Chunk × Chunk
split_last c [] = ([], c)
split_last c (d ∷ ds) = let (rest, front) = split_last d ds in (c ∷ rest, front)

pub front? : List Chunk → Option (List Chunk × Chunk)
front? [] = none
front? (c ∷ cs) = some (split_last c cs)

abbrev pub push_front : List Chunk → Chunk → List Chunk
push_front cs c = cs ++ (c ∷ [])

-- The first part of `push`: fill the free space of the front chunk. The list returned is what of the
-- source is left.
pub fill_front : Buffer → List ℕ → Buffer × List ℕ
fill_front b src = elim (front? b.chunk_list) [
  | none ↦ (b, src)
  | some (rest, c) ↦
      let to_copy = min (room c) (length src) in
      if ltb c.end c.cap
      then (
        record b {
          size = add_size b.size to_copy;
          chunk_list = push_front rest (fill c (take to_copy src));
        },
        drop to_copy src,
      )
      else (b, src)
]

-- `drain`'s loop: the chunks that stay, and the count of bytes drained.
pub drain_loop : List Chunk → ℕ → ℕ → List Chunk × ℕ
drain_loop [] len drained = ([], drained)
drain_loop (c ∷ cs) len drained =
    if ltb drained len
    then (if leb (used c) (sub_size len drained)
        then drain_loop cs len (add_size drained (used c))
        else (skip c (sub_size len drained) ∷ cs, len))
    else (c ∷ cs, drained)

unfoldable pub drain : Buffer → ℕ → Buffer × ℕ
drain b len =
    let (cs, drained) = drain_loop b.chunk_list len 0 in
    (record b { size = sub_size b.size drained; chunk_list = cs }, drained)

-- The copying loop of `data`, on fuel: what it has gathered and the chunks that stay. `none` if the
-- fuel runs out, as on an empty chunk at the back, or if `back()` is called with no chunk. A round is
-- split by the loop's tests; `go` stands for the rounds that follow.
module _ (go : List Chunk → List ℕ → Option (List ℕ × List Chunk)) where
  pub gather_copy : Chunk → List Chunk → ℕ → List ℕ → Option (List ℕ × List Chunk)
  gather_copy c rest to_copy out =
      let out' = out ++ take to_copy (drop c.offset c.p) in
      elim (leb (used c) to_copy) [ true ↦ go rest out' | false ↦ go (skip c to_copy ∷ rest) out' ]

  pub gather_round : List Chunk → ℕ → List ℕ → Option (List ℕ × List Chunk)
  gather_round [] len out = none
  gather_round (c ∷ rest) len out = elim (ltb c.offset c.end) [
    | true ↦ gather_copy c rest (min (used c) (sub_size len (length out))) out
    | false ↦ go (c ∷ rest) out
  ]

pub gather : ℕ → ℕ → List Chunk → List ℕ → Option (List ℕ × List Chunk)
gather zero len cs out = none
gather (suc fuel) len cs out = elim (ltb (length out) len) [
  | true ↦ gather_round (gather fuel len) cs len out
  | false ↦ some (out, cs)
]

-- `dataChunk`: the memory from the pointer to the end of its block, and `len`. `none` if there is no
-- chunk, where the source calls `back()` on an empty list.
pub back_data : List Chunk → Option (List ℕ × ℕ)
back_data [] = none
back_data (c ∷ cs) = some (drop c.offset c.p, used c)

unfoldable pub data_chunk : Buffer → Option (List ℕ × ℕ)
unfolding back_data
data_chunk b = back_data b.chunk_list

-- `space`'s loop: empty chunks are removed from the front. Each round removes a chunk, so as many
-- rounds as there are chunks are enough.
pub pop_empty : ℕ → List Chunk → List Chunk
pop_empty zero cs = cs
pop_empty (suc fuel) cs = elim (front? cs) [
  | none ↦ cs
  | some (rest, c) ↦ elim (c.offset == c.end) [ true ↦ pop_empty fuel rest | false ↦ cs ]
]

-- `spaceHaveSeted`; with no chunk the source has no defined behaviour, and the model none either.
unfoldable pub space_have_seted : Buffer → ℕ → Option Buffer
space_have_seted b len = elim (front? b.chunk_list) [
  | none ↦ none
  | some (rest, c) ↦ some (record b {
    size = add_size b.size len;
    chunk_list = push_front rest (record c { end = add_size c.end len });
  })
]

-- `operator[]`: the loop from the back of the list, and its value where no chunk holds the index.
pub at_loop : List Chunk → ℕ → ℕ → ℕ
at_loop [] cur i = 0
at_loop (c ∷ cs) cur i =
    if ltb i (sub_size (add_size cur c.end) c.offset)
    then get_or c.p (add_size (sub_size i cur) c.offset) 0
    else at_loop cs (add_size cur (used c)) i

unfoldable pub at : Buffer → ℕ → ℕ
at b i = at_loop b.chunk_list 0 i

-- `swap`: the buffer and its argument afterwards.
unfoldable pub swap : Buffer → Buffer → Buffer × Buffer
swap b x = (
  record { size = x.size; default_chunk_size = x.default_chunk_size; chunk_list = x.chunk_list },
  record { size = b.size; default_chunk_size = b.default_chunk_size; chunk_list = b.chunk_list },
)

-- `default_chunk_size(size)`.
unfoldable pub set_default_chunk_size : Buffer → ℕ → Buffer
set_default_chunk_size b size = record b { default_chunk_size = size }

module _ (fresh : ℕ → List ℕ) where
  -- The second part of `push`: a new chunk with what is left.
  pub add_chunk : Buffer → List ℕ → Buffer
  add_chunk b left =
      let n =
        if ltb b.default_chunk_size (length left) then length left else b.default_chunk_size in
      record b {
        size = add_size b.size (length left);
        chunk_list = push_front b.chunk_list (fill (new_chunk (fresh n) n) left);
      }

  pub push_rest : Buffer → List ℕ → ℕ → Buffer × ℕ
  push_rest b left len = if length left == 0 then (b, len) else (add_chunk b left, len)

  unfoldable pub push : Buffer → List ℕ → Buffer × ℕ
  push b src = let (b', left) = fill_front b src in push_rest b' left (length src)

  -- `data` past its first test: the pointer is the memory from there to the end of its block, or
  -- `nullptr` as `none`. `none` outside is the loop that does not end, or `back()` with no chunk.
  pub data_at : Buffer → List Chunk → ℕ → Option (Buffer × Option (List ℕ))
  data_at b [] len = none
  data_at b (c ∷ cs) len =
      if leb len (used c)
      then some (b, some (drop c.offset c.p))
      else elim (gather (suc (length (c ∷ cs))) len (c ∷ cs) []) [
        | none ↦ none
        | some (out, rest) ↦
            let joined = fill (new_chunk (fresh len) len) out in
            some (record b { chunk_list = joined ∷ rest }, some joined.p)
      ]

  -- `data`.
  unfoldable pub data_of : Buffer → ℕ → Option (Buffer × Option (List ℕ))
  data_of b len = if ltb b.size len then some (b, none) else data_at b b.chunk_list len

  -- `space`: the free memory that the pointer leads to.
  unfoldable pub space : Buffer → ℕ → Buffer × List ℕ
  space b len =
      let newlen = max len b.default_chunk_size in
      let cs = pop_empty (length b.chunk_list) b.chunk_list in
      let grown = record b { chunk_list = push_front cs (new_chunk (fresh newlen) newlen) } in
      let added = let r : Buffer × List ℕ = (grown, fresh newlen) in r in
      elim (front? b.chunk_list) [
        | none ↦ added
        | some (_, c) ↦ if leb len (room c) then (b, drop c.end c.p) else added
      ]

  -- `spaceChunk`: the same, and the length of the free memory.
  unfoldable pub space_chunk : Buffer → Buffer × List ℕ × ℕ
  space_chunk b =
      let n = b.default_chunk_size in
      let grown = record b { chunk_list = push_front b.chunk_list (new_chunk (fresh n) n) } in
      let added = let r : Buffer × List ℕ × ℕ = (grown, fresh n, n) in r in
      elim (front? b.chunk_list) [
        | none ↦ added
        | some (_, c) ↦ if ltb 0 (room c) then (b, drop c.end c.p, room c) else added
      ]

-- What a caller stores through the pointer of `space` or `spaceChunk`: bytes at the front chunk's end.
unfoldable pub store_space : Buffer → List ℕ → Buffer
unfolding fill
store_space b src = elim (front? b.chunk_list) [
  | none ↦ b
  | some (rest, c) ↦ record b { chunk_list = push_front rest (record c { p = (fill c src).p }) }
]

-- The bytes in the queue, oldest first.
unfoldable pub contents_of : List Chunk → List ℕ
contents_of [] = []
contents_of (c ∷ cs) = bytes c ++ contents_of cs

unfoldable pub contents : Buffer → List ℕ
contents b = contents_of b.chunk_list
