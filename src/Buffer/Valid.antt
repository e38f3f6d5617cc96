-- ===== src/Buffer/Valid.antt =====
-- The representation invariant of buffer.h's `buffer`, and its chunk list taken apart at either end.
use multithread_libevent_exa.Prelude.{
  ℕ, ◌<◌, ◌≡◌, refl, ap, ◌∙◌, arith, ◌⊎◌, inl, inr, List, [], ◌∷◌, ◌++◌, none, some, length,
  append-nil, append_assoc, size_mod, All,
}
use multithread_libevent_exa.Buffer.{
  Buffer, init, split_last, front?, push_front, contents, contents_of,
}
use multithread_libevent_exa.Buffer.Memory.{Chunk, bytes, IsChunk}

-- A chunk with data.
abbrev pub IsFull : Chunk → Type 0
IsFull c = IsChunk c × (c.offset < c.end)

-- A chunk with data or with free space.
abbrev pub IsLive : Chunk → Type 0
IsLive c = (c.offset < c.end) ⊎ (c.end < c.cap)

-- Only the front chunk may have no data.
abbrev pub Chunks : List Chunk → Type 0
Chunks [] = Unit {0}
Chunks (c ∷ []) = IsChunk c × IsLive c
Chunks (c ∷ d ∷ ds) = IsChunk c × (c.offset < c.end) × Chunks (d ∷ ds)

pub record IsValid (b : Buffer) : Type 0 where
  pub chunks : Chunks b.chunk_list
  pub sized : b.size ≡ length (contents b)
  pub small : b.size < size_mod
  pub positive : 0 < b.default_chunk_size
  pub default_small : b.default_chunk_size < size_mod

pub init-IsValid : IsValid init
unfolding init contents contents_of
init-IsValid = omega arith

pub Chunks-of :
    (rest : List Chunk) (c : Chunk)
    → All IsFull rest
    → IsChunk c
    → IsLive c
    → Chunks (push_front rest c)
Chunks-of [] c f v l = (v, l)
Chunks-of (d ∷ []) c f v l = (f.0.0, f.0.1, (v, l))
Chunks-of (d ∷ e ∷ rest) c f v l = (f.0.0, f.0.1, Chunks-of (e ∷ rest) c f.1 v l)

pub Chunks-rest :
    (rest : List Chunk) (c : Chunk)
    → Chunks (push_front rest c)
    → All IsFull rest × IsChunk c × IsLive c
Chunks-rest [] c h = (tt, h.0, h.1)
Chunks-rest (d ∷ []) c h = (((h.0, h.1), tt), h.2.0, h.2.1)
Chunks-rest (d ∷ e ∷ rest) c h =
    let ih = Chunks-rest (e ∷ rest) c h.2 in (((h.0, h.1), ih.0), ih.1, ih.2)

pub Chunks-tail : (c : Chunk) (cs : List Chunk) → Chunks (c ∷ cs) → Chunks cs
Chunks-tail c [] h = tt
Chunks-tail c (d ∷ ds) h = h.2

pub Chunks-head : (c : Chunk) (cs : List Chunk) → Chunks (c ∷ cs) → IsChunk c
Chunks-head c [] h = h.0
Chunks-head c (d ∷ ds) h = h.0

-- A chunk with data may take the place of the one at the back.
pub Chunks-cons : (c : Chunk) (cs : List Chunk) → IsFull c → Chunks cs → Chunks (c ∷ cs)
Chunks-cons c [] f h = (f.0, inl f.1)
Chunks-cons c (d ∷ ds) f h = (f.0, f.1, h)

pub Chunks-full : (cs : List Chunk) → All IsFull cs → Chunks cs
Chunks-full [] f = tt
Chunks-full (c ∷ cs) f = Chunks-cons c cs f.0 (Chunks-full cs f.1)

split_last_lem :
    (c : Chunk) (cs : List Chunk) → c ∷ cs ≡ push_front (split_last c cs).0 (split_last c cs).1
unfolding split_last
split_last_lem c [] = refl
split_last_lem c (d ∷ ds) = ap (◌∷◌ c) (split_last_lem d ds)

-- `front?` splits the list off its last entry, and fails on the empty list only.
pub front-cases :
    (cs : List Chunk)
    → ((cs ≡ []) × (front? cs ≡ none))
      ⊎ ((rest : List Chunk) × (c : Chunk) × (cs ≡ push_front rest c)
          × (front? cs ≡ some (rest, c)))
unfolding front?
front-cases [] = inl (refl, refl)
front-cases (c ∷ cs) = inr ((split_last c cs).0, (split_last c cs).1, split_last_lem c cs, refl)

split_last-push : (c d : Chunk) (cs : List Chunk) → split_last d (push_front cs c) ≡ (d ∷ cs, c)
unfolding split_last
split_last-push c d [] = refl
split_last-push c d (e ∷ cs) = rw (split_last-push c e cs)

pub front?-push_front :
    (rest : List Chunk) (c : Chunk) → front? (push_front rest c) ≡ some (rest, c)
unfolding front? split_last
front?-push_front [] c = refl
front?-push_front (d ∷ rest) c = ap some (split_last-push c d rest)

pub contents-append :
    (cs ds : List Chunk) → contents_of (cs ++ ds) ≡ contents_of cs ++ contents_of ds
unfolding contents_of
contents-append [] ds = refl
contents-append (c ∷ cs) ds = simp (contents-append cs ds, append_assoc)

pub contents-push_front :
    (rest : List Chunk) (c : Chunk) → contents_of (push_front rest c) ≡ contents_of rest ++ bytes c
unfolding contents_of
contents-push_front rest c =
    contents-append rest (c ∷ []) ∙ ap (◌++◌ (contents_of rest)) (append-nil (bytes c))

-- The buffer is in order and holds the queue of bytes `q`: what relates it to its specification.
pub record Holds (b : Buffer) (q : List ℕ) : Type 0 where
  pub valid : IsValid b
  pub held : contents b ≡ q

pub init-Holds : Holds init []
unfolding init contents contents_of
init-Holds = record { valid = init-IsValid; held = refl }

-- It is enough to count the bytes.
pub with-Chunks-IsValid :
    {b : Buffer} (cs : List Chunk) (n : ℕ)
    → IsValid b
    → Chunks cs
    → n ≡ length (contents_of cs)
    → n < size_mod
    → IsValid (record b { chunk_list = cs; size = n })
unfolding contents
with-Chunks-IsValid cs n v h e s = record {
  chunks = h;
  sized = e;
  small = s;
  positive = v.positive;
  default_small = v.default_small;
}
