-- ===== src/Buffer/Push.antt =====
-- buffer.cc, `push`: what is pushed goes behind what the queue holds.
use multithread_libevent_exa.Prelude.{
  ℕ, subst, suc-==-zero, leb, leb→le, leb→lt, All-append, ◌+◌, ◌≤◌, ◌<◌, ◌≡◌, refl, sym, ap, ◌∙◌,
  arith, ◌⊎◌, inl, inr, List, [], ◌∷◌, ◌++◌, length, append-nil, append_assoc, size_mod, All, take,
  drop, Bool-cases, ltb, ltb→lt, ltb→le, add_size_lem, take-append-drop, min, length-take,
  drop-of_length-le, length-append, add_size, if◌then◌else◌,
}
use multithread_libevent_exa.Buffer.{
  Buffer, push_front, contents, contents_of, fill_front, add_chunk, push_rest, push,
}
use multithread_libevent_exa.Buffer.Memory.{
  Chunk, room, fill, new_chunk, IsChunk, room_lem, fill-IsChunk, end-fill, filled_new-IsChunk,
  filled_new_end, filled_new_offset, bytes-filled_new,
}
use multithread_libevent_exa.Buffer.Valid.{
  IsValid, Holds, with-Chunks-IsValid, IsFull, IsLive, Chunks-of, front-cases, contents-push_front,
}
use multithread_libevent_exa.Buffer.Front.{parts, front_full, filled_Holds}

-- What `fill_front` does with `src` in `b`: `b'`, with `left` still to be stored.
pub record Fills (b : Buffer) (src : List ℕ) (b' : Buffer) (left : List ℕ) : Type 0 where
  pub valid : IsValid b'
  pub kept : contents b' ++ left ≡ contents b ++ src
  pub default : b'.default_chunk_size ≡ b.default_chunk_size
  pub full : (left ≡ []) ⊎ All IsFull b'.chunk_list

module _ {b : Buffer} (v : IsValid b) (src : List ℕ) (fits : b.size + length src < size_mod) where
  own : Holds b (contents b)
  own = record { valid = v; held = refl }

  -- The front chunk has room: it takes as much as it can.
  module _ (rest : List Chunk) (c : Chunk) (e : b.chunk_list ≡ push_front rest c)
      (lt : c.end < c.cap) (n : ℕ) (e' : n ≡ min (room c) (length src)) where
    front : All IsFull rest × IsChunk c × IsLive c
    front = parts own rest c e

    taken : length (take n src) ≡ n
    taken = omega (arith, length-take n src)

    into : c.end + length (take n src) ≤ c.cap
    into = omega (arith, taken, room_lem front.1, front.1.inside)

    filled_full : (drop n src ≡ []) ⊎ All IsFull (push_front rest (fill c (take n src)))
    filled_full = elim (Bool-cases (leb (length src) n)) [
      | inl h ↦ inl (drop-of_length-le n src (leb→le (length src) n h))
      | inr h ↦ inr (
          All-append IsFull rest _ front.0
            ((fill-IsChunk front.1 (take n src) into, some_data (leb→lt (length src) n h)), tt))
    ]
      where
        some_data : n < length src → (fill c (take n src)).offset < (fill c (take n src)).end
        some_data h =
            unfold fill in
            omega
              (arith, end-fill front.1 (take n src) into, taken, front.1.ordered, room_lem front.1)

    Fills-room :
        Fills b src
          (record b {
            size = add_size b.size n;
            chunk_list = push_front rest (fill c (take n src));
          })
          (drop n src)
    Fills-room = record {
      valid = filled.valid;
      kept =
          ap (λ l. l ++ drop n src) filled.held
          ∙ append_assoc (contents b) (take n src) (drop n src)
          ∙ ap (◌++◌ (contents b)) (take-append-drop n src);
      default = refl;
      full = filled_full;
    }
      where
        filled :
            Holds
              (record b {
                size = add_size b.size n;
                chunk_list = push_front rest (fill c (take n src));
              })
              (contents b ++ take n src)
        filled =
            subst
              (λ k.
                Holds
                  (record b {
                    size = add_size b.size k;
                    chunk_list = push_front rest (fill c (take n src));
                  })
                  (contents b ++ take n src))
              taken (filled_Holds own rest c e (take n src) into (omega (arith, taken, v.sized)))

  unfilled : All IsFull b.chunk_list → Fills b src b src
  unfilled f = record { valid = v; kept = refl; default = refl; full = inr f }

  fill_front_lem : Fills b src (fill_front b src).0 (fill_front b src).1
  unfolding fill_front
  fill_front_lem = elim (front-cases b.chunk_list) [
    | inl (e, f) ↦ rw (f, fill_front) (unfilled (rw e tt))
    | inr (rest, c, e, f) ↦
        rw (f, fill_front)
          (elim (Bool-cases (ltb c.end c.cap)) [
            | inl lt ↦ rw lt (Fills-room rest c e (ltb→lt c.end c.cap lt) _ refl)
            | inr ge ↦ rw ge (unfilled (front_full own rest c e (ltb→le c.end c.cap ge)))
          ])
  ]

module _ (fresh : ℕ → List ℕ) (length-fresh : (n : ℕ) → length (fresh n) ≡ n) where
  module _ {b : Buffer} (v : IsValid b) (f : All IsFull b.chunk_list) (left : List ℕ) where
    module _ (fits : b.size + length left < size_mod) (some_left : 0 < length left) where
      chunk_size : ℕ
      chunk_size =
          if ltb b.default_chunk_size (length left) then length left else b.default_chunk_size

      chunk_size_bounds : (length left ≤ chunk_size) × (chunk_size < size_mod)
      unfolding chunk_size
      chunk_size_bounds = ground (arith, v.default_small)

      added : Chunk
      added = fill (new_chunk (fresh chunk_size) chunk_size) left

      filled_new : IsChunk added
      unfolding added
      filled_new =
          filled_new-IsChunk (fresh chunk_size) left chunk_size (length-fresh chunk_size)
            chunk_size_bounds.1 chunk_size_bounds.0

      added_full : IsFull added
      unfolding added
      added_full = (
        filled_new,
        omega (
          arith,
          filled_new_end (fresh chunk_size) left chunk_size (length-fresh chunk_size)
              chunk_size_bounds.1 chunk_size_bounds.0,
          filled_new_offset (fresh chunk_size) left chunk_size (length-fresh chunk_size)
              chunk_size_bounds.1 chunk_size_bounds.0,
        ),
      )

      added-contents : contents_of (push_front b.chunk_list added) ≡ contents b ++ left
      unfolding added contents
      added-contents =
          contents-push_front b.chunk_list added
          ∙ ap (◌++◌ (contents b)) (
              bytes-filled_new (fresh chunk_size) left chunk_size (length-fresh chunk_size)
                chunk_size_bounds.1 chunk_size_bounds.0)

      grown_size : add_size b.size (length left) ≡ b.size + length left
      grown_size = add_size_lem b.size (length left) fits

      add_chunk-IsValid : IsValid (add_chunk fresh b left)
      unfolding add_chunk added chunk_size
      add_chunk-IsValid =
          with-Chunks-IsValid _ _ v (Chunks-of b.chunk_list added f added_full.0 (inl added_full.1))
            (omega (
              arith,
              grown_size,
              ap length added-contents,
              length-append (contents b) left,
              v.sized,
            ))
            (omega (arith, grown_size))

      contents-add_chunk : contents (add_chunk fresh b left) ≡ contents b ++ left
      unfolding add_chunk added chunk_size contents
      contents-add_chunk = added-contents

      add_chunk_lem : Holds (add_chunk fresh b left) (contents b ++ left)
      add_chunk_lem = record { valid = add_chunk-IsValid; held = contents-add_chunk }

  -- Nothing is left, or what is left goes to a new chunk.
  finish :
      {b b' : Buffer} (q src left : List ℕ)
      → Holds b q
      → Fills b src b' left
      → length q + length src < size_mod
      → let r = push_rest fresh b' left (length src) in Holds r.0 (q ++ src) × (r.1 ≡ length src)
  unfolding push_rest
  finish {b' = b'} q src [] h g fits = (
    record {
      valid = g.valid;
      held = sym (append-nil (contents b')) ∙ g.kept ∙ ap (λ l. l ++ src) h.held;
    },
    refl,
  )
  finish {b' = b'} q src (x ∷ left) h g fits =
      rw (suc-==-zero (length left))
        (subst (Holds _) whole (add_chunk_lem g.valid full (x ∷ left) small (omega arith)), refl)
    where
      whole : contents b' ++ x ∷ left ≡ q ++ src
      whole = g.kept ∙ ap (λ l. l ++ src) h.held

      full : All IsFull b'.chunk_list
      full = elim g.full [ inl e ↦ cc | inr f ↦ f ]

      small : b'.size + length (x ∷ left) < size_mod
      small = omega (
        arith,
        g.valid.sized,
        ap length whole,
        length-append (contents b') (x ∷ left),
        length-append q src,
      )

  -- push on a well-formed buffer that holds a queue, when the queue and the new bytes are together
  -- below 2^64, leaves a well-formed buffer that holds the queue with the new bytes behind it, and
  -- returns how many they are.
  pub push_lem :
      (b : Buffer) (q src : List ℕ)
      → Holds b q
      → length q + length src < size_mod
      → Holds (push fresh b src).0 (q ++ src) × ((push fresh b src).1 ≡ length src)
  unfolding push
  push_lem b q src h fits =
      finish q src (fill_front b src).1 h
        (fill_front_lem h.valid src (omega (arith, h.valid.sized, ap length h.held))) fits
