-- ===== src/MemoryBuff/Read.antt =====
-- ExtNet/memoryBuff: `GetReadBuff` leads to the oldest bytes, and `AdjustReadSize` removes them.
use multithread_libevent_exa.Prelude.{
  ℕ, ◌+◌, ◌-◌, ◌≤◌, ◌<◌, ◌≡◌, ◌≢◌, refl, sym, ap, ◌∙◌, arith, List, [], ◌∷◌, ◌++◌, none, some,
  length, update_ne, ltb, ltb→lt, ltb→le, Bool-cases, inl, inr, take, drop, length-append,
  take-append_of_le, take-of_length-le, drop-append_of_le, drop-append_past, drop-take,
}
use multithread_libevent_exa.MemoryBuff.{
  MemoryBuff, ListNode, list_node_data_size, get_read_buff, adjust_read_size, put,
}
use multithread_libevent_exa.MemoryBuff.Cells.{
  bytes, IsNode, skipped, skipped-IsNode, bytes-skipped, length-bytes,
}
use multithread_libevent_exa.MemoryBuff.Adjust.{
  adjust_both, adjust_apart, adjust_last, recycle_lem, get_read_some, get_read_none,
}
use multithread_libevent_exa.MemoryBuff.Phases.{
  BothFirst, Apart, BothSecond, Holds, both_first, apart, both_second,
}

-- What the caller gets of a buffer that holds `q`: a null pointer if there is nothing; or memory that
-- begins with the oldest bytes, of which any number can then be removed.
pub data Readable (a c : ℕ) (b : MemoryBuff) (q : List ℕ) (k : ℕ) : Type 0 where
  nothing : get_read_buff b ≡ some none → q ≡ [] → Readable a c b q k
  some_bytes :
      (m : List ℕ) (len : ℕ)
      → get_read_buff b ≡ some (some (m, len))
      → 0 < len
      → len ≤ length q
      → take len m ≡ take len q
      → ((n : ℕ)
          → n ≤ len
          → (b' : MemoryBuff) × (adjust_read_size b n ≡ some b') × Holds a c b' (drop n q) k)
      → Readable a c b q k

-- The memory behind the pointer, as far as the node was written.
pointed :
    (n : ListNode)
    → IsNode n
    → take (n.write_size - n.read_size) (drop n.read_size n.p_data) ≡ bytes n
unfolding bytes
pointed n v = sym (drop-take n.read_size n.write_size n.p_data v.ordered)

-- A single node with data: all of its bytes.
pointed_all :
    (n : ListNode) (q : List ℕ)
    → IsNode n
    → bytes n ≡ q
    → (n.write_size - n.read_size ≤ length q)
      × (take (n.write_size - n.read_size) (drop n.read_size n.p_data)
          ≡ take (n.write_size - n.read_size) q)
pointed_all n q v h =
    let e : length q ≡ n.write_size - n.read_size = sym (ap length h) ∙ length-bytes n v in
    (
      omega (arith, e),
      pointed n v ∙ h ∙ sym (take-of_length-le (n.write_size - n.read_size) q (omega (arith, e))),
    )

no_bytes :
    (n : ListNode) (q : List ℕ) → IsNode n → bytes n ≡ q → n.write_size ≤ n.read_size → q ≡ []
no_bytes n q v h le = nil q (sym (ap length h) ∙ length-bytes n v ∙ omega arith)
  where
    nil : (l : List ℕ) → length l ≡ 0 → l ≡ []
    nil [] e = refl
    nil (x ∷ l) e = absurd (omega arith)

module _ (a c : ℕ) (ne : a ≢ c) (b : MemoryBuff) (q : List ℕ) (k : ℕ) where
  read-BothFirst : BothFirst a c b q k → Readable a c b q k
  read-BothFirst h = elim (Bool-cases (ltb h.n.read_size h.n.write_size)) [
    | inl lt ↦
        let (short, same_bytes) = pointed_all h.n q h.valid h.held in
        some_bytes (drop h.n.read_size h.n.p_data) (h.n.write_size - h.n.read_size)
          (get_read_some b a h.n h.reader h.first (ltb→lt _ _ lt)) (omega (arith, ltb→lt _ _ lt))
          short same_bytes (skip (ltb→lt _ _ lt))
    | inr ge ↦
        nothing (get_read_none b a h.n h.reader h.first (ltb→le _ _ ge))
          (no_bytes h.n q h.valid h.held (ltb→le _ _ ge))
  ]
    where
      skip :
          h.n.read_size < h.n.write_size
          → (len : ℕ) → len ≤ h.n.write_size - h.n.read_size
          → (b' : MemoryBuff) × (adjust_read_size b len ≡ some b') × Holds a c b' (drop len q) k
      skip lt len le =
          let fits : h.n.read_size + len ≤ h.n.write_size = omega arith in
          (
            put b a (skipped h.n len),
            adjust_both b a len h.n h.reader h.writer h.first fits
                (omega (arith, h.valid.capacity, h.open_end)),
            both_first (record {
              n = skipped h.n len;
              m = h.m;
              reader = h.reader;
              writer = h.writer;
              tail_first = h.tail_first;
              first = ground arith;
              second = update_ne b.nodes a c (some (skipped h.n len)) ne ∙ h.second;
              linked = h.linked;
              last = h.last;
              valid = skipped-IsNode h.n len h.valid fits;
              open_end = h.open_end;
              held = bytes-skipped h.n len h.valid fits ∙ ap (drop len) h.held;
              total = h.total;
            }),
          )

  read-BothSecond : BothSecond a c b q k → Readable a c b q k
  read-BothSecond h = elim (Bool-cases (ltb h.m.read_size h.m.write_size)) [
    | inl lt ↦
        let (short, same_bytes) = pointed_all h.m q h.valid_last h.held in
        some_bytes (drop h.m.read_size h.m.p_data) (h.m.write_size - h.m.read_size)
          (get_read_some b c h.m h.reader h.second (ltb→lt _ _ lt)) (omega (arith, ltb→lt _ _ lt))
          short same_bytes (skip (ltb→lt _ _ lt))
    | inr ge ↦
        nothing (get_read_none b c h.m h.reader h.second (ltb→le _ _ ge))
          (no_bytes h.m q h.valid_last h.held (ltb→le _ _ ge))
  ]
    where
      skip :
          h.m.read_size < h.m.write_size
          → (len : ℕ) → len ≤ h.m.write_size - h.m.read_size
          → (b' : MemoryBuff) × (adjust_read_size b len ≡ some b') × Holds a c b' (drop len q) k
      skip lt len le =
          let fits : h.m.read_size + len ≤ h.m.write_size = omega arith in
          (
            put b c (skipped h.m len),
            adjust_both b c len h.m h.reader h.writer h.second fits
                (omega (arith, h.valid_last.capacity, h.open_end)),
            both_second (record {
              m = skipped h.m len;
              reader = h.reader;
              writer = h.writer;
              second = ground arith;
              last = h.last;
              valid_last = skipped-IsNode h.m len h.valid_last fits;
              open_end = h.open_end;
              held = bytes-skipped h.m len h.valid_last fits ∙ ap (drop len) h.held;
              total = h.total;
            }),
          )

  read-Apart : Apart a c b q k → Readable a c b q k
  read-Apart h =
      some_bytes (drop h.n.read_size h.n.p_data) (h.n.write_size - h.n.read_size)
        (get_read_some b a h.n h.reader h.first (omega (arith, h.full, h.unread)))
        (omega (arith, h.full, h.unread)) (omega (arith, lengths, whole))
        (pointed h.n h.valid
          ∙ sym (
              ap (take (h.n.write_size - h.n.read_size)) (sym h.held)
              ∙ take-append_of_le (h.n.write_size - h.n.read_size) (bytes h.n) (bytes h.m)
                  (omega (arith, lengths))
              ∙ take-of_length-le (h.n.write_size - h.n.read_size) (bytes h.n)
                  (omega (arith, lengths))))
        (λ len le. elim (Bool-cases (ltb (h.n.read_size + len) list_node_data_size)) [
          | inl lt ↦ skip len le (ltb→lt _ _ lt)
          | inr ge ↦ skip_all len (omega (arith, ltb→le _ _ ge, h.full, h.valid.ordered))
        ])
    where
      lengths : length (bytes h.n) ≡ h.n.write_size - h.n.read_size
      lengths = length-bytes h.n h.valid

      whole : length q ≡ length (bytes h.n) + length (bytes h.m)
      whole = ap length (sym h.held) ∙ length-append (bytes h.n) (bytes h.m)

      skip :
          (len : ℕ)
          → len ≤ h.n.write_size - h.n.read_size
          → h.n.read_size + len < list_node_data_size
          → (b' : MemoryBuff) × (adjust_read_size b len ≡ some b') × Holds a c b' (drop len q) k
      skip len le lt =
          let fits : h.n.read_size + len ≤ h.n.write_size = omega (arith, h.full) in
          (
            put b a (skipped h.n len),
            adjust_apart b a c len h.n ne h.reader h.writer h.first
                (omega (arith, h.valid.capacity)),
            apart (record {
              n = skipped h.n len;
              m = h.m;
              reader = h.reader;
              writer = h.writer;
              tail_first = h.tail_first;
              first = ground arith;
              second = update_ne b.nodes a c (some (skipped h.n len)) ne ∙ h.second;
              linked = h.linked;
              last = h.last;
              valid = skipped-IsNode h.n len h.valid fits;
              full = h.full;
              unread = lt;
              valid_last = h.valid_last;
              open_end = h.open_end;
              start = h.start;
              held =
                  ap (λ l. l ++ bytes h.m) (bytes-skipped h.n len h.valid fits)
                  ∙ sym (drop-append_of_le len (bytes h.n) (bytes h.m) (omega (arith, lengths)))
                  ∙ ap (drop len) h.held;
              total = h.total;
            }),
          )

      skip_all :
          (len : ℕ)
          → h.n.read_size + len ≡ list_node_data_size
          → (b' : MemoryBuff) × (adjust_read_size b len ≡ some b') × Holds a c b' (drop len q) k
      skip_all len eq =
          let (b', r, rd, wr, old) =
            recycle_lem (put b a (skipped h.n len)) a (skipped h.n len) h.tail_first in
          (
            b',
            adjust_last b a c len h.n ne h.reader h.writer h.first (eq ∙ sym h.valid.capacity) ∙ r,
            both_second (record {
              m = h.m;
              reader = rd ∙ h.linked;
              writer = wr ∙ h.writer;
              second = old c ne ∙ update_ne b.nodes a c (some (skipped h.n len)) ne ∙ h.second;
              last = h.last;
              valid_last = h.valid_last;
              open_end = h.open_end;
              held =
                  sym (
                    drop-append_past len 0 (bytes h.n) (bytes h.m) (omega (arith, lengths, h.full)))
                  ∙ ap (drop len) h.held;
              total = h.total;
            }),
          )

  -- On a buffer of two nodes in one of the states Holds, GetReadBuff gives a null pointer only if the
  -- buffer holds nothing; otherwise it leads to memory that begins with the oldest bytes, at least one
  -- of them, with their number, and when any part of that number is announced by AdjustReadSize,
  -- exactly those bytes are removed, and the buffer is again in such a state.
  pub get_read_buff-Readable : Holds a c b q k → Readable a c b q k
  get_read_buff-Readable (both_first h) = read-BothFirst h
  get_read_buff-Readable (apart h) = read-Apart h
  get_read_buff-Readable (both_second h) = read-BothSecond h
