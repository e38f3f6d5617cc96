-- ===== src/MemoryBuff/Write.antt =====
-- ExtNet/memoryBuff: what a caller stores in the memory that `GetWriteBuff` offers, and then announces by
-- `AdjustWriteSize`, goes behind the bytes of the buffer.
use multithread_libevent_exa.Prelude.{
  ℕ, ◌*◌, ◌+◌, ◌-◌, ◌%◌, ◌≤◌, ◌<◌, ◌≡◌, ◌≢◌, refl, sym, ap, subst, ◌∙◌, arith, List, ◌++◌, Option,
  none, some, length, append_assoc, append-nil, ltb, ltb→lt, ltb→le, Bool-cases, ◌⊎◌, inl, inr,
  store,
}
use multithread_libevent_exa.MemoryBuff.{
  MemoryBuff, ListNode, list_node_data_size, get_write_buff, store_buff, adjust_write_size, put,
}
use multithread_libevent_exa.MemoryBuff.Cells.{
  bytes, IsNode, stored, stored-IsNode, bytes-stored, bytes-reset_node, reset_node-IsNode,
  write_size-reset_node, read_size-reset_node, next-reset_node,
}
use multithread_libevent_exa.MemoryBuff.Adjust.{
  adjust_write_size_lem, adjust_write_size_full, get_write_buff_lem, store_buff_lem,
}
use multithread_libevent_exa.MemoryBuff.Phases.{
  BothFirst, Apart, BothSecond, Holds, both_first, apart, both_second,
}

-- The client's part of a write: the bytes go to the memory, and their number is announced.
unfoldable pub store_and_adjust : MemoryBuff → ℕ → ℕ → List ℕ → Option MemoryBuff
store_and_adjust b p at src = elim (store_buff b p at src) [
  | none ↦ none
  | some b' ↦ adjust_write_size b' (length src)
]

store_and_adjust_of :
    (b b' : MemoryBuff) (p at : ℕ) (src : List ℕ)
    → store_buff b p at src ≡ some b'
    → store_and_adjust b p at src ≡ adjust_write_size b' (length src)
unfolding store_and_adjust
store_and_adjust_of b b' p at src e = rw (e, store_and_adjust) refl

-- A write at a node that stays open.
store_open :
    (b : MemoryBuff) (w : ℕ) (n : ListNode) (src : List ℕ)
    → b.write ≡ some w
    → b.nodes w ≡ some n
    → n.write_size + length src < n.cap
    → (b' : MemoryBuff) × (store_and_adjust b w n.write_size src ≡ some b')
      × (b'.read ≡ b.read)
      × (b'.write ≡ b.write)
      × (b'.tail ≡ b.tail)
      × (b'.nodes w ≡ some (stored n src))
      × ((j : ℕ) → w ≢ j → b'.nodes j ≡ b.nodes j)
store_open b w n src e f lt =
    let b1 = put b w (record n { p_data = store n.p_data n.write_size src }) in
    (
      put b1 w (stored n src),
      store_and_adjust_of b b1 w n.write_size src (store_buff_lem b w n.write_size src n f)
          ∙ (adjust_write_size_lem b1 w (length src)
              (record n { p_data = store n.p_data n.write_size src }) e (ground arith) lt),
      refl,
      refl,
      refl,
      ground arith,
      λ j h. ground arith,
    )

-- A write that fills the node.
pub store_full :
    (b : MemoryBuff) (w : ℕ) (n : ListNode) (src : List ℕ)
    → b.write ≡ some w
    → b.nodes w ≡ some n
    → n.write_size + length src ≡ n.cap
    → (b' : MemoryBuff) × (store_and_adjust b w n.write_size src ≡ some b')
      × (b'.read ≡ b.read)
      × (b'.write ≡ n.next)
      × (b'.tail ≡ b.tail)
      × (b'.nodes w ≡ some (stored n src))
      × ((j : ℕ) → w ≢ j → b'.nodes j ≡ b.nodes j)
store_full b w n src e f eq =
    let n1 = record n { p_data = store n.p_data n.write_size src } in
    let b1 = put b w n1 in
    (
      record (put b1 w (stored n src)) {
        free_count = (b.free_count + 65535) % 65536;
        write = n.next;
      },
      store_and_adjust_of b b1 w n.write_size src (store_buff_lem b w n.write_size src n f)
          ∙ (adjust_write_size_full b1 w (length src) n1 e (ground arith) eq),
      refl,
      refl,
      refl,
      ground arith,
      λ j h. ground arith,
    )

module _ (a c fresh : ℕ) (ne : a ≢ c) where
  -- What `GetWriteBuff` offers on a buffer that holds `q`, after `k` bytes in all.
  pub record Room (b : MemoryBuff) (q : List ℕ) (k : ℕ) : Type 0 where
    pub p : ℕ
    pub at : ℕ
    pub len : ℕ
    pub offered : get_write_buff b fresh ≡ some (b, p, at, len)
    pub some_room : 0 < len
    pub to_end : (k + len ≡ list_node_data_size) ⊎ (k + len ≡ 2 * list_node_data_size)
    pub fill :
        (src : List ℕ)
        → length src ≤ len
        → k + length src < 2 * list_node_data_size
        → (b' : MemoryBuff) × (store_and_adjust b p at src ≡ some b')
          × Holds a c b' (q ++ src) (k + length src)

  fill-BothFirst :
      (b : MemoryBuff) (q : List ℕ) (k : ℕ) (src : List ℕ) (h : BothFirst a c b q k)
      → length src ≤ h.n.cap - h.n.write_size
      → (b' : MemoryBuff) × (store_and_adjust b a h.n.write_size src ≡ some b')
        × Holds a c b' (q ++ src) (k + length src)
  fill-BothFirst b q k src h le =
      elim (Bool-cases (ltb (h.n.write_size + length src) list_node_data_size)) [
        | inl lt ↦ stays_open (ltb→lt _ _ lt)
        | inr ge ↦ is_full (omega (arith, ltb→le _ _ ge, h.valid.capacity))
      ]
    where
      fits : h.n.write_size + length src ≤ list_node_data_size
      fits = omega (arith, h.valid.capacity, h.open_end)

      held : bytes (stored h.n src) ≡ q ++ src
      held = bytes-stored h.n src h.valid fits ∙ ap (λ l. l ++ src) h.held

      stays_open :
          h.n.write_size + length src < list_node_data_size
          → (b' : MemoryBuff) × (store_and_adjust b a h.n.write_size src ≡ some b')
            × Holds a c b' (q ++ src) (k + length src)
      stays_open lt =
          let (b', r, rd, wr, tl, new, old) =
            store_open b a h.n src h.writer h.first (omega (arith, h.valid.capacity)) in
          (
            b',
            r,
            both_first (record {
              n = stored h.n src;
              m = h.m;
              reader = rd ∙ h.reader;
              writer = wr ∙ h.writer;
              tail_first = tl ∙ h.tail_first;
              first = new;
              second = old c ne ∙ h.second;
              linked = h.linked;
              last = h.last;
              valid = stored-IsNode h.n src h.valid fits;
              open_end = lt;
              held = held;
              total = omega (arith, h.total);
            }),
          )

      is_full :
          h.n.write_size + length src ≡ list_node_data_size
          → (b' : MemoryBuff) × (store_and_adjust b a h.n.write_size src ≡ some b')
            × Holds a c b' (q ++ src) (k + length src)
      is_full eq =
          let (b', r, rd, wr, tl, new, old) =
            store_full b a h.n src h.writer h.first (omega (arith, h.valid.capacity)) in
          let empty : h.m.write_size ≡ 0 = ap (λ x. x.write_size) h.last ∙ write_size-reset_node in
          (
            b',
            r,
            apart (record {
              n = stored h.n src;
              m = h.m;
              reader = rd ∙ h.reader;
              writer = wr ∙ h.linked;
              tail_first = tl ∙ h.tail_first;
              first = new;
              second = old c ne ∙ h.second;
              linked = h.linked;
              last = ap (λ x. x.next) h.last ∙ next-reset_node;
              valid = stored-IsNode h.n src h.valid fits;
              full = eq;
              unread = omega (arith, h.valid.ordered, h.open_end);
              valid_last = subst IsNode (sym h.last) reset_node-IsNode;
              open_end = omega (arith, empty);
              start = ap (λ x. x.read_size) h.last ∙ read_size-reset_node;
              held =
                  ap (λ x. bytes (stored h.n src) ++ bytes x) h.last
                  ∙ ap (λ l. bytes (stored h.n src) ++ l) bytes-reset_node
                  ∙ append-nil (bytes (stored h.n src))
                  ∙ held;
              total = omega (arith, h.total, empty);
            }),
          )

  fill_second :
      (b : MemoryBuff) (k : ℕ) (m : ListNode) (src : List ℕ)
      → b.write ≡ some c
      → b.nodes c ≡ some m
      → IsNode m
      → list_node_data_size + m.write_size ≡ k
      → k + length src < 2 * list_node_data_size
      → (b' : MemoryBuff) × (store_and_adjust b c m.write_size src ≡ some b')
        × (b'.read ≡ b.read)
        × (b'.write ≡ some c)
        × (b'.tail ≡ b.tail)
        × (b'.nodes c ≡ some (stored m src))
        × (b'.nodes a ≡ b.nodes a)
  fill_second b k m src e f v t small =
      let (b', r, rd, wr, tl, new, old) = store_open b c m src e f (omega (arith, v.capacity, t)) in
      (b', r, rd, wr ∙ e, tl, new, old a (λ x. ne (sym x)))

  Room-BothFirst : (b : MemoryBuff) (q : List ℕ) (k : ℕ) → BothFirst a c b q k → Room b q k
  Room-BothFirst b q k h = record {
    p = a;
    at = h.n.write_size;
    len = h.n.cap - h.n.write_size;
    offered =
        get_write_buff_lem b a fresh h.n h.writer h.first
          (omega (arith, h.valid.capacity, h.open_end));
    some_room = omega (arith, h.valid.capacity, h.open_end);
    to_end = inl (omega (arith, h.valid.capacity, h.total, h.valid.inside));
    fill = λ src le small. fill-BothFirst b q k src h le;
  }

  Room-Apart : (b : MemoryBuff) (q : List ℕ) (k : ℕ) → Apart a c b q k → Room b q k
  Room-Apart b q k h = record {
    p = c;
    at = h.m.write_size;
    len = h.m.cap - h.m.write_size;
    offered =
        get_write_buff_lem b c fresh h.m h.writer h.second
          (omega (arith, h.valid_last.capacity, h.open_end));
    some_room = omega (arith, h.valid_last.capacity, h.open_end);
    to_end = inr (omega (arith, h.valid_last.capacity, h.total, h.valid_last.inside));
    fill = λ src le small.
        let (b', r, rd, wr, tl, new, old) =
          fill_second b k h.m src h.writer h.second h.valid_last h.total small in
        let fits : h.m.write_size + length src ≤ list_node_data_size = omega (arith, h.total) in
        (
          b',
          r,
          apart (record {
            n = h.n;
            m = stored h.m src;
            reader = rd ∙ h.reader;
            writer = wr;
            tail_first = tl ∙ h.tail_first;
            first = old ∙ h.first;
            second = new;
            linked = h.linked;
            last = h.last;
            valid = h.valid;
            full = h.full;
            unread = h.unread;
            valid_last = stored-IsNode h.m src h.valid_last fits;
            open_end = omega (arith, h.total);
            start = h.start;
            held =
                ap (λ l. bytes h.n ++ l) (bytes-stored h.m src h.valid_last fits)
                ∙ sym (append_assoc (bytes h.n) (bytes h.m) src)
                ∙ ap (λ l. l ++ src) h.held;
            total = omega (arith, h.total);
          }),
        );
  }

  Room-BothSecond : (b : MemoryBuff) (q : List ℕ) (k : ℕ) → BothSecond a c b q k → Room b q k
  Room-BothSecond b q k h = record {
    p = c;
    at = h.m.write_size;
    len = h.m.cap - h.m.write_size;
    offered =
        get_write_buff_lem b c fresh h.m h.writer h.second
          (omega (arith, h.valid_last.capacity, h.open_end));
    some_room = omega (arith, h.valid_last.capacity, h.open_end);
    to_end = inr (omega (arith, h.valid_last.capacity, h.total, h.valid_last.inside));
    fill = λ src le small.
        let (b', r, rd, wr, tl, new, old) =
          fill_second b k h.m src h.writer h.second h.valid_last h.total small in
        let fits : h.m.write_size + length src ≤ list_node_data_size = omega (arith, h.total) in
        (
          b',
          r,
          both_second (record {
            m = stored h.m src;
            reader = rd ∙ h.reader;
            writer = wr;
            second = new;
            last = h.last;
            valid_last = stored-IsNode h.m src h.valid_last fits;
            open_end = omega (arith, h.total);
            held = bytes-stored h.m src h.valid_last fits ∙ ap (λ l. l ++ src) h.held;
            total = omega (arith, h.total);
          }),
        );
  }

  -- On a buffer of two nodes in one of the states Holds, GetWriteBuff allocates nothing and leads to
  -- free memory that reaches to the end of a node, of a length that is not 0. What is stored there and
  -- announced by AdjustWriteSize, if it is no longer than that and fewer than 8192 bytes were stored
  -- in all, stands behind the bytes of the buffer, which is again in such a state.
  pub get_write_buff-Room : (b : MemoryBuff) (q : List ℕ) (k : ℕ) → Holds a c b q k → Room b q k
  get_write_buff-Room b q k (both_first h) = Room-BothFirst b q k h
  get_write_buff-Room b q k (apart h) = Room-Apart b q k h
  get_write_buff-Room b q k (both_second h) = Room-BothSecond b q k h
