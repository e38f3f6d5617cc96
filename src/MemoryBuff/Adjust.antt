-- ===== src/MemoryBuff/Adjust.antt =====
-- ExtNet/memoryBuff/memoryBuff.cpp: each operation where its cursors stand at nodes that are there.
use multithread_libevent_exa.Prelude.{
  store, ℕ, ◌+◌, ◌-◌, ◌%◌, ◌≤◌, ◌<◌, ◌≡◌, ◌≢◌, refl, arith, List, Option, none, some, update, ltb,
  Bool-cases, inl, inr, drop,
}
use multithread_libevent_exa.MemoryBuff.{
  MemoryBuff, ListNode, reset_node, get_read_buff, adjust_read_size, adjust_write_size,
  get_write_buff, store_buff, recycle, set_next, put, ◌>>=◌,
}
use multithread_libevent_exa.MemoryBuff.Cells.{skipped}

pub set_next_lem :
    (b : MemoryBuff) (p : ℕ) (q : Option ℕ) (n : ListNode)
    → b.nodes p ≡ some n
    → set_next b p q ≡ some (put b p (record n { next = q }))
unfolding set_next
set_next_lem b p q n e = rw (e, ◌>>=◌) refl

-- What `AdjustWriteSize` and `AdjustReadSize` do to a node at the cursor.
pub adjust_write_size_lem :
    (b : MemoryBuff) (w len : ℕ) (n : ListNode)
    → b.write ≡ some w
    → b.nodes w ≡ some n
    → n.write_size + len < n.cap
    → adjust_write_size b len ≡ some (put b w (record n { write_size = n.write_size + len }))
unfolding adjust_write_size
adjust_write_size_lem b w len n e f lt = ground arith

pub adjust_write_size_full :
    (b : MemoryBuff) (w len : ℕ) (n : ListNode)
    → b.write ≡ some w
    → b.nodes w ≡ some n
    → n.write_size + len ≡ n.cap
    → adjust_write_size b len
      ≡ some (record (put b w (record n { write_size = n.write_size + len })) {
        free_count = (b.free_count + 65535) % 65536;
        write = n.next;
      })
unfolding adjust_write_size
adjust_write_size_full b w len n e f eq = ground arith

pub get_write_buff_lem :
    (b : MemoryBuff) (w fresh : ℕ) (n : ListNode)
    → b.write ≡ some w
    → b.nodes w ≡ some n
    → n.write_size < n.cap
    → get_write_buff b fresh ≡ some (b, w, n.write_size, n.cap - n.write_size)
unfolding get_write_buff
get_write_buff_lem b w fresh n e f lt = ground arith

pub store_buff_lem :
    (b : MemoryBuff) (p at : ℕ) (src : List ℕ) (n : ListNode)
    → b.nodes p ≡ some n
    → store_buff b p at src ≡ some (put b p (record n { p_data = store n.p_data at src }))
unfolding store_buff
store_buff_lem b p at src n e = rw (e, ◌>>=◌) refl

pub adjust_both :
    (b : MemoryBuff) (r len : ℕ) (n : ListNode)
    → b.read ≡ some r
    → b.write ≡ some r
    → b.nodes r ≡ some n
    → n.read_size + len ≤ n.write_size
    → n.write_size < n.cap
    → adjust_read_size b len ≡ some (put b r (skipped n len))
unfolding adjust_read_size
adjust_both b r len n e f g le lt = ground arith

pub adjust_apart :
    (b : MemoryBuff) (r w len : ℕ) (n : ListNode)
    → r ≢ w
    → b.read ≡ some r
    → b.write ≡ some w
    → b.nodes r ≡ some n
    → n.read_size + len < n.cap
    → adjust_read_size b len ≡ some (put b r (skipped n len))
unfolding adjust_read_size
adjust_apart b r w len n ne e f g lt = ground arith

pub adjust_last :
    (b : MemoryBuff) (r w len : ℕ) (n : ListNode)
    → r ≢ w
    → b.read ≡ some r
    → b.write ≡ some w
    → b.nodes r ≡ some n
    → n.read_size + len ≡ n.cap
    → adjust_read_size b len ≡ recycle (put b r (skipped n len)) r (skipped n len)
unfolding adjust_read_size
adjust_last b r w len n ne e f g eq = ground arith

-- A node that was read to its end, while the tail stands at it: whether it is freed or not, the cursor
-- moves on, and the other nodes stay.
pub recycle_lem :
    (b : MemoryBuff) (r : ℕ) (n : ListNode)
    → b.tail ≡ some r
    → (b' : MemoryBuff) × (recycle b r n ≡ some b')
      × (b'.read ≡ n.next)
      × (b'.write ≡ b.write)
      × ((j : ℕ) → r ≢ j → b'.nodes j ≡ b.nodes j)
unfolding recycle set_next
recycle_lem b r n t = elim (Bool-cases (ltb 5 b.free_count)) [
  | inl more ↦ (
    record (put b r reset_node) { read = n.next; nodes = update b.nodes r none },
    rw more refl,
    refl,
    refl,
    λ j h. ground arith,
  )
  | inr few ↦ (
    record (put (put b r reset_node) r (record reset_node { next = some r })) {
      read = n.next;
      tail = some r;
      free_count = (b.free_count + 1) % 65536;
    },
    ground arith,
    refl,
    refl,
    λ j h. ground arith,
  )
]

pub get_read_some :
    (b : MemoryBuff) (r : ℕ) (n : ListNode)
    → b.read ≡ some r
    → b.nodes r ≡ some n
    → n.read_size < n.write_size
    → get_read_buff b ≡ some (some (drop n.read_size n.p_data, n.write_size - n.read_size))
unfolding get_read_buff
get_read_some b r n e f lt = ground arith

pub get_read_none :
    (b : MemoryBuff) (r : ℕ) (n : ListNode)
    → b.read ≡ some r
    → b.nodes r ≡ some n
    → n.write_size ≤ n.read_size
    → get_read_buff b ≡ some none
unfolding get_read_buff
get_read_none b r n e f le = ground arith
