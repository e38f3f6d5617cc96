-- ===== src/MemoryBuff.antt =====
-- ExtNet/memoryBuff: `ListNode` of ListEx.h and `memoryBuff`, a list of nodes with three cursors into it.
-- Nodes are objects at addresses, and a null pointer is `none`. `none` as the result of an operation is
-- an access through a null or freed pointer, or an assertion that fails. The block of a node that is reset
-- is not given back; the addresses that `new` returns are arguments.
pub mod Cells
pub mod Adjust
pub mod Phases
pub mod Write
pub mod Read
mod Tests
use multithread_libevent_exa.Prelude.{
  ℕ, zero, suc, ◌+◌, ◌-◌, ◌%◌, ◌^◌, Bool, true, false, List, [], ◌∷◌, Option, none, some, replicate,
  store, drop, take, ltb, leb, ◌==◌, if◌then◌else◌, update,
}

-- `ListNode`.
pub record ListNode : Type 0 where
  pub p_data : List ℕ
  pub cap : ℕ
  pub write_size : ℕ
  pub read_size : ℕ
  pub next : Option ℕ

abbrev pub list_node_data_size : ℕ
list_node_data_size = 4096

-- `ResetNode`, which is also what the constructor does.
unfoldable pub reset_node : ListNode
reset_node = record {
  p_data = replicate list_node_data_size 0;
  cap = list_node_data_size;
  write_size = 0;
  read_size = 0;
  next = none;
}

-- `memoryBuff`, with the nodes that it has allocated.
pub record MemoryBuff : Type 0 where
  pub tail : Option ℕ
  pub read : Option ℕ
  pub write : Option ℕ
  pub free_count : ℕ
  pub nodes : ℕ → Option ListNode

infixl 5 ◌>>=◌
abbrev pub ◌>>=◌ {ℓ κ} : {A : Type ℓ} {B : Type κ} → Option A → (A → Option B) → Option B
none >>= f = none
some a >>= f = f a

-- `*p`, and `*p = n`.
abbrev pub load : MemoryBuff → ℕ → Option ListNode
load b p = b.nodes p

abbrev pub put : MemoryBuff → ℕ → ListNode → MemoryBuff
put b p n = record b { nodes = update b.nodes p (some n) }

-- `p->_next = q`.
unfoldable pub set_next : MemoryBuff → ℕ → Option ℕ → Option MemoryBuff
set_next b p q = do n ← load b p; some (put b p (record n { next = q }))

-- The constructor's loop, over the addresses that `new` returns.
pub new_loop : List ℕ → MemoryBuff → Option MemoryBuff
new_loop [] b = some b
new_loop (p ∷ ps) b = do b' ← link b.tail; new_loop ps b'
  where
    link : Option ℕ → Option MemoryBuff
    link none = some (record (put b p reset_node) { tail = some p; read = some p; write = some p })
    link (some t) = set_next (put b p reset_node) t (some p)

-- `memoryBuff(len)`, whose `_freeCount` has 16 bits and `len` 8.
unfoldable pub new_memory_buff : ℕ → List ℕ → Option MemoryBuff
new_memory_buff len ps = new_loop ps (record {
  tail = none;
  read = none;
  write = none;
  free_count = (len + 65535) % 65536;
  nodes = λ p. none;
})

-- The destructor, on fuel: the nodes from the read cursor on are freed.
pub delete_nodes : ℕ → MemoryBuff → Option MemoryBuff
delete_nodes zero b = none
delete_nodes (suc fuel) b = elim b.read [
  | none ↦ some (record b { write = none; tail = none })
  | some p ↦ elim (load b p) [
    | none ↦ none
    | some n ↦ delete_nodes fuel (record b { read = n.next; nodes = update b.nodes p none })
  ]
]

-- `GetWriteBuff`: the buffer, the node and the place in it that the pointer leads to, and `len`. The
-- address is what `new` returns, if it is called.
unfoldable pub get_write_buff : MemoryBuff → ℕ → Option (MemoryBuff × ℕ × ℕ × ℕ)
get_write_buff b fresh = do
  w ← b.write
  n ← load b w
  if ltb n.write_size n.cap then some (b, w, n.write_size, n.cap - n.write_size) else (do
    t ← b.tail
    b' ← set_next (put b fresh reset_node) t (some fresh)
    some (
      record b' { tail = some fresh; write = some fresh; free_count = (b.free_count + 1) % 65536 },
      fresh,
      0,
      list_node_data_size,
    ))

-- What the caller stores through the pointer of `GetWriteBuff`.
unfoldable pub store_buff : MemoryBuff → ℕ → ℕ → List ℕ → Option MemoryBuff
store_buff b p at src = do
  n ← load b p
  some (put b p (record n { p_data = store n.p_data at src }))

-- `GetReadBuff`: the data from the pointer on and its length, or a null pointer, with `len` as it was.
unfoldable pub get_read_buff : MemoryBuff → Option (Option (List ℕ × ℕ))
get_read_buff b = do
  r ← b.read
  n ← load b r
  if ltb n.read_size n.write_size
      then some (some (drop n.read_size n.p_data, n.write_size - n.read_size))
      else some none

-- `AdjustWriteSize`.
unfoldable pub adjust_write_size : MemoryBuff → ℕ → Option MemoryBuff
adjust_write_size b len = do
  w ← b.write
  n ← load b w
  if ltb n.cap (n.write_size + len)
      then none
      else (let n' = record n { write_size = n.write_size + len } in
          let b' = put b w n' in
          if leb n.cap n'.write_size
          then some (record b' { free_count = (b.free_count + 65535) % 65536; write = n.next })
          else some b')

-- `_pRead == _pWrite`.
abbrev pub same : Option ℕ → Option ℕ → Bool
same none none = true
same none (some w) = false
same (some r) none = false
same (some r) (some w) = r == w

-- The end of `AdjustReadSize`, when the node at `r` has been read to its end: it is reset, and freed or
-- put behind the tail.
unfoldable pub recycle : MemoryBuff → ℕ → ListNode → Option MemoryBuff
recycle b r n =
    let b' = record (put b r reset_node) { read = n.next } in
    if ltb 5 b.free_count then some (record b' { nodes = update b.nodes r none }) else (do
      t ← b'.tail
      b'' ← set_next b' t (some r)
      some (record b'' { tail = some r; free_count = (b.free_count + 1) % 65536 }))

-- `AdjustReadSize`: the assertion differs while the cursors stand at one node.
unfoldable pub adjust_read_size : MemoryBuff → ℕ → Option MemoryBuff
adjust_read_size b len = do
  r ← b.read
  n ← load b r
  if ltb (if same b.read b.write then n.write_size else n.cap) (n.read_size + len)
      then none
      else (let n' = record n { read_size = n.read_size + len } in
          if leb n.cap n'.read_size then recycle (put b r n') r n' else some (put b r n'))

-- `GetChar`: the byte that the pointer leads to, or a null pointer.
unfoldable pub get_char : MemoryBuff → Option (MemoryBuff × Option (List ℕ))
get_char b = do
  r ← b.read
  n ← load b r
  if ltb n.read_size n.write_size
      then some
          (put b r (record n { read_size = n.read_size + 1 }), some (drop n.read_size n.p_data))
      else some (b, none)
