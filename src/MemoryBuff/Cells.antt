-- ===== src/MemoryBuff/Cells.antt =====
-- ExtNet/memoryBuff/ListEx.h: what a node holds, and what storing and reading do to it.
use multithread_libevent_exa.Prelude.{
  ℕ, ◌+◌, ◌-◌, ◌≤◌, ◌≡◌, refl, sym, ap, ◌∙◌, arith, List, [], ◌++◌, length, take, drop, store,
  take-store, drop-append_of_le, length-take, length-store, length-drop, length-replicate,
  drop-drop, none, Option,
}
use multithread_libevent_exa.MemoryBuff.{ListNode, reset_node, list_node_data_size}

-- The bytes that were stored and not yet read, oldest first.
unfoldable pub bytes : ListNode → List ℕ
bytes n = drop n.read_size (take n.write_size n.p_data)

pub record IsNode (n : ListNode) : Type 0 where
  pub block : length n.p_data ≡ list_node_data_size
  pub capacity : n.cap ≡ list_node_data_size
  pub ordered : n.read_size ≤ n.write_size
  pub inside : n.write_size ≤ list_node_data_size

pub reset_node-IsNode : IsNode reset_node
unfolding reset_node
reset_node-IsNode = record {
  block = length-replicate {A = ℕ} list_node_data_size 0;
  capacity = refl;
  ordered = omega arith;
  inside = omega arith;
}

pub bytes-reset_node : bytes reset_node ≡ []
unfolding bytes reset_node
bytes-reset_node = refl

pub length-bytes : (n : ListNode) → IsNode n → length (bytes n) ≡ n.write_size - n.read_size
unfolding bytes
length-bytes n v = omega (
  arith,
  length-drop n.read_size (take n.write_size n.p_data),
  length-take n.write_size n.p_data,
  v.block,
  v.inside,
)

-- A node in which the caller has stored bytes behind the others, and announced them.
abbrev pub stored : ListNode → List ℕ → ListNode
stored n src = record n {
  p_data = store n.p_data n.write_size src;
  write_size = n.write_size + length src;
}

module _ (n : ListNode) (src : List ℕ) (v : IsNode n)
    (fits : n.write_size + length src ≤ list_node_data_size) where
  pub stored-IsNode : IsNode (stored n src)
  stored-IsNode = record {
    block = length-store n.p_data n.write_size src ∙ v.block;
    capacity = v.capacity;
    ordered = omega (arith, v.ordered);
    inside = fits;
  }

  pub bytes-stored : bytes (stored n src) ≡ bytes n ++ src
  unfolding bytes
  bytes-stored =
      ap (drop n.read_size) (
        take-store n.p_data n.write_size (n.write_size + length src) src refl
          (omega (arith, v.block)))
      ∙ drop-append_of_le n.read_size (take n.write_size n.p_data) src
          (omega (arith, v.ordered, v.inside, v.block, length-take n.write_size n.p_data))

-- A node from which bytes were read.
abbrev pub skipped : ListNode → ℕ → ListNode
skipped n len = record n { read_size = n.read_size + len }

module _ (n : ListNode) (len : ℕ) (v : IsNode n) (fits : n.read_size + len ≤ n.write_size) where
  pub skipped-IsNode : IsNode (skipped n len)
  skipped-IsNode = record {
    block = v.block;
    capacity = v.capacity;
    ordered = fits;
    inside = v.inside;
  }

  pub bytes-skipped : bytes (skipped n len) ≡ drop len (bytes n)
  unfolding bytes
  bytes-skipped =
      sym (drop-drop len n.read_size (n.read_size + len) (take n.write_size n.p_data) refl)

pub bytes-linked : (n : ListNode) (q : Option ℕ) → bytes (record n { next = q }) ≡ bytes n
unfolding bytes
bytes-linked n q = refl

pub write_size-reset_node : reset_node.write_size ≡ 0
unfolding reset_node
write_size-reset_node = refl

pub read_size-reset_node : reset_node.read_size ≡ 0
unfolding reset_node
read_size-reset_node = refl

pub next-reset_node : reset_node.next ≡ none
unfolding reset_node
next-reset_node = refl
