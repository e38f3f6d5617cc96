-- ===== src/MemoryBuff/Phases.antt =====
-- ExtNet/memoryBuff: the life of a buffer of two nodes, up to the end of the second node.
use multithread_libevent_exa.Prelude.{
  ℕ, ◌+◌, ◌<◌, ◌≡◌, ◌≢◌, refl, ◌∙◌, arith, List, [], ◌∷◌, ◌++◌, none, some, update,
}
use multithread_libevent_exa.MemoryBuff.{
  MemoryBuff, ListNode, list_node_data_size, reset_node, new_memory_buff, new_loop, set_next, ◌>>=◌,
}
use multithread_libevent_exa.MemoryBuff.Cells.{
  bytes, IsNode, reset_node-IsNode, bytes-reset_node, bytes-linked, write_size-reset_node,
}
use multithread_libevent_exa.MemoryBuff.Adjust.{set_next_lem}

module _ (a c : ℕ) where
  -- Both cursors stand at the first node; the writer stands at the second; both do. `q` are the bytes in
  -- the buffer, and `k` is how many were stored in all.
  pub record BothFirst (b : MemoryBuff) (q : List ℕ) (k : ℕ) : Type 0 where
    pub n : ListNode
    pub m : ListNode
    pub reader : b.read ≡ some a
    pub writer : b.write ≡ some a
    pub tail_first : b.tail ≡ some a
    pub first : b.nodes a ≡ some n
    pub second : b.nodes c ≡ some m
    pub linked : n.next ≡ some c
    pub last : m ≡ reset_node
    pub valid : IsNode n
    pub open_end : n.write_size < list_node_data_size
    pub held : bytes n ≡ q
    pub total : n.write_size ≡ k

  pub record Apart (b : MemoryBuff) (q : List ℕ) (k : ℕ) : Type 0 where
    pub n : ListNode
    pub m : ListNode
    pub reader : b.read ≡ some a
    pub writer : b.write ≡ some c
    pub tail_first : b.tail ≡ some a
    pub first : b.nodes a ≡ some n
    pub second : b.nodes c ≡ some m
    pub linked : n.next ≡ some c
    pub last : m.next ≡ none
    pub valid : IsNode n
    pub full : n.write_size ≡ list_node_data_size
    pub unread : n.read_size < list_node_data_size
    pub valid_last : IsNode m
    pub open_end : m.write_size < list_node_data_size
    pub start : m.read_size ≡ 0
    pub held : bytes n ++ bytes m ≡ q
    pub total : list_node_data_size + m.write_size ≡ k

  pub record BothSecond (b : MemoryBuff) (q : List ℕ) (k : ℕ) : Type 0 where
    pub m : ListNode
    pub reader : b.read ≡ some c
    pub writer : b.write ≡ some c
    pub second : b.nodes c ≡ some m
    pub last : m.next ≡ none
    pub valid_last : IsNode m
    pub open_end : m.write_size < list_node_data_size
    pub held : bytes m ≡ q
    pub total : list_node_data_size + m.write_size ≡ k

  pub data Holds (b : MemoryBuff) (q : List ℕ) (k : ℕ) : Type 0 where
    both_first : BothFirst b q k → Holds b q k
    apart : Apart b q k → Holds b q k
    both_second : BothSecond b q k → Holds b q k

  -- The buffer of two nodes that the constructor makes.
  pub new-Holds :
      a ≢ c → (b : MemoryBuff) × (new_memory_buff 2 (a ∷ (c ∷ [])) ≡ some b) × Holds b [] 0
  unfolding new_memory_buff new_loop set_next
  new-Holds ne = (
    new_two,
    rw (set_next_lem two_nodes a (some c) reset_node (ground arith), ◌>>=◌) refl,
    both_first new_first,
  )
    where
      two_nodes : MemoryBuff
      two_nodes = record {
        tail = some a;
        read = some a;
        write = some a;
        free_count = 1;
        nodes = update (update (λ p. none) a (some reset_node)) c (some reset_node);
      }

      new_two : MemoryBuff
      new_two = record {
        tail = some a;
        read = some a;
        write = some a;
        free_count = 1;
        nodes =
            update (update (update (λ p. none) a (some reset_node)) c (some reset_node)) a
              (some (record reset_node { next = some c }));
      }

      new_first : BothFirst new_two [] 0
      new_first = record {
        n = record reset_node { next = some c };
        m = reset_node;
        reader = refl;
        writer = refl;
        tail_first = refl;
        first = ground arith;
        second = ground arith;
        linked = refl;
        last = refl;
        valid = record {
          block = reset_node-IsNode.block;
          capacity = reset_node-IsNode.capacity;
          ordered = reset_node-IsNode.ordered;
          inside = reset_node-IsNode.inside;
        };
        open_end = omega (arith, write_size-reset_node);
        held = bytes-linked reset_node (some c) ∙ bytes-reset_node;
        total = write_size-reset_node;
      }
