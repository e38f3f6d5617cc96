-- ===== src/FdBridge/Full.antt =====
-- FdBridge.cpp, `read`: the buffer has no third node, and the call that fills the second ends badly.
use multithread_libevent_exa.Prelude.{
  ℕ, suc, ◌*◌, ◌+◌, ◌-◌, ◌<◌, ◌≤◌, ◌≡◌, refl, ap, ◌∙◌, arith, List, [], ◌∷◌, none, some, length,
  lt→==, le→ltb,
}
use multithread_libevent_exa.Handler.Socket.{Socket, received}
use multithread_libevent_exa.MemoryBuff.{MemoryBuff, ListNode, list_node_data_size, get_write_buff}
use multithread_libevent_exa.MemoryBuff.Cells.{IsNode}
use multithread_libevent_exa.MemoryBuff.Adjust.{get_write_buff_lem}
use multithread_libevent_exa.MemoryBuff.Phases.{Holds, both_first, apart, both_second}
use multithread_libevent_exa.MemoryBuff.Write.{store_full}
use multithread_libevent_exa.FdBridge.{fault, recv_round, buff_round, recv_loop}

no_writer : (b : MemoryBuff) (fresh : ℕ) → b.write ≡ none → get_write_buff b fresh ≡ none
unfolding get_write_buff
no_writer b fresh e = ground arith

module _ (fresh : MemoryBuff → ℕ) (socket : Socket) (a c : ℕ) where
  open socket use {State}

  no_writer_fault :
      (fuel : ℕ) (b : MemoryBuff) (s : State)
      → b.write ≡ none
      → recv_loop fresh socket (suc fuel) b s ≡ fault
  unfolding recv_loop buff_round
  no_writer_fault fuel b s e = rw (no_writer b (fresh b) e, buff_round) refl

  full_round :
      (fuel : ℕ) (b : MemoryBuff) (m : ListNode) (s s' : State) (len : ℕ) (src : List ℕ)
      → b.write ≡ some c
      → b.nodes c ≡ some m
      → m.next ≡ none
      → m.write_size + length src ≡ m.cap
      → length src ≡ len
      → 0 < len
      → recv_round fresh socket
          (recv_loop fresh socket (suc fuel))
          b
          c
          m.write_size
          len
          (received src, s')
        ≡ fault
  unfolding recv_round
  full_round fuel b m s s' len [] e f n w l pos = absurd (omega arith)
  full_round fuel b m s s' len (x ∷ src) e f n w l pos =
      let (b', r, rd, wr, tl, new, old) = store_full b c m (x ∷ src) e f w in
      rw (r, recv_round)
        (rw (le→ltb (length (x ∷ src)) len (omega arith), recv_round)
          (no_writer_fault fuel b' s' (wr ∙ n)))

  second_full :
      (fuel k : ℕ) (b : MemoryBuff) (m : ListNode) (s s' : State) (src : List ℕ)
      → b.write ≡ some c
      → b.nodes c ≡ some m
      → m.next ≡ none
      → IsNode m
      → m.write_size < list_node_data_size
      → list_node_data_size + m.write_size ≡ k
      → socket.recv s (2 * list_node_data_size - k) ≡ (received src, s')
      → length src ≡ 2 * list_node_data_size - k
      → recv_loop fresh socket (suc (suc fuel)) b s ≡ fault
  unfolding recv_loop buff_round
  second_full fuel k b m s s' src e f n v o t r l =
      let len : m.cap - m.write_size ≡ 2 * list_node_data_size - k = omega (arith, v.capacity) in
      rw (get_write_buff_lem b c (fresh b) m e f (omega (arith, v.capacity)), buff_round)
        (rw (lt→== (m.cap - m.write_size) 0 (omega (arith, v.capacity)), buff_round)
          (rw (ap (socket.recv s) len ∙ r) (
            full_round fuel b m s s' (m.cap - m.write_size) src e f n (omega (arith, v.capacity))
              (omega (arith, v.capacity)) (omega (arith, v.capacity)))))

  -- Take a buffer of two nodes in one of the states Holds, in which at least 4096 bytes were stored in
  -- all, and a socket whose next recv gives as many bytes as are left of 8192. Then FdBridge::read, on
  -- fuel for at least two rounds, ends in an access that has no defined behaviour: the write cursor
  -- has left the list, and GetWriteBuff goes through it.
  pub recv_loop_full :
      (fuel k : ℕ) (b : MemoryBuff) (q : List ℕ) (s s' : State) (src : List ℕ)
      → Holds a c b q k
      → list_node_data_size ≤ k
      → socket.recv s (2 * list_node_data_size - k) ≡ (received src, s')
      → length src ≡ 2 * list_node_data_size - k
      → recv_loop fresh socket (suc (suc fuel)) b s ≡ fault
  recv_loop_full fuel k b q s s' src (both_first h) ge r l =
      absurd (omega (arith, h.total, h.open_end))
  recv_loop_full fuel k b q s s' src (apart h) ge r l =
      second_full fuel k b h.m s s' src h.writer h.second h.last h.valid_last h.open_end h.total r l
  recv_loop_full fuel k b q s s' src (both_second h) ge r l =
      second_full fuel k b h.m s s' src h.writer h.second h.last h.valid_last h.open_end h.total r l
