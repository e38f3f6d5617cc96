-- ===== src/FdBridge/Receive.antt =====
-- FdBridge.cpp, `read`: while the buffer's two nodes are not used up, the loop ends, and what it takes
-- from the socket stands behind the bytes of the buffer.
use multithread_libevent_exa.Prelude.{
  ℕ, zero, suc, ◌*◌, ◌+◌, ◌<◌, ◌≡◌, ◌≢◌, refl, sym, ap, ◌∙◌, subst, arith, inl, inr, List, [], ◌∷◌,
  ◌++◌, length, append_assoc, append-nil, length-append, true, false, Bool-cases, ltb, ltb→lt,
  lt→==, if◌then◌else◌,
}
use multithread_libevent_exa.Handler.{Status, ok, failed}
use multithread_libevent_exa.Handler.Socket.{Socket, Errno, Recv, received, recv_error, read_later}
use multithread_libevent_exa.MemoryBuff.{MemoryBuff, list_node_data_size}
use multithread_libevent_exa.MemoryBuff.Phases.{Holds}
use multithread_libevent_exa.MemoryBuff.Write.{Room, get_write_buff-Room}
use multithread_libevent_exa.FdBridge.{Run, returns, recv_round, buff_round, recv_loop}

module _ (fresh : MemoryBuff → ℕ) (socket : Socket) (a c : ℕ) (ne : a ≢ c) where
  open socket use {State, incoming, outgoing}

  -- What the last `recv`, for at least one byte, gave when the loop ends with this status: the end of the
  -- stream or an error for `failed`; an error after which to read later, or fewer bytes than there was
  -- room for, for `ok`.
  pub data Cause (s : State) : Status → Type 0 where
    closed :
        (last : State) (len : ℕ)
        → 0 < len
        → socket.recv last len ≡ (received [], s)
        → Cause s failed
    broken :
        (last : State) (len : ℕ) (e : Errno)
        → 0 < len
        → socket.recv last len ≡ (recv_error e, s)
        → read_later e ≡ false
        → Cause s failed
    empty :
        (last : State) (len : ℕ) (e : Errno)
        → 0 < len
        → socket.recv last len ≡ (recv_error e, s)
        → read_later e ≡ true
        → Cause s ok
    short :
        (last : State) (len : ℕ) (src : List ℕ)
        → 0 < length src
        → length src < len
        → socket.recv last len ≡ (received src, s)
        → Cause s ok

  error_cause :
      (last s : State) (len : ℕ) (e : Errno)
      → 0 < len
      → socket.recv last len ≡ (recv_error e, s)
      → Cause s (if read_later e then ok else failed)
  error_cause last s len e pos eq = elim (Bool-cases (read_later e)) [
    | inl y ↦ rw y (empty last len e pos eq y)
    | inr n ↦ rw n (broken last len e pos eq n)
  ]

  -- The loop has returned, `taken` has left the stream, and the buffer holds it behind `q`.
  pub record Receives (q : List ℕ) (k : ℕ) (s : State) (r : Run (Status × MemoryBuff × State))
      : Type 0 where
    pub status : Status
    pub buff : MemoryBuff
    pub state : State
    pub taken : List ℕ
    pub result : r ≡ returns (status, buff, state)
    pub holds : Holds a c buff (q ++ taken) (k + length taken)
    pub split : incoming s ≡ taken ++ incoming state
    pub quiet : outgoing state ≡ outgoing s
    pub cause : Cause state status

  ends :
      (q : List ℕ) (k : ℕ) (s s' : State) (st : Status) (b : MemoryBuff)
      → Holds a c b q k
      → incoming s ≡ incoming s'
      → outgoing s' ≡ outgoing s
      → Cause s' st
      → Receives q k s (returns (st, b, s'))
  ends q k s s' st b h e o w = record {
    status = st;
    buff = b;
    state = s';
    taken = [];
    result = refl;
    holds =
        subst (λ l. Holds a c b l (k + 0)) (sym (append-nil q))
          (subst (Holds a c b q) (omega arith) h);
    split = e;
    quiet = o;
    cause = w;
  }

  -- A round that has taken `src`, and the rounds that follow.
  Receives-after :
      (q src : List ℕ) (k : ℕ) (s s' : State) {r : Run (Status × MemoryBuff × State)}
      → incoming s ≡ src ++ incoming s'
      → outgoing s' ≡ outgoing s
      → Receives (q ++ src) (k + length src) s' r
      → Receives q k s r
  Receives-after q src k s s' e o g = record {
    status = g.status;
    buff = g.buff;
    state = g.state;
    taken = src ++ g.taken;
    result = g.result;
    holds =
        subst (λ l. Holds a c g.buff l (k + length (src ++ g.taken))) (append_assoc q src g.taken)
          (subst (Holds a c g.buff ((q ++ src) ++ g.taken))
            (omega (arith, length-append src g.taken)) g.holds);
    split = e ∙ ap (λ l. src ++ l) g.split ∙ sym (append_assoc src g.taken (incoming g.state));
    quiet = g.quiet ∙ o;
    cause = g.cause;
  }

  module _ (go : MemoryBuff → State → Run (Status × MemoryBuff × State)) (limit : ℕ)
      (again : (b : MemoryBuff) (q : List ℕ) (k : ℕ) (s : State)
        → Holds a c b q k
        → k + length (incoming s) < 2 * list_node_data_size
        → length (incoming s) < limit
        → Receives q k s (go b s)) where
    recv_round_lem :
        (b : MemoryBuff) (q : List ℕ) (k : ℕ) (s : State) (room : Room a c (fresh b) ne b q k)
        (r : Recv × State)
        → Holds a c b q k
        → k + length (incoming s) < 2 * list_node_data_size
        → length (incoming s) < suc limit
        → socket.recv s room.len ≡ r
        → Receives q k s (recv_round fresh socket go b room.p room.at room.len r)
    unfolding recv_round
    recv_round_lem b q k s room (recv_error e, s') h small f eq =
        let w = socket.recv_error_keeps s room.len e s' eq in
        ends q k s s' _ b h (sym w.0) w.1 (error_cause s s' room.len e room.some_room eq)
    recv_round_lem b q k s room (received [], s') h small f eq =
        let w = socket.recv_takes s room.len [] s' eq in
        ends q k s s' failed b h w.0 w.1 (closed s room.len room.some_room eq)
    recv_round_lem b q k s room (received (x ∷ src), s') h small f eq =
        let w = socket.recv_takes s room.len (x ∷ src) s' eq in
        let total : length (incoming s) ≡ suc (length src) + length (incoming s') =
          ap length w.0 ∙ length-append (x ∷ src) (incoming s') in
        let (b', e, h') = room.fill (x ∷ src) w.2 (omega (arith, total)) in
        rw (e, recv_round)
          (Receives-after q (x ∷ src) k s s' w.0 w.1
            (elim (Bool-cases (ltb (length (x ∷ src)) room.len)) [
              | inl less ↦ rw less (
                  ends (q ++ x ∷ src) (k + length (x ∷ src)) s' s' ok b' h' refl refl
                    (short s room.len (x ∷ src) (omega arith) (ltb→lt _ _ less) eq))
              | inr whole ↦ rw whole (
                  again b' (q ++ x ∷ src) (k + length (x ∷ src)) s' h' (omega (arith, total))
                    (omega (arith, total)))
            ]))

  -- FdBridge::read on a buffer of two nodes in one of the states Holds, to which the constructor
  -- leads: while the bytes that were stored in the buffer in all and those that have arrived at the
  -- socket are together below 8192, and on fuel above the number of those that have arrived, its loop
  -- returns, nothing is sent, and what it has taken from the socket, a beginning of what had arrived,
  -- stands behind the bytes of the buffer, which is again in such a state. The status says what the
  -- last recv, for at least one byte, gave: -1 the end of the stream or an error other than EAGAIN,
  -- EWOULDBLOCK and EINTR, and otherwise one of these, or fewer bytes than there was room for.
  pub recv_loop_lem :
      (fuel : ℕ) (b : MemoryBuff) (q : List ℕ) (k : ℕ) (s : State)
      → Holds a c b q k
      → k + length (incoming s) < 2 * list_node_data_size
      → length (incoming s) < fuel
      → Receives q k s (recv_loop fresh socket fuel b s)
  unfolding recv_loop buff_round
  recv_loop_lem zero b q k s h small f = absurd (omega arith)
  recv_loop_lem (suc fuel) b q k s h small f =
      let room = get_write_buff-Room a c (fresh b) ne b q k h in
      rw (room.offered, buff_round)
        (rw (lt→== room.len 0 room.some_room, buff_round)
          (recv_round_lem (recv_loop fresh socket fuel) fuel (recv_loop_lem fuel) b q k s room
            (socket.recv s room.len) h small f refl))
