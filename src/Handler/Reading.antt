-- ===== src/Handler/Reading.antt =====
-- handler.cc, `handleRead`: its two loops end, and no byte is lost between the socket and the buffers.
use multithread_libevent_exa.Prelude.{
  ℕ, zero, suc, ◌+◌, ◌<◌, ◌≡◌, refl, sym, ap, ◌∙◌, subst, arith, true, false, inl, inr, List, [],
  ◌∷◌, ◌++◌, Option, some, length, take, drop, size_mod, append_assoc, append-nil, length-append,
  take-append-drop, Bool-cases, ltb, ≡→==, lt→==, ◌==◌, length-drop, length-take,
}
use multithread_libevent_exa.Buffer.{Buffer, space_chunk, drain, push}
use multithread_libevent_exa.Buffer.Valid.{Holds}
use multithread_libevent_exa.Buffer.Space.{Offers, space_chunk_lem, space_have_seted_lem}
use multithread_libevent_exa.Buffer.Read.{data_chunk_lem}
use multithread_libevent_exa.Buffer.Push.{push_lem}
use multithread_libevent_exa.Buffer.Drain.{drain_lem}
use multithread_libevent_exa.Handler.{Status, ok, failed, read_round, read_loop, echo_loop}
use multithread_libevent_exa.Handler.Socket.{Socket, Recv, received, recv_error}

module _ (fresh : ℕ → List ℕ) (length-fresh : (n : ℕ) → length (fresh n) ≡ n)
    (socket : Socket) where
  open socket use {State, incoming, outgoing}

  -- The loop has returned, and what it put behind the queue `q` has left the stream.
  pub record Reads (q : List ℕ) (s : State) (r : Option (Status × Buffer × State)) : Type 0 where
    pub status : Status
    pub buffer : Buffer
    pub state : State
    pub queue : List ℕ
    pub result : r ≡ some (status, buffer, state)
    pub holds : Holds buffer queue
    pub kept : queue ++ incoming state ≡ q ++ incoming s
    pub quiet : outgoing state ≡ outgoing s

  -- A round that hands on to the rounds that follow.
  Reads-after :
      (q q' : List ℕ) (s s' : State) {r : Option (Status × Buffer × State)}
      → q' ++ incoming s' ≡ q ++ incoming s
      → outgoing s' ≡ outgoing s
      → Reads q' s' r
      → Reads q s r
  Reads-after q q' s s' e o g = record {
    status = g.status;
    buffer = g.buffer;
    state = g.state;
    queue = g.queue;
    result = g.result;
    holds = g.holds;
    kept = g.kept ∙ e;
    quiet = g.quiet ∙ o;
  }

  stops :
      (q : List ℕ) (s : State) (st : Status) (b : Buffer) → Holds b q → Reads q s (some (st, b, s))
  stops q s st b h = record {
    status = st;
    buffer = b;
    state = s;
    queue = q;
    result = refl;
    holds = h;
    kept = refl;
    quiet = refl;
  }

  module _ (go : Buffer → State → Option (Status × Buffer × State)) (limit : ℕ)
      (again : (b : Buffer) (q : List ℕ) (s : State)
        → Holds b q
        → length q + length (incoming s) < size_mod
        → length (incoming s) < limit
        → Reads q s (go b s)) where
    read_round_lem :
        (b : Buffer) (q : List ℕ) (s : State) (len : ℕ) (region : List ℕ) (r : Recv × State)
        → Holds b q
        → Offers b len region
        → length q + length (incoming s) < size_mod
        → length (incoming s) < suc limit
        → socket.recv s len ≡ r
        → Reads q s (read_round fresh socket go b len r)
    unfolding read_round
    read_round_lem b q s len region (recv_error e, s') h o small f eq =
        let k = socket.recv_error_keeps s len e s' eq in
        Reads-after q q s s' (ap (◌++◌ q) k.0) k.1 (stops q s' _ b h)
    read_round_lem b q s len region (received [], s') h o small f eq =
        let k = socket.recv_takes s len [] s' eq in
        Reads-after q q s s' (ap (◌++◌ q) (sym k.0)) k.1 (stops q s' failed b h)
    read_round_lem b q s len region (received (x ∷ src), s') h o small f eq =
        let k = socket.recv_takes s len (x ∷ src) s' eq in
        let total : length (incoming s) ≡ suc (length src) + length (incoming s') =
          ap length k.0 ∙ length-append (x ∷ src) (incoming s') in
        let (b', e, h') =
          space_have_seted_lem b q len region (x ∷ src) h o k.2 (omega (arith, total)) in
        let moved : (q ++ x ∷ src) ++ incoming s' ≡ q ++ incoming s =
          append_assoc q (x ∷ src) (incoming s') ∙ ap (◌++◌ q) (sym k.0) in
        rw (e, read_round)
          (Reads-after q (q ++ x ∷ src) s s' moved k.1
            (elim (Bool-cases (ltb (length (x ∷ src)) len)) [
              | inl short ↦ rw short (stops (q ++ x ∷ src) s' ok b' h')
              | inr whole ↦ rw whole (
                  again b' (q ++ x ∷ src) s' h' (omega (arith, total, length-append q (x ∷ src)))
                    (omega (arith, total)))
            ]))

  -- The loop of `handleRead` ends once the peer has no more bytes, at the latest.
  pub read_loop_lem :
      (fuel : ℕ) (b : Buffer) (q : List ℕ) (s : State)
      → Holds b q
      → length q + length (incoming s) < size_mod
      → length (incoming s) < fuel
      → Reads q s (read_loop fresh socket fuel b s)
  unfolding read_loop
  read_loop_lem zero b q s h small f = absurd (omega arith)
  read_loop_lem (suc fuel) b q s h small f =
      let r = space_chunk_lem fresh length-fresh h in
      read_round_lem (read_loop fresh socket fuel) fuel (read_loop_lem fuel) (space_chunk fresh b).0
        q s _ _ (socket.recv s (space_chunk fresh b).2) r.0 r.1 small f refl

  -- The echo loop moves the whole read buffer behind the write buffer.
  pub echo_loop_lem :
      (fuel : ℕ) (r w : Buffer) (q p : List ℕ)
      → Holds r q
      → Holds w p
      → length p + length q < size_mod
      → length q < fuel
      → (r' : Buffer) × (w' : Buffer) × (echo_loop fresh fuel r w ≡ some (r', w'))
        × Holds r' []
        × Holds w' (p ++ q)
  unfolding echo_loop
  echo_loop_lem zero r w q p hr hw small f = absurd (omega arith)
  echo_loop_lem (suc fuel) r w [] p hr hw small f =
      let e : (r.size == 0) ≡ true = ≡→== r.size 0 (hr.valid.sized ∙ ap length hr.held) in
      (r, w, rw (e, echo_loop) refl, hr, subst (Holds w) (sym (append-nil p)) hw)
  echo_loop_lem (suc fuel) r w (x ∷ q) p hr hw small f =
      let e : (r.size == 0) ≡ false =
        lt→== r.size 0 (omega (arith, hr.valid.sized, ap length hr.held)) in
      let (m, n, c, t, pos, le) = data_chunk_lem r (x ∷ q) hr (omega arith) in
      let taken : length (take n m) ≡ n = omega (arith, ap length t, length-take n (x ∷ q)) in
      let hr' = (drain_lem r (x ∷ q) n hr (omega arith)).0 in
      let hw' = (push_lem fresh length-fresh w p (take n m) hw (omega (arith, taken))).0 in
      let (r', w', go, ends, done) =
        echo_loop_lem fuel (drain r n).0 (push fresh w (take n m)).0 (drop n (x ∷ q))
          (p ++ take n m) hr' hw'
          (omega (arith, length-append p (take n m), taken, length-drop n (x ∷ q)))
          (omega (arith, length-drop n (x ∷ q))) in
      let whole : (p ++ take n m) ++ drop n (x ∷ q) ≡ p ++ x ∷ q =
        append_assoc p (take n m) (drop n (x ∷ q))
        ∙ ap (λ l. p ++ (l ++ drop n (x ∷ q))) t
        ∙ ap (◌++◌ p) (take-append-drop n (x ∷ q)) in
      (r', w', rw (e, echo_loop) (rw c go), ends, subst (Holds w') whole done)
