-- ===== src/Handler/Writing.antt =====
-- handler.cc, `handleWrite`: its loop ends, and what leaves the write buffer is what the kernel took.
use multithread_libevent_exa.Prelude.{
  ℕ, zero, suc, ◌≤◌, ◌<◌, ◌≡◌, refl, ap, ◌∙◌, arith, Bool, true, false, List, [], ◌∷◌, ◌++◌, Option,
  some, length, take, drop, append_assoc, take-append-drop, append-nil, ≡→==, lt→==, ◌==◌,
  length-drop, length-take, take-take,
}
use multithread_libevent_exa.Buffer.{Buffer, drain}
use multithread_libevent_exa.Buffer.Valid.{Holds}
use multithread_libevent_exa.Buffer.Read.{data_chunk_lem}
use multithread_libevent_exa.Buffer.Drain.{drain_lem}
use multithread_libevent_exa.Handler.{Status, ok, write_round, write_loop}
use multithread_libevent_exa.Handler.Socket.{Socket, Write, wrote, write_error}

module _ (fresh : ℕ → List ℕ) (socket : Socket) where
  open socket use {State, incoming, outgoing}

  -- The loop has returned; if it ended by its test, nothing is left to write.
  pub record Writes (p : List ℕ) (s : State) (r : Option (Status × Bool × Buffer × State))
      : Type 0 where
    pub status : Status
    pub ended : Bool
    pub buffer : Buffer
    pub state : State
    pub queue : List ℕ
    pub result : r ≡ some (status, ended, buffer, state)
    pub holds : Holds buffer queue
    pub kept : outgoing state ++ queue ≡ outgoing s ++ p
    pub quiet : incoming state ≡ incoming s
    pub empty : ended ≡ true → (queue ≡ []) × (status ≡ ok)

  stops :
      (p : List ℕ) (s s' : State) (st : Status) (b : Buffer)
      → Holds b p
      → outgoing s' ≡ outgoing s
      → incoming s' ≡ incoming s
      → Writes p s (some (st, false, b, s'))
  stops p s s' st b h o i = record {
    status = st;
    ended = false;
    buffer = b;
    state = s';
    queue = p;
    result = refl;
    holds = h;
    kept = ap (λ l. l ++ p) o;
    quiet = i;
    empty = λ e. cc;
  }

  -- What the kernel took is what leaves the queue.
  moved :
      (s s' : State) (m p : List ℕ) (n len : ℕ)
      → n ≤ len
      → take len m ≡ take len p
      → outgoing s' ≡ outgoing s ++ take n (take len m)
      → outgoing s' ++ drop n p ≡ outgoing s ++ p
  moved s s' m p n len few t o =
      ap (λ l. l ++ drop n p) (o ∙ ap (λ l. outgoing s ++ take n l) t)
      ∙ append_assoc (outgoing s) (take n (take len p)) (drop n p)
      ∙ ap (λ l. outgoing s ++ (l ++ drop n p)) (take-take n len p few)
      ∙ ap (◌++◌ (outgoing s)) (take-append-drop n p)

  module _ (go : Buffer → State → Option (Status × Bool × Buffer × State)) (limit : ℕ)
      (again : (b : Buffer) (p : List ℕ) (s : State)
        → Holds b p
        → length p < limit
        → Writes p s (go b s)) where
    write_round_lem :
        (b : Buffer) (p m : List ℕ) (len : ℕ) (s : State) (r : Write × State)
        → Holds b p
        → length p < suc limit
        → take len m ≡ take len p
        → len ≤ length p
        → socket.write s (take len m) ≡ r
        → Writes p s (write_round fresh socket go b r)
    unfolding write_round
    write_round_lem b p m len s (write_error e, s') h f t le eq =
        let k = socket.write_error_keeps s (take len m) e s' eq in stops p s s' _ b h k.1 k.0
    write_round_lem b p m len s (wrote zero e, s') h f t le eq =
        let k = socket.write_takes s (take len m) 0 e s' eq in
        stops p s s' _ b h (k.1 ∙ append-nil (outgoing s)) k.0
    write_round_lem b p m len s (wrote (suc n) e, s') h f t le eq =
        let k = socket.write_takes s (take len m) (suc n) e s' eq in
        let few : suc n ≤ len = omega (arith, k.2, length-take len m) in
        let g =
          again (drain b (suc n)).0 (drop (suc n) p) s'
            (drain_lem b p (suc n) h
              (omega (arith, few, le, h.valid.sized, h.valid.small, ap length h.held))).0
            (omega (arith, length-drop (suc n) p)) in
        record {
          status = g.status;
          ended = g.ended;
          buffer = g.buffer;
          state = g.state;
          queue = g.queue;
          result = g.result;
          holds = g.holds;
          kept = g.kept ∙ moved s s' m p (suc n) len few t k.1;
          quiet = g.quiet ∙ k.0;
          empty = g.empty;
        }

  -- `handleWrite`'s loop ends: each round that goes on has written something.
  pub write_loop_lem :
      (fuel : ℕ) (b : Buffer) (p : List ℕ) (s : State)
      → Holds b p
      → length p < fuel
      → Writes p s (write_loop fresh socket fuel b s)
  unfolding write_loop
  write_loop_lem zero b p s h f = absurd (omega arith)
  write_loop_lem (suc fuel) b [] s h f =
      let e : (b.size == 0) ≡ true = ≡→== b.size 0 (h.valid.sized ∙ ap length h.held) in
      rw (e, write_loop)
        (record {
          status = ok;
          ended = true;
          buffer = b;
          state = s;
          queue = [];
          result = refl;
          holds = h;
          kept = refl;
          quiet = refl;
          empty = λ t. (refl, refl);
        })
  write_loop_lem (suc fuel) b (x ∷ p) s h f =
      let e : (b.size == 0) ≡ false =
        lt→== b.size 0 (omega (arith, h.valid.sized, ap length h.held)) in
      let (m, n, c, t, pos, le) = data_chunk_lem b (x ∷ p) h (omega arith) in
      rw (e, write_loop)
        (rw (c, write_loop)
          (write_round_lem (write_loop fresh socket fuel) fuel (write_loop_lem fuel) b (x ∷ p) m n s
            _ h f t le refl))
