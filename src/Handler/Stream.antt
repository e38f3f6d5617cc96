-- ===== src/Handler/Stream.antt =====
-- handler.cc: the handler echoes its peer's stream, in order, with nothing lost or made up.
use multithread_libevent_exa.Prelude.{
  ℕ, suc, ◌+◌, ◌<◌, ◌≡◌, refl, sym, ap, ◌∙◌, arith, Bool, true, false, List, [], ◌++◌, Option, none,
  some, length, size_mod, append_assoc, length-append, if◌then◌else◌,
}
use multithread_libevent_exa.Buffer.{Buffer}
use multithread_libevent_exa.Buffer.Valid.{Holds}
use multithread_libevent_exa.Handler.{
  Handler, Status, ok, failed, What, arm, close, handle_read, handle_write, handler_event_cb,
  after_read, after_write, read_loop, write_loop, after_read_loop, after_write_loop,
}
use multithread_libevent_exa.Handler.Socket.{Socket}
use multithread_libevent_exa.Handler.Reading.{Reads, read_loop_lem, echo_loop_lem}
use multithread_libevent_exa.Handler.Writing.{Writes, write_loop_lem}

module _ (fresh : ℕ → List ℕ) (length-fresh : (n : ℕ) → length (fresh n) ≡ n)
    (socket : Socket) where
  open socket use {State, incoming, outgoing}

  -- Between two callbacks: the read buffer is empty, and the peer's whole `stream` is what was sent
  -- back, what is to be written, and what is to come.
  pub record IsEcho (stream : List ℕ) (h : Handler) (s : State) : Type 0 where
    pub pending : List ℕ
    pub reading : Holds h.read_buf []
    pub writing : Holds h.write_buf pending
    pub split : outgoing s ++ (pending ++ incoming s) ≡ stream

  -- Only a beginning of the stream has been sent back.
  abbrev pub Sent : List ℕ → State → Type 0
  Sent stream s = (rest : List ℕ) × (outgoing s ++ rest ≡ stream)

  -- What a call of `handleRead` or `handleWrite` leaves.
  pub record Handled (stream : List ℕ) (r : Option (Status × Handler × State)) : Type 0 where
    pub status : Status
    pub handler : Handler
    pub state : State
    pub result : r ≡ some (status, handler, state)
    pub sent : Sent stream state
    pub echo : status ≡ ok → IsEcho stream handler state

  module _ (stream : List ℕ) (small : length stream < size_mod) where
    pub lengths :
        (h : Handler) (s : State) (i : IsEcho stream h s)
        → length (outgoing s) + (length i.pending + length (incoming s)) ≡ length stream
    lengths h s i = omega (
      arith,
      ap length i.split,
      length-append (outgoing s) (i.pending ++ incoming s),
      length-append i.pending (incoming s),
    )

    after_read_loop_lem :
        (h : Handler) (s s' : State) (st : Status) (b : Buffer) (q : List ℕ) (i : IsEcho stream h s)
        → Holds b q
        → q ++ incoming s' ≡ incoming s
        → outgoing s' ≡ outgoing s
        → Handled stream (after_read_loop fresh socket h (some (st, b, s')))
    unfolding after_read_loop arm
    after_read_loop_lem h s s' failed b q i hb e o = record {
      status = failed;
      handler = _;
      state = s';
      result = refl;
      sent = (i.pending ++ incoming s, ap (λ l. l ++ (i.pending ++ incoming s)) o ∙ i.split);
      echo = λ t. cc;
    }
    after_read_loop_lem h s s' ok b q i hb e o =
        let sum = lengths h s i in
        let (r, w, c, hr, hw) =
          echo_loop_lem fresh length-fresh socket (suc b.size) b h.write_buf q i.pending hb
            i.writing (omega (arith, sum, ap length e, length-append q (incoming s')))
            (omega (arith, hb.valid.sized, ap length hb.held)) in
        let moved : outgoing s' ++ ((i.pending ++ q) ++ incoming s') ≡ stream =
          ap (λ l. l ++ ((i.pending ++ q) ++ incoming s')) o
          ∙ ap (◌++◌ (outgoing s)) (append_assoc i.pending q (incoming s') ∙ ap (◌++◌ i.pending) e)
          ∙ i.split in
        rw (c, after_read_loop)
          (record {
            status = ok;
            handler = _;
            state = s';
            result = refl;
            sent = (_, moved);
            echo =
                λ t. record { pending = i.pending ++ q; reading = hr; writing = hw; split = moved };
          })

    -- `handleRead` returns, for enough fuel to read what the peer sends.
    pub handle_read_lem :
        (fuel : ℕ) (h : Handler) (s : State)
        → IsEcho stream h s
        → length (incoming s) < fuel
        → Handled stream (handle_read fresh socket fuel h s)
    unfolding handle_read
    handle_read_lem fuel h s i f =
        rw g.result
          (after_read_loop_lem h s g.state g.status g.buffer g.queue i g.holds g.kept g.quiet)
      where
        g : Reads fresh length-fresh socket [] s (read_loop fresh socket fuel h.read_buf s)
        g =
            read_loop_lem fresh length-fresh socket fuel h.read_buf [] s i.reading
              (omega (arith, lengths h s i)) f

    after_write_loop_lem :
        (h : Handler) (s s' : State) (st : Status) (ended : Bool) (b : Buffer) (q : List ℕ)
        (i : IsEcho stream h s)
        → Holds b q
        → outgoing s' ++ q ≡ outgoing s ++ i.pending
        → incoming s' ≡ incoming s
        → Handled stream (after_write_loop fresh socket h (some (st, ended, b, s')))
    unfolding after_write_loop arm
    after_write_loop_lem h s s' st ended b q i hb e o = go ended
      where
        moved : outgoing s' ++ (q ++ incoming s') ≡ stream
        moved =
            sym (append_assoc (outgoing s') q (incoming s'))
            ∙ ap (λ l. l ++ incoming s') e
            ∙ append_assoc (outgoing s) i.pending (incoming s')
            ∙ ap (λ l. outgoing s ++ (i.pending ++ l)) o
            ∙ i.split

        go : (x : Bool) → Handled stream (after_write_loop fresh socket h (some (st, x, b, s')))
        go false = record {
          status = st;
          handler = _;
          state = s';
          result = refl;
          sent = (_, moved);
          echo = λ t. record { pending = q; reading = i.reading; writing = hb; split = moved };
        }
        go true = record {
          status = st;
          handler = _;
          state = s';
          result = refl;
          sent = (_, moved);
          echo = λ t. record { pending = q; reading = i.reading; writing = hb; split = moved };
        }

    -- `handleWrite` returns.
    pub handle_write_lem :
        (h : Handler) (s : State)
        → IsEcho stream h s
        → Handled stream (handle_write fresh socket h s)
    unfolding handle_write
    handle_write_lem h s i = rw g.result (
        after_write_loop_lem h s g.state g.status g.ended g.buffer g.queue i g.holds g.kept g.quiet)
      where
        enough : length i.pending < suc h.write_buf.size
        enough = omega (arith, i.writing.valid.sized, ap length i.writing.held)

        g :
            Writes fresh socket i.pending s
              (write_loop fresh socket (suc h.write_buf.size) h.write_buf s)
        g =
            write_loop_lem fresh socket (suc h.write_buf.size) h.write_buf i.pending s i.writing
              enough

    -- What a callback leaves: a handler in order, or a closed one.
    pub record Called (r : Option (Bool × Handler × State)) : Type 0 where
      pub deleted : Bool
      pub handler : Handler
      pub state : State
      pub result : r ≡ some (deleted, handler, state)
      pub sent : Sent stream state
      pub alive : deleted ≡ false → IsEcho stream handler state
      pub dead : deleted ≡ true → (handler.fd ≡ none) × (handler.ev ≡ none)

    closed : (h : Handler) (s : State) → Sent stream s → Called (some (true, close h, s))
    unfolding close
    closed h s sent = record {
      deleted = true;
      handler = _;
      state = s;
      result = refl;
      sent = sent;
      alive = λ e. cc;
      dead = λ e. (refl, refl);
    }

    open_still : (h : Handler) (s : State) → IsEcho stream h s → Called (some (false, h, s))
    open_still h s i = record {
      deleted = false;
      handler = h;
      state = s;
      result = refl;
      sent = (_, i.split);
      alive = λ e. i;
      dead = λ e. cc;
    }

    after_write_lem :
        (r : Option (Status × Handler × State))
        → Handled stream r
        → Called (after_write fresh socket r)
    unfolding after_write
    after_write_lem r g = rw g.result (go g.status g.sent g.echo)
      where
        go :
            (st : Status)
            → Sent stream g.state
            → (st ≡ ok → IsEcho stream g.handler g.state)
            → Called (after_write fresh socket (some (st, g.handler, g.state)))
        go ok sent i = open_still g.handler g.state (i refl)
        go failed sent i = closed g.handler g.state sent

    after_read_lem :
        (write : Bool) (r : Option (Status × Handler × State))
        → Handled stream r
        → Called (after_read fresh socket write r)
    unfolding after_read
    after_read_lem write r g = rw g.result (go write g.status g.sent g.echo)
      where
        go :
            (x : Bool) (st : Status)
            → Sent stream g.state
            → (st ≡ ok → IsEcho stream g.handler g.state)
            → Called (after_read fresh socket x (some (st, g.handler, g.state)))
        go x failed sent i = closed g.handler g.state sent
        go false ok sent i = open_still g.handler g.state (i refl)
        go true ok sent i =
            after_write_lem (handle_write fresh socket g.handler g.state)
              (handle_write_lem g.handler g.state (i refl))

    -- Any callback returns. If the handler lives on, it is in order; if not, its socket is closed.
    pub handler_event_cb_lem :
        (fuel : ℕ) (what : What) (h : Handler) (s : State)
        → IsEcho stream h s
        → length (incoming s) < fuel
        → Called (handler_event_cb fresh socket fuel what h s)
    unfolding handler_event_cb
    handler_event_cb_lem fuel what h s i f = go what.timeout what.read
      where
        fired : Handler
        fired = record h { ev = none }

        i' : IsEcho stream fired s
        i' = record {
          pending = i.pending;
          reading = i.reading;
          writing = i.writing;
          split = i.split;
        }

        unread : Handled stream (some (ok, fired, s))
        unread = record {
          status = ok;
          handler = fired;
          state = s;
          result = refl;
          sent = (_, i.split);
          echo = λ e. i';
        }

        go :
            (timeout read : Bool)
            → Called (
                if timeout
                then some (true, close fired, s)
                else after_read fresh socket what.write
                    (if read then handle_read fresh socket fuel fired s else some (ok, fired, s)))
        go true read = closed fired s (_, i.split)
        go false true = after_read_lem what.write _ (handle_read_lem fuel fired s i' f)
        go false false = after_read_lem what.write _ unread
