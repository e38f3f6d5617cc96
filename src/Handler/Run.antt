-- ===== src/Handler/Run.antt =====
-- handler.cc under libevent's loop: a connection's callbacks, one after the other, and what its event
-- waits for afterwards.
use multithread_libevent_exa.Prelude.{
  ℕ, ◌<◌, ◌≡◌, refl, ap, ◌∙◌, arith, Bool, true, false, List, [], ◌∷◌, ◌++◌, Option, none, some,
  length, take, size_mod, lt→==,
}
use multithread_libevent_exa.Buffer.{init, data_chunk}
use multithread_libevent_exa.Buffer.Valid.{Holds, init-Holds}
use multithread_libevent_exa.Handler.{
  Handler, What, new_handler, handle_write, handler_event_cb, after_read, after_write, write_loop,
  write_round, after_write_loop,
}
use multithread_libevent_exa.Handler.Socket.{Socket, eagain, write_error}
use multithread_libevent_exa.Handler.Stream.{IsEcho, Called, handler_event_cb_lem, lengths}

module _ (fresh : ℕ → List ℕ) (socket : Socket) where
  open socket use {State, incoming, outgoing}

  -- The callbacks that libevent makes, until one deletes the handler.
  unfoldable pub run : ℕ → List What → Handler → State → Option (Bool × Handler × State)
  run fuel [] h s = some (false, h, s)
  run fuel (w ∷ ws) h s = elim (handler_event_cb fresh socket fuel w h s) [
    | none ↦ none
    | some (d, h', s') ↦ elim d [ true ↦ some (true, h', s') | false ↦ run fuel ws h' s' ]
  ]

  module _ (length-fresh : (n : ℕ) → length (fresh n) ≡ n) (stream : List ℕ)
      (small : length stream < size_mod) where
    run_lem :
        (fuel : ℕ) (ws : List What) (h : Handler) (s : State)
        → IsEcho fresh length-fresh socket stream h s
        → length stream < fuel
        → Called fresh length-fresh socket stream small (run fuel ws h s)
    unfolding run
    run_lem fuel [] h s i f = record {
      deleted = false;
      handler = h;
      state = s;
      result = refl;
      sent = (_, i.split);
      alive = λ e. i;
      dead = λ e. cc;
    }
    run_lem fuel (w ∷ ws) h s i f =
        rw (g.result, run)
          (go g.deleted g.alive g.dead (λ i'. run_lem fuel ws g.handler g.state i' f))
      where
        g : Called fresh length-fresh socket stream small (handler_event_cb fresh socket fuel w h s)
        g =
            handler_event_cb_lem fresh length-fresh socket stream small fuel w h s i
              (omega (arith, lengths fresh length-fresh socket stream small h s i))

        go :
            (d : Bool)
            → (d ≡ false → IsEcho fresh length-fresh socket stream g.handler g.state)
            → (d ≡ true → (g.handler.fd ≡ none) × (g.handler.ev ≡ none))
            → (IsEcho fresh length-fresh socket stream g.handler g.state
                → Called fresh length-fresh socket stream small (run fuel ws g.handler g.state))
            → Called fresh length-fresh socket stream small (elim d [
              | true ↦ some (true, g.handler, g.state)
              | false ↦ run fuel ws g.handler g.state
            ])
        go true a x again = record {
          deleted = true;
          handler = g.handler;
          state = g.state;
          result = refl;
          sent = g.sent;
          alive = λ e. cc;
          dead = x;
        }
        go false a x again = again (a refl)

    -- A connection is an echo. Take a new handler on a non-blocking socket whose peer sends a stream
    -- of less than 2^64 bytes, nothing being sent back yet, fuel above the length of the stream, and
    -- any sequence of callbacks. Each callback returns, and at the end what was sent back is a
    -- beginning of the stream. If the handler was not deleted, what was sent back, then its write
    -- buffer, then what is still to come make up the stream, and its read buffer is empty; if it was
    -- deleted, its socket is closed and its event gone.
    pub echo_run :
        (fuel fd : ℕ) (ws : List What) (h : Handler) (s : State)
        → new_handler true fd ≡ some h
        → outgoing s ≡ []
        → incoming s ≡ stream
        → length stream < fuel
        → Called fresh length-fresh socket stream small (run fuel ws h s)
    unfolding new_handler
    echo_run fuel fd ws h s e o i f = run_lem fuel ws h s start f
      where
        fields : (h.read_buf ≡ init) × (h.write_buf ≡ init)
        fields = ground arith

        start : IsEcho fresh length-fresh socket stream h s
        start = record {
          pending = [];
          reading = rw fields.0 init-Holds;
          writing = rw fields.1 init-Holds;
          split = ap (λ l. l ++ incoming s) o ∙ i;
        }

  -- A write callback on a handler with bytes to send, whose write fails with EAGAIN, keeps the handler
  -- and its bytes but leaves its event waiting for nothing: neither to write nor for the timeout.
  pub stalled :
      (fuel : ℕ) (h : Handler) (s s' : State) (x : ℕ) (p m : List ℕ) (n : ℕ)
      → Holds h.write_buf (x ∷ p)
      → data_chunk h.write_buf ≡ some (m, n)
      → socket.write s (take n m) ≡ (write_error eagain, s')
      → handler_event_cb fresh socket fuel
          (record { timeout = false; read = false; write = true })
          h
          s
        ≡ some (false, record h { ev = none }, s')
  unfolding handler_event_cb after_read handle_write write_loop write_round after_write_loop
      after_write
  stalled fuel h s s' x p m n hw c e =
      rw (lt→== h.write_buf.size 0 some_data, write_loop)
        (rw (c, write_loop) (rw (e, write_round) refl))
    where
      some_data : 0 < h.write_buf.size
      some_data = omega (arith, hw.valid.sized, ap length hw.held)
