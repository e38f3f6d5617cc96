-- ===== src/Handler/Tests.antt =====
-- handler.cc on a small socket: runs, and the theorems at concrete inputs.
use multithread_libevent_exa.Prelude.{
  ℕ, ◌≡◌, refl, arith, true, false, List, [], ◌∷◌, none, some, length, replicate, length-replicate,
}
use multithread_libevent_exa.Buffer.{init, push, data_chunk}
use multithread_libevent_exa.Buffer.Valid.{Holds, init-Holds}
use multithread_libevent_exa.Buffer.Read.{data_chunk_lem, Chunked}
use multithread_libevent_exa.Buffer.Push.{push_lem}
use multithread_libevent_exa.Handler.{
  Handler, What, ev_read, ev_write, new_handler, handler_event_cb,
}
use multithread_libevent_exa.Handler.Pipe.{Pipe, pipe}
use multithread_libevent_exa.Handler.Stream.{Called}
use multithread_libevent_exa.Handler.Run.{run, echo_run, stalled}

abbrev zeroes : ℕ → List ℕ
zeroes n = replicate n 0

length-zeroes : (n : ℕ) → length (zeroes n) ≡ n
length-zeroes n = length-replicate n 0

abbrev arriving : Pipe
arriving = record { arrived = 1 ∷ 2 ∷ 3 ∷ []; sent = []; full = false }

abbrev accepted : Handler
accepted = record { fd = some 5; ev = some (ev_read 60); read_buf = init; write_buf = init }

abbrev reads : What
reads = record { timeout = false; read = true; write = false }

abbrev writes : What
writes = record { timeout = false; read = false; write = true }

echo_run_example :
    Called zeroes length-zeroes pipe
      (1 ∷ 2 ∷ 3 ∷ [])
      (omega arith)
      (run zeroes pipe 4 (reads ∷ writes ∷ reads ∷ []) accepted arriving)
unfolding new_handler
echo_run_example =
    echo_run zeroes pipe length-zeroes (1 ∷ 2 ∷ 3 ∷ []) (omega arith) 4 5
      (reads ∷ writes ∷ reads ∷ []) accepted arriving refl refl refl (omega arith)

-- One byte waits to be written, and the kernel takes none.
abbrev pending : Handler
pending = record accepted { ev = some (ev_write 10); write_buf = (push zeroes init (7 ∷ [])).0 }

pending-Holds : Holds pending.write_buf (7 ∷ [])
pending-Holds = (push_lem zeroes length-zeroes init [] (7 ∷ []) init-Holds (omega arith)).0

abbrev stuck : Pipe
stuck = record { arrived = []; sent = []; full = true }

pending_chunk : Chunked (7 ∷ []) (data_chunk pending.write_buf)
pending_chunk = data_chunk_lem pending.write_buf (7 ∷ []) pending-Holds (omega arith)

stalled_example :
    handler_event_cb zeroes pipe 1 writes pending stuck
    ≡ some (false, record pending { ev = none }, stuck)
stalled_example =
    stalled zeroes pipe 1 pending stuck stuck 7 [] pending_chunk.0 pending_chunk.1 pending-Holds
      pending_chunk.2 refl
