-- ===== src/Handler/Pipe.antt =====
-- A socket on which what has arrived is a list, for the tests.
use multithread_libevent_exa.Prelude.{
  ℕ, ◌≤◌, ◌≡◌, arith, Bool, List, [], ◌∷◌, ◌++◌, length, take, drop, take-append-drop, length-take,
  take-of_length-le, if◌then◌else◌,
}
use multithread_libevent_exa.Handler.Socket.{
  Socket, Recv, received, recv_error, Write, wrote, write_error, eagain, Errno,
}

-- What has arrived, and what was taken. `full` says that the kernel takes nothing for now.
pub record Pipe : Type 0 where
  pub arrived : List ℕ
  pub sent : List ℕ
  pub full : Bool

abbrev pub recv_from : List ℕ → Pipe → ℕ → Recv × Pipe
recv_from [] s len = (recv_error eagain, s)
recv_from (x ∷ xs) s len = (received (take len (x ∷ xs)), record s { arrived = drop len (x ∷ xs) })

abbrev pub pipe_write : Pipe → List ℕ → Write × Pipe
pipe_write s bs =
    if s.full
    then (write_error eagain, s)
    else (wrote (length bs) eagain, record s { sent = s.sent ++ bs })

pub pipe_recv_takes :
    (l : List ℕ) (s : Pipe) (len : ℕ) (src : List ℕ) (s' : Pipe)
    → recv_from l s len ≡ (received src, s')
    → (l ≡ src ++ s'.arrived) × (s'.sent ≡ s.sent) × (length src ≤ len)
pipe_recv_takes [] s len src s' e = cc
pipe_recv_takes (x ∷ xs) s len src s' e =
    ground (arith, take-append-drop len (x ∷ xs), length-take len (x ∷ xs))

pub pipe_recv_keeps :
    (l : List ℕ) (s : Pipe) (len : ℕ) (e : Errno) (s' : Pipe)
    → recv_from l s len ≡ (recv_error e, s')
    → (s'.arrived ≡ s.arrived) × (s'.sent ≡ s.sent)
pipe_recv_keeps [] s len e s' q = ground arith
pipe_recv_keeps (x ∷ xs) s len e s' q = cc

pub pipe_write_takes :
    (s : Pipe) (bs : List ℕ) (n : ℕ) (e : Errno) (s' : Pipe)
    → pipe_write s bs ≡ (wrote n e, s')
    → (s'.arrived ≡ s.arrived) × (s'.sent ≡ s.sent ++ take n bs) × (n ≤ length bs)
pipe_write_takes s bs n e s' q = ground (arith, take-of_length-le (length bs) bs)

pub pipe_write_keeps :
    (s : Pipe) (bs : List ℕ) (e : Errno) (s' : Pipe)
    → pipe_write s bs ≡ (write_error e, s')
    → (s'.arrived ≡ s.arrived) × (s'.sent ≡ s.sent)
pipe_write_keeps s bs e s' q = ground arith

abbrev pub pipe : Socket
pipe = record {
  State = Pipe;
  recv = λ s len. recv_from s.arrived s len;
  write = pipe_write;
  incoming = λ s. s.arrived;
  outgoing = λ s. s.sent;
  recv_takes = λ s len src s' e. pipe_recv_takes s.arrived s len src s' e;
  recv_error_keeps = λ s len e s' q. pipe_recv_keeps s.arrived s len e s' q;
  write_takes = pipe_write_takes;
  write_error_keeps = pipe_write_keeps;
}
