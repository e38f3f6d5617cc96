-- ===== src/Handler/Socket.antt =====
-- What handler.cc asks of the operating system: a connected non-blocking stream socket.
use multithread_libevent_exa.Prelude.{ℕ, ◌≤◌, ◌≡◌, Bool, true, false, List, ◌++◌, length, take}

-- The values of `errno` that handler.cc tells apart.
pub data Errno : Type 0 where
  eagain ewouldblock eintr other : Errno

-- `recv`: how many bytes came, which is none when the peer has closed, or -1 with `errno`.
pub data Recv : Type 0 where
  received : List ℕ → Recv
  recv_error : Errno → Recv

-- `write`: how many bytes were taken, with the `errno` that stands then, or -1 with `errno`.
pub data Write : Type 0 where
  wrote : ℕ → Errno → Write
  write_error : Errno → Write

-- The calls, over a state of the connection, and what POSIX says of them. `incoming` are the bytes
-- that the peer sends from here on, `outgoing` those that the kernel has taken for the peer.
pub record Socket : Type 1 where
  pub State : Type 0
  pub recv : State → ℕ → Recv × State
  pub write : State → List ℕ → Write × State
  pub incoming : State → List ℕ
  pub outgoing : State → List ℕ
  pub recv_takes :
      (s : State) (len : ℕ) (src : List ℕ) (s' : State)
      → recv s len ≡ (received src, s')
      → (incoming s ≡ src ++ incoming s') × (outgoing s' ≡ outgoing s) × (length src ≤ len)
  pub recv_error_keeps :
      (s : State) (len : ℕ) (e : Errno) (s' : State)
      → recv s len ≡ (recv_error e, s')
      → (incoming s' ≡ incoming s) × (outgoing s' ≡ outgoing s)
  pub write_takes :
      (s : State) (bs : List ℕ) (n : ℕ) (e : Errno) (s' : State)
      → write s bs ≡ (wrote n e, s')
      → (incoming s' ≡ incoming s) × (outgoing s' ≡ outgoing s ++ take n bs) × (n ≤ length bs)
  pub write_error_keeps :
      (s : State) (bs : List ℕ) (e : Errno) (s' : State)
      → write s bs ≡ (write_error e, s')
      → (incoming s' ≡ incoming s) × (outgoing s' ≡ outgoing s)

-- `errno == EAGAIN || errno == EWOULDBLOCK || errno == EINTR` in `handleRead`.
abbrev pub read_later : Errno → Bool
read_later eagain = true
read_later ewouldblock = true
read_later eintr = true
read_later other = false

-- `errno == EAGAIN || errno == EINTR` in `handleWrite`. On Linux EWOULDBLOCK is EAGAIN.
abbrev pub write_later : Errno → Bool
write_later eagain = true
write_later ewouldblock = true
write_later eintr = true
write_later other = false
