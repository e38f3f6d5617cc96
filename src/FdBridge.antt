-- ===== src/FdBridge.antt =====
-- ExtNet/common/FdBridge.cpp: the bytes of a socket go into a `memoryBuff`, and a virtual function is
-- told. The socket is the interface of `Handler.Socket`, and `fresh` is what `new` returns.
pub mod Receive
pub mod Full
mod Tests
use multithread_libevent_exa.Prelude.{
  ℕ, zero, suc, Bool, true, false, List, [], ◌∷◌, Option, none, some, length, ltb, ◌==◌,
  if◌then◌else◌,
}
use multithread_libevent_exa.Handler.{Status, ok, failed}
use multithread_libevent_exa.Handler.Socket
use multithread_libevent_exa.Handler.Socket.{Errno, Recv, received, recv_error, read_later}
use multithread_libevent_exa.MemoryBuff.{MemoryBuff, get_write_buff}
use multithread_libevent_exa.MemoryBuff.Write.{store_and_adjust}

-- How a call ends: with a value, by an access through a null or freed pointer or a failed assertion, or
-- not within the fuel.
pub data Run {ℓ} (A : Type ℓ) : Type ℓ where
  returns : A → Run A
  fault : Run A
  out_of_fuel : Run A

module _ (fresh : MemoryBuff → ℕ) (socket : Socket.Socket) where
  open socket use {State}

  -- What follows `recv`, with `p` and `at` the place of the memory of length `len`, and `go` the rounds
  -- that follow. `failed` is `return -1`, and `ok` a `break`.
  pub recv_round :
      (MemoryBuff → State → Run (Status × MemoryBuff × State))
      → MemoryBuff
      → ℕ
      → ℕ
      → ℕ
      → Recv × State
      → Run (Status × MemoryBuff × State)
  recv_round go b p at len (recv_error e, s) = returns (if read_later e then ok else failed, b, s)
  recv_round go b p at len (received [], s) = returns (failed, b, s)
  recv_round go b p at len (received (x ∷ src), s) = elim (store_and_adjust b p at (x ∷ src)) [
    | none ↦ fault
    | some b' ↦ elim (ltb (length (x ∷ src)) len) [ true ↦ returns (ok, b', s) | false ↦ go b' s ]
  ]

  -- What follows `GetWriteBuff`.
  pub buff_round :
      (MemoryBuff → State → Run (Status × MemoryBuff × State))
      → State
      → Option (MemoryBuff × ℕ × ℕ × ℕ)
      → Run (Status × MemoryBuff × State)
  buff_round go s none = fault
  buff_round go s (some (b, p, at, len)) = elim (len == 0) [
    | true ↦ returns (ok, b, s)
    | false ↦ recv_round go b p at len (socket.recv s len)
  ]

  -- The loop of `read`, on fuel.
  pub recv_loop : ℕ → MemoryBuff → State → Run (Status × MemoryBuff × State)
  recv_loop zero b s = out_of_fuel
  recv_loop (suc fuel) b s = buff_round (recv_loop fuel) s (get_write_buff b (fresh b))

  -- `read`, with `notifyred` for the virtual function that it ends with.
  unfoldable pub after_recv_loop :
      {A : Type 0}
      → (MemoryBuff → State → Run (Status × A))
      → (MemoryBuff → State → A)
      → Run (Status × MemoryBuff × State)
      → Run (Status × A)
  after_recv_loop notifyred left fault = fault
  after_recv_loop notifyred left out_of_fuel = out_of_fuel
  after_recv_loop notifyred left (returns (failed, b, s)) = returns (failed, left b s)
  after_recv_loop notifyred left (returns (ok, b, s)) = notifyred b s
