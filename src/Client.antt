-- ===== src/Client.antt =====
-- client.cc: the program that sends what is typed to the server, each piece as a packet, and prints what
-- comes back. `Bufferevent` is what it uses of libevent; once freed, it is `none`.
pub mod Print
pub mod Send
mod Tests
use multithread_libevent_exa.Prelude.{
  ℕ, zero, ◌+◌, ◌%◌, ◌^◌, ◌≤◌, Bool, true, false, List, [], ◌∷◌, ◌++◌, Option, none, some, length,
  replicate, store, leb, ◌==◌, if◌then◌else◌,
}
use multithread_libevent_exa.MemoryBuff.{◌>>=◌}
use multithread_libevent_exa.Packets.{head_size}
use multithread_libevent_exa.Packets.Encode.{le_bytes}

-- `bufferevent_read`, which gives at most as many bytes as it is asked for, `bufferevent_write` and
-- `bufferevent_free`.
pub record Bufferevent : Type 1 where
  pub State : Type 0
  pub read : State → ℕ → List ℕ × State
  pub write : State → List ℕ → State
  pub read-length : (s : State) (n : ℕ) → length (read s n).0 ≤ n

abbrev pub buff_size : ℕ
buff_size = 1024

-- `char buff[1024] = {0}` with `bs` at its front.
abbrev pub buff_of : List ℕ → List ℕ
buff_of bs = store (replicate buff_size 0) 0 bs

-- What `%s` prints of a block of memory; `none` is a string that does not end in it.
unfoldable pub c_string : List ℕ → Option (List ℕ)
c_string [] = none
c_string (b ∷ bs) =
    let rest = c_string bs in if b == 0 then some [] else (do s ← rest; some (b ∷ s))

-- The bytes at `sendbuff` that `read_terminal` writes: the head, and what was read behind it. What does not
-- fit the block is written past it. The conversion of the length to 16 bits is that of `_len`.
unfoldable pub send_buff : List ℕ → Option (List ℕ)
send_buff bs =
    if leb (head_size + length bs) buff_size
    then some (le_bytes 2 ((head_size + length bs) % 2 ^ 16) ++ (le_bytes 2 100 ++ bs))
    else none

-- The bits of `events`.
pub record Events : Type 0 where
  pub eof : Bool
  pub error : Bool
  pub connected : Bool

module _ (bufferevent : Bufferevent) where
  open bufferevent use {State}

  -- `read_cb`: what it prints. `none` is an access that has no defined behaviour.
  unfoldable pub read_cb : Option State → Option (List ℕ × State)
  read_cb bev = do
    s ← bev
    str ← c_string (buff_of (bufferevent.read s 1024).0)
    some (str, (bufferevent.read s 1024).1)

  -- `write_cb`, which throws away what it reads.
  unfoldable pub write_cb : Option State → Option State
  write_cb bev = do s ← bev; some (bufferevent.read s 1024).1

  -- `event_cb`: which of its branches ends before the free.
  unfoldable pub keeps : Events → Bool
  keeps e = if e.eof then false else (if e.error then false else e.connected)

  unfoldable pub event_cb : Events → Option State → Option (Option State)
  event_cb e none = if keeps e then some none else none
  event_cb e (some s) = if keeps e then some (some s) else some none

  -- `read_terminal`, on what `read` gives; `none` is -1, with which `memcpy` runs away.
  unfoldable pub read_terminal : Option (List ℕ) → Option State → Option State
  read_terminal none bev = none
  read_terminal (some bs) bev = do
    str ← c_string (buff_of bs)
    packet ← send_buff bs
    s ← bev
    some (bufferevent.write s packet)
