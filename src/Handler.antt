-- ===== src/Handler.antt =====
-- handler.h and handler.cc: the echo handler of one connection.
-- The socket is a parameter (`Handler.Socket`), and so is the memory that `new` returns (`fresh`). The
-- event of libevent is modelled by what it waits for: an event without EV_PERSIST, as all of these, no
-- longer waits when its callback runs, and `event_add` makes it wait again.
pub mod Socket
pub mod Pipe
pub mod Reading
pub mod Writing
pub mod Stream
pub mod Run
mod Tests
use multithread_libevent_exa.Prelude.{
  ℕ, zero, suc, ◌≡◌, Bool, true, false, List, [], ◌∷◌, Option, none, some, length, take, ltb, ◌==◌,
  if◌then◌else◌,
}
use multithread_libevent_exa.Buffer.{
  Buffer, init, push, drain, data_chunk, space_chunk, store_space, space_have_seted,
}
use Socket.{Errno, Recv, received, recv_error, Write, wrote, write_error, read_later, write_later}

-- `EV_READ` or `EV_WRITE`, with the timeout in seconds.
pub data Event : Type 0 where
  ev_read ev_write : ℕ → Event

-- `fd` is `none` for -1; `ev` is what the event waits for, if it waits.
pub record Handler : Type 0 where
  pub fd : Option ℕ
  pub ev : Option Event
  pub read_buf : Buffer
  pub write_buf : Buffer

-- The constructor on a socket that `evutil_make_socket_nonblocking` accepts (`nonblocking`): otherwise
-- it closes the socket and throws, and there is no handler.
unfoldable pub new_handler : Bool → ℕ → Option Handler
new_handler nonblocking fd =
    if nonblocking
    then some (record { fd = some fd; ev = some (ev_read 60); read_buf = init; write_buf = init })
    else none

-- The destructor: the event is deleted and the socket closed.
unfoldable pub close : Handler → Handler
close h = record h { fd = none; ev = none }

-- The return value of `handleRead` and `handleWrite`: 0 or -1.
pub data Status : Type 0 where
  ok failed : Status

-- The end of `handleRead` and of `handleWrite`: wait to write if there is something to write.
unfoldable pub arm : Handler → Handler
arm h = record h { ev = some (if h.write_buf.size == 0 then ev_read 10 else ev_write 10) }

-- `short what` of the callback.
pub record What : Type 0 where
  pub timeout : Bool
  pub read : Bool
  pub write : Bool

-- The echo loop of `handleRead`, on fuel: the read buffer goes to the write buffer, chunk by chunk.
pub echo_loop : (ℕ → List ℕ) → ℕ → Buffer → Buffer → Option (Buffer × Buffer)
echo_loop fresh zero r w = none
echo_loop fresh (suc fuel) r w = elim (r.size == 0) [
  | true ↦ some (r, w)
  | false ↦ elim (data_chunk r) [
    | none ↦ none
    | some (m, len) ↦ echo_loop fresh fuel (drain r len).0 (push fresh w (take len m)).0
  ]
]

module _ (fresh : ℕ → List ℕ) (socket : Socket.Socket) where
  open socket use {State}

  -- What follows `recv` in `handleRead`'s loop, with `b` the read buffer that `spaceChunk` left and
  -- `go` the rounds that follow. `some (failed, …)` is `return -1`, `some (ok, …)` is `break`.
  pub read_round :
      (Buffer → State → Option (Status × Buffer × State))
      → Buffer
      → ℕ
      → Recv × State
      → Option (Status × Buffer × State)
  read_round go b len (recv_error e, s) = some (if read_later e then ok else failed, b, s)
  read_round go b len (received [], s) = some (failed, b, s)
  read_round go b len (received (x ∷ src), s) =
      elim (space_have_seted (store_space b (x ∷ src)) (length (x ∷ src))) [
        | none ↦ none
        | some b' ↦ elim (ltb (length (x ∷ src)) len) [ true ↦ some (ok, b', s) | false ↦ go b' s ]
      ]

  -- The loop of `handleRead`, on fuel.
  pub read_loop : ℕ → Buffer → State → Option (Status × Buffer × State)
  read_loop zero b s = none
  read_loop (suc fuel) b s =
      let (b', region, len) = space_chunk fresh b in
      read_round (read_loop fuel) b' len (socket.recv s len)

  -- What follows the loop in `handleRead`: the echo, and the event.
  pub after_read_loop :
      Handler → Option (Status × Buffer × State) → Option (Status × Handler × State)
  after_read_loop h none = none
  after_read_loop h (some (failed, r, s)) = some (failed, record h { read_buf = r }, s)
  after_read_loop h (some (ok, r, s)) = elim (echo_loop fresh (suc r.size) r h.write_buf) [
    | none ↦ none
    | some (r', w) ↦ some (ok, arm (record h { read_buf = r'; write_buf = w }), s)
  ]

  -- `handleRead`. `none` is a loop that has used up its fuel, or undefined behaviour.
  unfoldable pub handle_read : ℕ → Handler → State → Option (Status × Handler × State)
  handle_read fuel h s = after_read_loop h (read_loop fuel h.read_buf s)

  -- What follows `write` in `handleWrite`'s loop. A `return` inside the loop leaves out what stands
  -- behind it: the third part says whether the loop ended by its test.
  pub write_round :
      (Buffer → State → Option (Status × Bool × Buffer × State))
      → Buffer
      → Write × State
      → Option (Status × Bool × Buffer × State)
  write_round go b (write_error e, s) = some (if write_later e then ok else failed, false, b, s)
  write_round go b (wrote zero e, s) = some (if write_later e then ok else failed, false, b, s)
  write_round go b (wrote (suc n) e, s) = go (drain b (suc n)).0 s

  pub write_loop : ℕ → Buffer → State → Option (Status × Bool × Buffer × State)
  write_loop zero b s = none
  write_loop (suc fuel) b s = elim (b.size == 0) [
    | true ↦ some (ok, true, b, s)
    | false ↦ elim (data_chunk b) [
      | none ↦ none
      | some (m, len) ↦ write_round (write_loop fuel) b (socket.write s (take len m))
    ]
  ]

  -- What follows the loop in `handleWrite`.
  pub after_write_loop :
      Handler → Option (Status × Bool × Buffer × State) → Option (Status × Handler × State)
  after_write_loop h none = none
  after_write_loop h (some (st, false, w, s)) = some (st, record h { write_buf = w }, s)
  after_write_loop h (some (st, true, w, s)) = some (st, arm (record h { write_buf = w }), s)

  -- `handleWrite`.
  unfoldable pub handle_write : Handler → State → Option (Status × Handler × State)
  handle_write h s = after_write_loop h (write_loop (suc h.write_buf.size) h.write_buf s)

  -- `handler_event_cb` once EV_TIMEOUT is excluded; `true` says that the handler was deleted.
  pub after_write : Option (Status × Handler × State) → Option (Bool × Handler × State)
  after_write none = none
  after_write (some (ok, h, s)) = some (false, h, s)
  after_write (some (failed, h, s)) = some (true, close h, s)

  pub after_read : Bool → Option (Status × Handler × State) → Option (Bool × Handler × State)
  after_read write none = none
  after_read write (some (failed, h, s)) = some (true, close h, s)
  after_read write (some (ok, h, s)) =
      if write then after_write (handle_write h s) else some (false, h, s)

  unfoldable pub handler_event_cb : ℕ → What → Handler → State → Option (Bool × Handler × State)
  handler_event_cb fuel what h s =
      let fired = record h { ev = none } in
      if what.timeout
      then some (true, close fired, s)
      else after_read what.write
          (if what.read then handle_read fuel fired s else some (ok, fired, s))
