-- ===== src/Listener.antt =====
-- listener.h and listener.cc: the listening socket of an event loop.
-- The system's calls are a parameter (`Listener.Net`). What `handle_` does with an accepted descriptor
-- is a function on a state of its own; `disp_` is part of that function.
pub mod Net
pub mod System
pub mod Open
pub mod Accept
mod Tests
use multithread_libevent_exa.Prelude.{ℕ, zero, suc, Bool, true, false, Option, none, some}

-- `fd` is `none` for -1, and `ev` says whether `ev_` holds an event.
pub record Listener : Type 0 where
  pub addr : ℕ
  pub port : ℕ
  pub fd : Option ℕ
  pub ev : Bool

-- The constructor.
unfoldable pub new_listener : ℕ → ℕ → Listener
new_listener addr port = record { addr = addr; port = port; fd = none; ev = false }

-- The return value of `open`: 0 or -1.
pub data Opened : Type 0 where
  opened failed : Opened

-- `opt`: SO_REUSEADDR is 2 and SO_REUSEPORT is 15 on Linux, and 2 | 15 is 15.
abbrev pub reuse_option : ℕ
reuse_option = 15

module _ (net : Net.Net) where
  open net use {State}

  -- `open` after `listen`: the event is made and added.
  unfoldable pub after_listen : Listener → ℕ → Bool × State → Opened × Listener × State
  after_listen l fd (false, s) = (failed, l, s)
  after_listen l fd (true, s) = (opened, record l { ev = true }, net.event_add s fd)

  pub after_bind : Listener → ℕ → Bool × State → Opened × Listener × State
  after_bind l fd (false, s) = (failed, l, s)
  after_bind l fd (true, s) = after_listen l fd (net.listen s fd 512)

  pub after_nonblocking : Listener → ℕ → Bool × State → Opened × Listener × State
  after_nonblocking l fd (false, s) = (failed, l, s)
  after_nonblocking l fd (true, s) = after_bind l fd (net.bind s fd l.addr l.port)

  pub after_setsockopt : Listener → ℕ → Bool × State → Opened × Listener × State
  after_setsockopt l fd (false, s) = (failed, l, s)
  after_setsockopt l fd (true, s) = after_nonblocking l fd (net.make_nonblocking s fd)

  pub after_socket : Listener → Option ℕ × State → Opened × Listener × State
  after_socket l (none, s) = (failed, record l { fd = none }, s)
  after_socket l (some fd, s) =
      after_setsockopt (record l { fd = some fd }) fd (net.setsockopt s fd reuse_option)

  -- `open`, up to the first call that fails.
  unfoldable pub open_listener : Listener → State → Opened × Listener × State
  open_listener l s = after_socket l (net.socket s)

  -- The destructor: the event first, and then the descriptor. An event without a descriptor, which only
  -- a second `open` that fails could leave, is not followed.
  pub free_event : Bool → ℕ → State → State
  free_event false fd s = s
  free_event true fd s = net.event_free s fd

  pub close_fd : Option ℕ → Bool → State → State
  close_fd none ev s = s
  close_fd (some fd) ev s = net.close (free_event ev fd s) fd

  unfoldable pub delete_listener : Listener → State → State
  delete_listener l s = close_fd l.fd l.ev s

  module _ {A : Type 0} (handle : A → ℕ → A) where
    -- A round of `doAccept`'s loop, behind `accept`, with `go` the rounds that follow.
    pub accept_round : (A → State → Option (A × State)) → A → Option ℕ × State → Option (A × State)
    accept_round go a (none, s) = some (a, s)
    accept_round go a (some c, s) = go (handle a c) s

    -- `doAccept`, on fuel.
    pub do_accept : ℕ → ℕ → A → State → Option (A × State)
    do_accept zero fd a s = none
    do_accept (suc fuel) fd a s = accept_round (do_accept fuel fd) a (net.accept s fd)

    -- `listener_event_cb`, by whether EV_READ is among the events.
    unfoldable pub listener_event_cb : Bool → ℕ → ℕ → A → State → Option (A × State)
    listener_event_cb false fuel fd a s = some (a, s)
    listener_event_cb true fuel fd a s = do_accept fuel fd a s
