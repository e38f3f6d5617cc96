-- ===== src/Service/Start.antt =====
-- ExtNet/Net/WsService.cpp: how a service starts and stops to listen. `_addr`, `_port`, `_listenfd` and
-- `_ev` are the fields of `Listener`, and `event_new` with `event_add` is the same as there. The event base,
-- and what becomes of the address before `bind`, are left out.
use multithread_libevent_exa.Prelude.{
  ℕ, ◌≡◌, refl, ◌∙◌, Bool, true, false, List, ◌∷◌, Option, none, some, if◌then◌else◌,
}
use multithread_libevent_exa.Listener.{Listener, Opened, opened, failed, after_listen}
use multithread_libevent_exa.Listener.Net.{Net}
use multithread_libevent_exa.Listener.Open.{
  Left, waiting, half_open, nothing, Going, failed_lem, Going-on, after_listen_lem,
}

-- `SetAddrAndPort`.
unfoldable pub set_addr_and_port : Listener → ℕ → ℕ → Listener
set_addr_and_port l addr port = record l { addr = addr; port = port }

module _ (net : Net) where
  open net use {State}

  -- `openLister` behind each of its calls, up to the first that fails. The two calls that make the address
  -- and the port reuseable (SO_REUSEADDR is 2, SO_REUSEPORT is 15) are not checked.
  unfoldable pub lister_bound : Listener → ℕ → Bool × State → Opened × Listener × State
  lister_bound l fd (false, s) = (failed, l, s)
  lister_bound l fd (true, s) = after_listen net l fd (net.listen s fd 256)

  unfoldable pub lister_nonblocking : Listener → ℕ → Bool × State → Opened × Listener × State
  lister_nonblocking l fd (false, s) = (failed, l, s)
  lister_nonblocking l fd (true, s) = lister_bound l fd (net.bind s fd l.addr l.port)

  unfoldable pub make_reuseable : State → ℕ → State
  make_reuseable s fd = (net.setsockopt (net.setsockopt s fd 2).1 fd 15).1

  unfoldable pub lister_socket : Listener → Option ℕ × State → Opened × Listener × State
  lister_socket l (none, s) = (failed, record l { fd = none }, s)
  lister_socket l (some fd, s) =
      lister_nonblocking (record l { fd = some fd }) fd
        (net.make_nonblocking (make_reuseable s fd) fd)

  -- `openLister`.
  unfoldable pub open_lister : Listener → State → Opened × Listener × State
  open_lister l s = lister_socket l (net.socket s)

  -- `OnStart`: the thread of the loop is started if `openLister` returned 0. The Boolean is what it returns.
  unfoldable pub started : Opened × Listener × State → Bool × Listener × State
  started (opened, l, s) = (true, l, s)
  started (failed, l, s) = (false, l, s)

  unfoldable pub on_start : Listener → State → Bool × Listener × State
  on_start l s = started (open_lister l s)

  -- `OnStop`, but for the connections: `none` is a call on an event or a descriptor that is not there.
  unfoldable pub stop_listening : Listener → State → Option State
  stop_listening l s = elim l.fd [
    | none ↦ none
    | some fd ↦ if l.ev then some (net.close (net.event_free s fd) fd) else none
  ]

  make_reuseable-keeps :
      (s : State) (fd : ℕ)
      → (net.open_fds (make_reuseable s fd) ≡ net.open_fds s)
        × (net.watched (make_reuseable s fd) ≡ net.watched s)
  unfolding make_reuseable
  make_reuseable-keeps s fd =
      let (o, w) = net.setsockopt_keeps s fd 2 in
      let (o', w') = net.setsockopt_keeps (net.setsockopt s fd 2).1 fd 15 in (o' ∙ o, w' ∙ w)

  lister_bound_lem :
      (fds ws : List ℕ) (l : Listener) (fd : ℕ) (r : Bool × State)
      → Going net fds ws l fd r.1
      → Left net fds ws (lister_bound l fd r)
  unfolding lister_bound
  lister_bound_lem fds ws l fd (false, s) g = failed_lem net fds ws l fd s g
  lister_bound_lem fds ws l fd (true, s) g =
      after_listen_lem net fds ws l fd (net.listen s fd 256)
        (Going-on net fds ws l fd s (net.listen s fd 256).1 g (net.listen_keeps s fd 256))

  lister_nonblocking_lem :
      (fds ws : List ℕ) (l : Listener) (fd : ℕ) (r : Bool × State)
      → Going net fds ws l fd r.1
      → Left net fds ws (lister_nonblocking l fd r)
  unfolding lister_nonblocking
  lister_nonblocking_lem fds ws l fd (false, s) g = failed_lem net fds ws l fd s g
  lister_nonblocking_lem fds ws l fd (true, s) g =
      let r = net.bind s fd l.addr l.port in
      lister_bound_lem fds ws l fd r
        (Going-on net fds ws l fd s r.1 g (net.bind_keeps s fd l.addr l.port))

  lister_socket_lem :
      (l : Listener) (s : State) (r : Option ℕ × State)
      → l.ev ≡ false
      → net.socket s ≡ r
      → Left net (net.open_fds s) (net.watched s) (lister_socket l r)
  unfolding lister_socket
  lister_socket_lem l s (none, s') q e =
      let (o, w) = net.socket_fails s s' e in nothing (record l { fd = none }) s' refl q o w
  lister_socket_lem l s (some fd, s') q e =
      let (o, w) = net.socket_opens s s' fd e in
      let (o', w') = make_reuseable-keeps s' fd in
      let s1 = make_reuseable s' fd in
      let r = net.make_nonblocking s1 fd in
      let l' = record l { fd = some fd } in
      let g : Going net (net.open_fds s) (net.watched s) l' fd s1 = record {
        kept = refl;
        quiet = q;
        fd_open = o' ∙ o;
        unwatched = w' ∙ w;
      } in
      lister_nonblocking_lem (net.open_fds s) (net.watched s) l' fd r (
        Going-on net (net.open_fds s) (net.watched s) l' fd s1 r.1 g
          (net.make_nonblocking_keeps s1 fd))

  -- What a start leaves: a service that listens, which `OnStop` takes back as it was; or a failure, where
  -- no event was added and the descriptor, if there is one, is open.
  pub data Starts (fds ws : List ℕ) : Bool × Listener × State → Type 0 where
    listens :
        (l : Listener) (fd : ℕ) (s s' : State)
        → l.fd ≡ some fd
        → net.open_fds s ≡ fd ∷ fds
        → net.watched s ≡ fd ∷ ws
        → stop_listening l s ≡ some s'
        → net.open_fds s' ≡ fds
        → net.watched s' ≡ ws
        → Starts fds ws (true, l, s)
    leaks :
        (l : Listener) (fd : ℕ) (s : State)
        → net.open_fds s ≡ fd ∷ fds
        → net.watched s ≡ ws
        → Starts fds ws (false, l, s)
    no_socket :
        (l : Listener) (s : State)
        → net.open_fds s ≡ fds
        → net.watched s ≡ ws
        → Starts fds ws (false, l, s)

  Left-Starts :
      (fds ws : List ℕ) (r : Opened × Listener × State)
      → Left net fds ws r
      → Starts fds ws (started r)
  unfolding started stop_listening
  Left-Starts fds ws r (waiting l fd s f v o w) =
      let (o1, w1) = net.event_free_unwatches s fd ws w in
      let (o2, w2) = net.close_closes (net.event_free s fd) fd fds (o1 ∙ o) in
      listens l fd s (net.close (net.event_free s fd) fd) f o w
        (rw (f, stop_listening) (rw (v, stop_listening) refl)) o2 (w2 ∙ w1)
  Left-Starts fds ws r (half_open l fd s f v o w) = leaks l fd s o w
  Left-Starts fds ws r (nothing l s f v o w) = no_socket l s o w

  -- Whichever of the calls of the system fails, OnStart on a service that has no event ends in one of
  -- three ways: it returns true, one descriptor was opened and its event waits, and what OnStop does
  -- to them leaves open and waiting what was before; it returns false, one descriptor was opened and
  -- stays open, and no event was added; or it returns false with the open descriptors and waiting
  -- events as before.
  pub on_start_lem :
      (l : Listener) (s : State)
      → l.ev ≡ false
      → Starts (net.open_fds s) (net.watched s) (on_start l s)
  unfolding on_start open_lister
  on_start_lem l s q =
      Left-Starts (net.open_fds s) (net.watched s) (open_lister l s)
        (lister_socket_lem l s (net.socket s) q refl)
