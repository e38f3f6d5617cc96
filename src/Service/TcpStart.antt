-- ===== src/Service/TcpStart.antt =====
-- ExtNet/Net/TcpService.cpp: how the service of plain connections starts and stops to listen. The code is
-- that of WsService (`Start`) once more; here it is a chain of calls that may fail.
use multithread_libevent_exa.Prelude.{
  ℕ, ◌≡◌, refl, ap, ◌∙◌, Bool, true, false, Option, none, some, arith,
}
use multithread_libevent_exa.Listener.{Listener, Opened, opened, failed, after_listen}
use multithread_libevent_exa.Listener.Net.{Net}
use multithread_libevent_exa.Service.Start.{
  make_reuseable, lister_bound, lister_nonblocking, lister_socket, open_lister, on_start,
  stop_listening, started,
}

-- `SetAddrAndPort`.
unfoldable pub tcp_set_addr_and_port : Listener → ℕ → ℕ → Listener
tcp_set_addr_and_port l addr port = record l { addr = addr; port = port }

module _ (net : Net) where
  open net use {State}

  -- `openLister`: a call that fails ends it with the fields as they are.
  abbrev pub checked :
      Listener → Bool × State → (State → Opened × Listener × State) → Opened × Listener × State
  checked l (false, s) go = (failed, l, s)
  checked l (true, s) go = go s

  unfoldable pub tcp_on_socket : Listener → ℕ → State → Opened × Listener × State
  tcp_on_socket l fd s =
      checked l (net.make_nonblocking (net.setsockopt (net.setsockopt s fd 2).1 fd 15).1 fd) λ s1.
        checked l (net.bind s1 fd l.addr l.port) λ s2.
          checked l (net.listen s2 fd 256)
            λ s3. (opened, record l { ev = true }, net.event_add s3 fd)

  unfoldable pub tcp_after_socket : Listener → Option ℕ × State → Opened × Listener × State
  tcp_after_socket l (none, s) = (failed, record l { fd = none }, s)
  tcp_after_socket l (some fd, s) = tcp_on_socket (record l { fd = some fd }) fd s

  unfoldable pub tcp_open_lister : Listener → State → Opened × Listener × State
  tcp_open_lister l s = tcp_after_socket l (net.socket s)

  -- `OnStart`.
  unfoldable pub is_opened : Opened → Bool
  is_opened opened = true
  is_opened failed = false

  unfoldable pub tcp_on_start : Listener → State → Bool × Listener × State
  tcp_on_start l s = let (o, l', s') = tcp_open_lister l s in (is_opened o, l', s')

  -- `OnStop`, but for the connections.
  unfoldable pub tcp_stop_listening : Listener → State → Option State
  tcp_stop_listening l s = elim l.fd [
    | none ↦ none
    | some fd ↦ elim l.ev [ true ↦ some (net.close (net.event_free s fd) fd) | false ↦ none ]
  ]

  -- Each call ends the two in the same way.
  event_lem :
      (l : Listener) (fd : ℕ) (r : Bool × State)
      → (checked l r λ s3. (opened, record l { ev = true }, net.event_add s3 fd))
        ≡ after_listen net l fd r
  unfolding after_listen
  event_lem l fd (false, s) = refl
  event_lem l fd (true, s) = refl

  listen_lem :
      (l : Listener) (fd : ℕ) (r : Bool × State)
      → (checked l r λ s2.
          checked l
            (net.listen s2 fd 256)
            λ s3. (opened, record l { ev = true }, net.event_add s3 fd))
        ≡ lister_bound net l fd r
  unfolding lister_bound
  listen_lem l fd (false, s) = refl
  listen_lem l fd (true, s) = event_lem l fd (net.listen s fd 256)

  bind_lem :
      (l : Listener) (fd : ℕ) (r : Bool × State)
      → (checked l r λ s1. checked l (net.bind s1 fd l.addr l.port) λ s2.
          checked l
            (net.listen s2 fd 256)
            λ s3. (opened, record l { ev = true }, net.event_add s3 fd))
        ≡ lister_nonblocking net l fd r
  unfolding lister_nonblocking
  bind_lem l fd (false, s) = refl
  bind_lem l fd (true, s) = listen_lem l fd (net.bind s fd l.addr l.port)

  socket_lem : (l : Listener) (r : Option ℕ × State) → tcp_after_socket l r ≡ lister_socket net l r
  unfolding tcp_after_socket tcp_on_socket lister_socket make_reuseable
  socket_lem l (none, s) = refl
  socket_lem l (some fd, s) = bind_lem (record l { fd = some fd }) fd _

  started_lem :
      (r : Opened × Listener × State) → (let (o, l, s) = r in (is_opened o, l, s)) ≡ started net r
  unfolding is_opened started
  started_lem (opened, l, s) = refl
  started_lem (failed, l, s) = refl

  -- The two services start to listen in the same way.
  pub tcp_on_start_lem : (l : Listener) (s : State) → tcp_on_start l s ≡ on_start net l s
  unfolding tcp_on_start tcp_open_lister on_start open_lister
  tcp_on_start_lem l s =
      started_lem (tcp_after_socket l (net.socket s))
      ∙ ap (started net) (socket_lem l (net.socket s))

  pub tcp_stop_listening_lem :
      (l : Listener) (s : State) → tcp_stop_listening l s ≡ stop_listening net l s
  unfolding tcp_stop_listening stop_listening
  tcp_stop_listening_lem l s = ground arith
