-- ===== src/Service/Tcp.antt =====
-- ExtNet/Net/TcpService.cpp and ExtNet/tcp/TcpConnectMgr.cpp: the service of plain connections. Its state
-- is that of WsService without the packets, and the connections are deleted in the same way.
use multithread_libevent_exa.Prelude.{
  ℕ, suc, ◌+◌, ◌%◌, ◌^◌, ◌<◌, ◌≡◌, refl, sym, subst, ◌∙◌, Bool, true, false, [], ◌∷◌, Option, none,
  some,
}
use multithread_libevent_exa.Service.{
  Conn, Service, find, insert, do_accept, make_unique_id, new_connect, client_read_cb,
}
use multithread_libevent_exa.Service.Registry.{count, IsRegistered}
use multithread_libevent_exa.Service.Keep.{do_accept-IsRegistered, client_read_cb_lem}

-- The constructors. TcpConnectMgr gives `_UniqueId` no value, so that it may be any number.
unfoldable pub new_tcp_service : ℕ → Service
new_tcp_service n = record {
  connect_mgr = [];
  unique_id = n % 2 ^ 32;
  objects = [];
  packlist = [];
  accepted = [];
  closed = [];
}

-- `NewConnect` with `Make_uniqueId`.
unfoldable pub tcp_new_connect : Service → ℕ → ℕ → Service
tcp_new_connect s addr fd = record s {
  unique_id = (s.unique_id + 1) % 2 ^ 32;
  objects = (addr, record { conn_id = s.unique_id; fd = fd }) ∷ s.objects;
  connect_mgr = insert s.unique_id addr s.connect_mgr;
}

-- `doAccept` on what `accept` returned, with -1 as `none`, and whether the descriptor could be made
-- non-blocking. The call of `close` on -1 does nothing.
unfoldable pub tcp_do_accept : Service → ℕ → Option ℕ → Bool → Service
tcp_do_accept s addr none nonblocking = s
tcp_do_accept s addr (some fd) false = record s {
  accepted = fd ∷ s.accepted;
  closed = fd ∷ s.closed;
}
tcp_do_accept s addr (some fd) true =
    tcp_new_connect (record s { accepted = fd ∷ s.accepted }) addr fd

-- What happens to a service: a connection is accepted, at an address that `new` finds free, and with a
-- number that does not come round to 0; or a callback comes for a live connection.
pub data TcpStep (s u : Service) : Type 0 where
  accepts :
      (addr : ℕ) (accepted : Option ℕ) (nonblocking : Bool)
      → find addr s.objects ≡ none
      → suc s.unique_id < 2 ^ 32
      → u ≡ tcp_do_accept s addr accepted nonblocking
      → TcpStep s u
  reads :
      (addr : ℕ) (c : Conn) (failed : Bool)
      → find addr s.objects ≡ some c
      → client_read_cb s addr failed ≡ some u
      → TcpStep s u

pub data TcpReach (s : Service) : Service → Type 0 where
  here : TcpReach s s
  later : {t u : Service} → TcpReach s t → TcpStep t u → TcpReach s u

new_tcp_service-IsRegistered : (n : ℕ) → IsRegistered (new_tcp_service n)
unfolding new_tcp_service count
new_tcp_service-IsRegistered n = record { same = refl; numbered = tt; balanced = λ fd. refl }

-- The two services accept in the same way.
tcp_do_accept_lem :
    (s : Service) (addr : ℕ) (accepted : Option ℕ) (nonblocking : Bool)
    → tcp_do_accept s addr accepted nonblocking ≡ do_accept s addr accepted nonblocking
unfolding tcp_do_accept tcp_new_connect do_accept new_connect make_unique_id
tcp_do_accept_lem s addr none nonblocking = refl
tcp_do_accept_lem s addr (some fd) false = refl
tcp_do_accept_lem s addr (some fd) true = refl

TcpStep-IsRegistered : {s u : Service} → TcpStep s u → IsRegistered s → IsRegistered u
TcpStep-IsRegistered {s} (accepts addr a nb free few e) i =
    subst IsRegistered (sym (e ∙ tcp_do_accept_lem s addr a nb))
      (do_accept-IsRegistered s addr a nb i free few)
TcpStep-IsRegistered {s} {u} (reads addr c failed f e) i =
    let (s1, r, r', o, i1) = client_read_cb_lem s addr c failed i f in
    subst IsRegistered (from_some (sym r' ∙ e)) i1
  where
    from_some : {s1 : Service} → some s1 ≡ some u → s1 ≡ u
    from_some h = cc

pub TcpReach-IsRegistered : (n : ℕ) {u : Service} → TcpReach (new_tcp_service n) u → IsRegistered u
TcpReach-IsRegistered n here = new_tcp_service-IsRegistered n
TcpReach-IsRegistered n (later r st) = TcpStep-IsRegistered st (TcpReach-IsRegistered n r)
