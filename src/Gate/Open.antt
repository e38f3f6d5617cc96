-- ===== src/Gate/Open.antt =====
-- GateServer.cpp, `OpenServer`: which services listen when it returns.
use multithread_libevent_exa.Prelude.{
  ℕ, ◌≡◌, ◌⊎◌, inl, inr, sym, subst, Bool, false, List, ◌∷◌, some,
}
use multithread_libevent_exa.Listener.{Listener}
use multithread_libevent_exa.Listener.Net.{Net}
use multithread_libevent_exa.Service.Start.{
  set_addr_and_port, on_start, on_start_lem, Starts, listens, leaks, no_socket,
}
use multithread_libevent_exa.Service.TcpStart.{
  tcp_set_addr_and_port, tcp_on_start, tcp_on_start_lem,
}
use multithread_libevent_exa.Gate.{
  Answer, ws_failed, tcp_failed, no_value, tcp_started, ws_started, open_server,
}

module _ (net : Net) where
  open net use {State}

  -- A descriptor may have been left open.
  abbrev Remain : List ℕ → List ℕ → Type 0
  Remain fds left = (left ≡ fds) ⊎ ((fd : ℕ) × (left ≡ fd ∷ fds))

  pub data Opens (fds watched : List ℕ) : Answer × Listener × Listener × State → Type 0 where
    both_listen :
        (ws tcp : Listener) (fw ft : ℕ) (s : State)
        → ws.fd ≡ some fw
        → tcp.fd ≡ some ft
        → net.open_fds s ≡ ft ∷ (fw ∷ fds)
        → net.watched s ≡ ft ∷ (fw ∷ watched)
        → Opens fds watched (no_value, ws, tcp, s)
    ws_listens :
        (ws tcp : Listener) (fw : ℕ) (s : State)
        → ws.fd ≡ some fw
        → Remain (fw ∷ fds) (net.open_fds s)
        → net.watched s ≡ fw ∷ watched
        → Opens fds watched (tcp_failed, ws, tcp, s)
    none_listens :
        (ws tcp : Listener) (s : State)
        → Remain fds (net.open_fds s)
        → net.watched s ≡ watched
        → Opens fds watched (ws_failed, ws, tcp, s)

  tcp_started_lem :
      (fds watched : List ℕ) (ws : Listener) (fw : ℕ) (r : Bool × Listener × State)
      → ws.fd ≡ some fw
      → Starts net (fw ∷ fds) (fw ∷ watched) r
      → Opens fds watched (tcp_started net ws r)
  unfolding tcp_started
  tcp_started_lem fds watched ws fw r e (listens tcp ft s s' f o w st o' w') =
      both_listen ws tcp fw ft s e f o w
  tcp_started_lem fds watched ws fw r e (leaks tcp ft s o w) =
      ws_listens ws tcp fw s e (inr (ft, o)) w
  tcp_started_lem fds watched ws fw r e (no_socket tcp s o w) = ws_listens ws tcp fw s e (inl o) w

  ws_started_lem :
      (fds watched : List ℕ) (tcp : Listener) (r : Bool × Listener × State)
      → tcp.ev ≡ false
      → Starts net fds watched r
      → Opens fds watched (ws_started net tcp r)
  unfolding ws_started tcp_set_addr_and_port
  ws_started_lem fds watched tcp r q (listens ws fw s s' f o w st o' w') =
      let l = tcp_set_addr_and_port tcp 0 10087 in
      let starts =
        subst (Starts net (net.open_fds s) (net.watched s)) (sym (tcp_on_start_lem net l s))
          (on_start_lem net l s q) in
      tcp_started_lem fds watched ws fw (tcp_on_start net l s) f (
        subst (λ x. Starts net x (fw ∷ watched) (tcp_on_start net l s)) o
          (subst (λ x. Starts net (net.open_fds s) x (tcp_on_start net l s)) w starts))
  ws_started_lem fds watched tcp r q (leaks ws fw s o w) = none_listens ws tcp s (inr (fw, o)) w
  ws_started_lem fds watched tcp r q (no_socket ws s o w) = none_listens ws tcp s (inl o) w

  -- OpenServer, on two services that have no event and whichever of the calls of the system fails,
  -- ends in one of three ways. It comes to its end, and both services listen on descriptors of their
  -- own, opened one after the other. It returns -2, and the WsService goes on to listen, while no
  -- event of the TcpService waits, whose descriptor may be open. Or it returns -1, and no event was
  -- added, while one descriptor may have been left open.
  pub open_server-Opens :
      (ws tcp : Listener) (s : State)
      → ws.ev ≡ false
      → tcp.ev ≡ false
      → Opens (net.open_fds s) (net.watched s) (open_server net ws tcp s)
  unfolding open_server set_addr_and_port
  open_server-Opens ws tcp s p q =
      ws_started_lem (net.open_fds s) (net.watched s) tcp
        (on_start net (set_addr_and_port ws 0 10086) s) q
        (on_start_lem net (set_addr_and_port ws 0 10086) s p)
