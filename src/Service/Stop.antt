-- ===== src/Service/Stop.antt =====
-- ExtNet/Net/WsService.cpp, ExtNet/Net/TcpService.cpp and the registries: `OnStop` deletes the connections in
-- the thread that stops the service, while the loop's thread may still run callbacks.
use multithread_libevent_exa.Prelude.{
  ℕ, suc, ◌≡◌, ◌≢◌, refl, sym, ap, subst, ◌∙◌, arith, Bool, true, List, [], ◌∷◌, Option, some, ≡→==,
  length,
}
use multithread_libevent_exa.Service.{
  Conn, Service, new_service, find, erase, delete_object, client_read_cb, ws_client_read_cb,
  stop_round, add_pack, swap_packs,
}
use multithread_libevent_exa.Service.Registry.{
  count, entries, fds_of, Apart, Numbered, IsRegistered, erase-Apart, count_cons, count_nil,
}
use multithread_libevent_exa.Service.Keep.{delete_object_lem, client_read_cb_lem}
use multithread_libevent_exa.Service.History.{Reach, Reach-IsRegistered}
use multithread_libevent_exa.Service.Tcp.{new_tcp_service, TcpReach, TcpReach-IsRegistered}

-- What happens once `OnStop` has deleted the event of the listening socket, so that nothing more is
-- accepted: a round of its loop; the callback of a connection, `callback` of the service, whose read has
-- failed, but not of the one to which the loop is to come next; a packet comes, or is taken. A callback
-- whose read has not failed changes nothing here.
pub data StopStep (callback : Service → ℕ → Bool → Option Service) (s u : Service) : Type 0 where
  deletes : stop_round s ≡ some u → StopStep callback s u
  loses :
      (n next : ℕ) (m : List (ℕ × ℕ)) (addr : ℕ) (c : Conn)
      → s.connect_mgr ≡ (n, next) ∷ m
      → addr ≢ next
      → find addr s.objects ≡ some c
      → callback s addr true ≡ some u
      → StopStep callback s u
  packs : (pack : ℕ) → u ≡ add_pack s pack → StopStep callback s u
  takes : (list : List ℕ) → u ≡ (swap_packs s list).0 → StopStep callback s u

pub data StopReach (callback : Service → ℕ → Bool → Option Service) (s : Service)
    : Service → Type 0 where
  here : StopReach callback s s
  later : {t u : Service} → StopReach callback s t → StopStep callback t u → StopReach callback s u

-- The next round deletes one live connection, whose descriptor it closes, and leaves the registry in
-- order; or no connection is left, and each descriptor that was accepted was closed as often.
pub data Stops (s : Service) : Type 0 where
  one_less :
      (u : Service)
      → stop_round s ≡ some u
      → IsRegistered u
      → suc (length u.objects) ≡ length s.objects
      → Stops s
  all_closed :
      s.connect_mgr ≡ []
      → s.objects ≡ []
      → ((fd : ℕ) → count fd s.closed ≡ count fd s.accepted)
      → Stops s

round_cons :
    (s : Service) (n a : ℕ) (m : List (ℕ × ℕ))
    → s.connect_mgr ≡ (n, a) ∷ m
    → stop_round s ≡ delete_object (record s { connect_mgr = m }) a
unfolding stop_round
round_cons s n a m e = rw (e, stop_round) refl

find_head : (a : ℕ) (c : Conn) (os : List (ℕ × Conn)) → find a ((a, c) ∷ os) ≡ some c
unfolding find
find_head a c os = rw (≡→== a a refl) refl

erase_head : (a : ℕ) (c : Conn) (os : List (ℕ × Conn)) → Apart a c os → erase a ((a, c) ∷ os) ≡ os
unfolding erase
erase_head a c os p = rw (≡→== a a refl) (erase-Apart a c os p)

-- What the round leaves of a registry in order.
abbrev behind_round : Service → Conn → List (ℕ × Conn) → Service
behind_round s c os = record s { connect_mgr = entries os; objects = os; closed = c.fd ∷ s.closed }

round_lem :
    (s : Service) (a : ℕ) (c : Conn) (os : List (ℕ × Conn))
    → IsRegistered s
    → s.objects ≡ (a, c) ∷ os
    → stop_round s ≡ some (behind_round s c os)
round_lem s a c os i e =
    let apart : Apart a c os = (subst (λ l. Numbered s.unique_id l) e i.numbered).1 in
    round_cons s c.conn_id a (entries os) (i.same ∙ ap entries e)
    ∙ delete_object_lem (record s { connect_mgr = entries os }) a c
        (ap (find a) e ∙ find_head a c os)
    ∙ ap (λ l. some (record s { connect_mgr = entries os; objects = l; closed = c.fd ∷ s.closed }))
        (ap (erase a) e ∙ erase_head a c os apart)

round-IsRegistered :
    (s : Service) (a : ℕ) (c : Conn) (os : List (ℕ × Conn))
    → IsRegistered s
    → s.objects ≡ (a, c) ∷ os
    → IsRegistered (behind_round s c os)
round-IsRegistered s a c os i e = record {
  same = refl;
  numbered = (subst (λ l. Numbered s.unique_id l) e i.numbered).2;
  balanced = λ fd. omega (
    arith,
    i.balanced fd,
    ap (λ l. count fd (fds_of l)) e,
    count_cons fd c.fd s.closed,
    count_cons fd c.fd (fds_of os),
  );
}

by_objects : (s : Service) (os : List (ℕ × Conn)) → IsRegistered s → s.objects ≡ os → Stops s
by_objects s [] i e =
    all_closed (i.same ∙ ap entries e) e
      (λ fd. omega (arith, i.balanced fd, ap (λ l. count fd (fds_of l)) e, count_nil fd))
by_objects s ((a, c) ∷ os) i e =
    one_less (behind_round s c os) (round_lem s a c os i e) (round-IsRegistered s a c os i e)
      (ap length (sym e))

round_nil : (s : Service) → s.connect_mgr ≡ [] → stop_round s ≡ some s
unfolding stop_round
round_nil s e = rw (e, stop_round) refl

some_eq : {s u : Service} → some s ≡ some u → s ≡ u
some_eq h = cc

deletes-IsRegistered : (s u : Service) → IsRegistered s → stop_round s ≡ some u → IsRegistered u
deletes-IsRegistered s u i e = by_stops (by_objects s s.objects i refl)
  where
    by_stops : Stops s → IsRegistered u
    by_stops (one_less v r j less) = subst IsRegistered (some_eq (sym r ∙ e)) j
    by_stops (all_closed none_left gone even) =
        subst IsRegistered (some_eq (sym (round_nil s none_left) ∙ e)) i

module _ (callback : Service → ℕ → Bool → Option Service)
    (keeps : (s : Service) (addr : ℕ) (c : Conn)
      → IsRegistered s
      → find addr s.objects ≡ some c
      → (u : Service) × (callback s addr true ≡ some u) × IsRegistered u) where
  StopStep-IsRegistered : {s u : Service} → StopStep callback s u → IsRegistered s → IsRegistered u
  unfolding add_pack swap_packs
  StopStep-IsRegistered {s} {u} (deletes e) i = deletes-IsRegistered s u i e
  StopStep-IsRegistered {s} (loses n next m addr c front ne f e) i =
      let (v, r, j) = keeps s addr c i f in subst IsRegistered (some_eq (sym r ∙ e)) j
  StopStep-IsRegistered {s} (packs pack e) i =
      subst IsRegistered (sym e)
        (record { same = i.same; numbered = i.numbered; balanced = i.balanced })
  StopStep-IsRegistered {s} (takes list e) i =
      subst IsRegistered (sym e)
        (record { same = i.same; numbered = i.numbered; balanced = i.balanced })

  StopReach-Stops : {s u : Service} → IsRegistered s → StopReach callback s u → Stops u
  StopReach-Stops {s} {u} i h = by_objects u u.objects (kept h) refl
    where
      kept : {t : Service} → StopReach callback s t → IsRegistered t
      kept here = i
      kept (later r st) = StopStep-IsRegistered st (kept r)

-- Take any history of a WsService from its start in which connections are accepted (each at an address
-- that no live connection has, and with fewer than 2^32 numbers given out), callbacks come for live
-- connections, and packets come and are taken; then, while the loop of OnStop goes over the registry
-- in the thread that stops the service, any sequence of its rounds, of callbacks of other connections
-- than the one it is to come to next, whose reads have failed and which delete the connection, and of
-- packets that come and are taken, where each of these is one step. In every state that they lead to,
-- the next round of OnStop deletes one live connection and closes its descriptor, and leaves the
-- registry in order; or no connection is left, and each descriptor that was accepted has been closed
-- exactly as often. So in such a sequence no object is deleted twice, and the loop has a round for
-- each connection that is live when it comes to it.
pub Reach-StopReach :
    (s u : Service) → Reach new_service s → StopReach ws_client_read_cb s u → Stops u
Reach-StopReach s u r h =
    StopReach-Stops ws_client_read_cb
      (λ s addr c i f. let (v, e, e', o, j) = client_read_cb_lem s addr c true i f in (v, e, j))
      (Reach-IsRegistered r) h

-- Take any history of a TcpService from its start, whose numbers may begin anywhere, in which
-- connections are accepted (each at an address that no live connection has, and before the number
-- comes round to 0) and callbacks come for live connections; then, while the loop of OnStop goes over
-- the registry, any sequence of its rounds and of callbacks of other connections than the one it is to
-- come to next, whose reads have failed, where each of these is one step. In every state that they
-- lead to, the next round deletes one live connection, closes its descriptor and leaves the registry
-- in order; or no connection is left, and each descriptor that was accepted has been closed exactly as
-- often.
pub TcpReach-StopReach :
    (n : ℕ) (s u : Service)
    → TcpReach (new_tcp_service n) s
    → StopReach client_read_cb s u
    → Stops u
TcpReach-StopReach n s u r h =
    StopReach-Stops client_read_cb
      (λ s addr c i f. let (v, e, e', o, j) = client_read_cb_lem s addr c true i f in (v, e', j))
      (TcpReach-IsRegistered n r) h
