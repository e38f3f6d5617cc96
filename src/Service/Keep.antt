-- ===== src/Service/Keep.antt =====
-- A connection that comes, and one that goes: the registry of the service stays in order.
use multithread_libevent_exa.Prelude.{
  ℕ, suc, ◌+◌, ◌%◌, ◌^◌, ◌<◌, ◌≡◌, refl, sym, ap, subst, ◌∙◌, arith, Bool, true, false, List, [],
  ◌∷◌, Option, none, some, ◌==◌, if◌then◌else◌, Bool-cases, inl, inr, ≡→==,
}
use multithread_libevent_exa.Service.{
  Conn, Service, find, erase, make_unique_id, new_connect, do_accept, delete_connect, delete_object,
  client_read_cb, ws_client_read_cb,
}
use multithread_libevent_exa.Service.Registry.{
  fds_of, Apart, Numbered, IsRegistered, find_above, Numbered-up, erase-entries, Numbered-erase,
  count-erase, count_cons, insert_fresh, erase_twice,
}

-- A new connection, at an address that no live object has, with a number that no live object has.
new-Apart :
    (n addr fd : ℕ) (os : List (ℕ × Conn))
    → Numbered n os
    → find addr os ≡ none
    → Apart addr (record { conn_id = n; fd = fd }) os
unfolding find
new-Apart n addr fd [] v e = tt
new-Apart n addr fd ((b, d) ∷ os) v e = elim (Bool-cases (addr == b)) [
  | inl q ↦ absurd (taken (subst (λ t. (if t then some d else find addr os) ≡ none) q e))
  | inr q ↦ (
    λ h. let f : (addr == b) ≡ true = ≡→== addr b h in cc,
    λ h. omega (arith, h, v.0),
    new-Apart n addr fd os v.2 (subst (λ t. (if t then some d else find addr os) ≡ none) q e),
  )
]
  where
    taken : ¬ (some d ≡ none)
    taken h = cc

-- doAccept on a service in order, at an address that is free, with fewer than 2^32 numbers given out.
pub do_accept-IsRegistered :
    (s : Service) (addr : ℕ) (accepted : Option ℕ) (nonblocking : Bool)
    → IsRegistered s
    → find addr s.objects ≡ none
    → suc s.unique_id < 2 ^ 32
    → IsRegistered (do_accept s addr accepted nonblocking)
unfolding do_accept new_connect make_unique_id
do_accept-IsRegistered s addr none nonblocking i free few = i
do_accept-IsRegistered s addr (some fd) false i free few = record {
  same = i.same;
  numbered = i.numbered;
  balanced = λ n. omega (arith, i.balanced n, count_cons n fd s.accepted, count_cons n fd s.closed);
}
do_accept-IsRegistered s addr (some fd) true i free few = record {
  same =
      insert_fresh s.unique_id addr s.connect_mgr (
        ap (find s.unique_id) i.same
        ∙ find_above s.unique_id s.unique_id s.objects i.numbered (omega arith))
      ∙ ap (λ m. (s.unique_id, addr) ∷ m) i.same;
  numbered =
      let next : (s.unique_id + 1) % 2 ^ 32 ≡ suc s.unique_id = omega arith in
      subst
        (λ k.
          (s.unique_id < k)
          × Apart addr (record { conn_id = s.unique_id; fd = fd }) s.objects
          × Numbered k s.objects)
        (sym next)
        (
          omega arith,
          new-Apart s.unique_id addr fd s.objects i.numbered free,
          Numbered-up s.unique_id s.objects i.numbered,
        );
  balanced = λ n.
      omega (arith, i.balanced n, count_cons n fd s.accepted, count_cons n fd (fds_of s.objects));
}

delete-IsRegistered :
    (s : Service) (addr : ℕ) (c : Conn)
    → IsRegistered s
    → find addr s.objects ≡ some c
    → IsRegistered (record s {
      connect_mgr = erase c.conn_id s.connect_mgr;
      objects = erase addr s.objects;
      closed = c.fd ∷ s.closed;
    })
delete-IsRegistered s addr c i e = record {
  same = ap (erase c.conn_id) i.same ∙ erase-entries s.unique_id addr c s.objects i.numbered e;
  numbered = Numbered-erase s.unique_id addr s.objects i.numbered;
  balanced = λ n. omega (
    arith,
    i.balanced n,
    count_cons n c.fd s.closed,
    count-erase s.unique_id addr n c s.objects i.numbered e,
    count_cons n c.fd (fds_of (erase addr s.objects)),
  );
}

pub delete_object_lem :
    (s : Service) (addr : ℕ) (c : Conn)
    → find addr s.objects ≡ some c
    → delete_object s addr
      ≡ some (record s { objects = erase addr s.objects; closed = c.fd ∷ s.closed })
unfolding delete_object
delete_object_lem s addr c e = rw (e, delete_object) refl

-- In a service whose registry is in order, and for a live connection, the callback of WsService, which
-- erases the connection twice from the registry, has the result of the callback of TcpService, which
-- erases it once: if the read has failed, exactly this connection is deleted, otherwise none, and the
-- registry stays in order.
pub client_read_cb_lem :
    (s : Service) (addr : ℕ) (c : Conn) (failed : Bool)
    → IsRegistered s
    → find addr s.objects ≡ some c
    → (s' : Service) × (ws_client_read_cb s addr failed ≡ some s')
      × (client_read_cb s addr failed ≡ some s')
      × (s'.objects ≡ (if failed then erase addr s.objects else s.objects))
      × IsRegistered s'
unfolding ws_client_read_cb client_read_cb delete_connect
client_read_cb_lem s addr c false i e = (s, refl, refl, refl, i)
client_read_cb_lem s addr c true i e =
    let s1 = record s {
      connect_mgr = erase c.conn_id s.connect_mgr;
      objects = erase addr s.objects;
      closed = c.fd ∷ s.closed;
    } in
    (
      s1,
      rw (e, ws_client_read_cb)
          (delete_object_lem (delete_connect (delete_connect s c.conn_id) c.conn_id) addr c e
            ∙ ap (λ m. some (record s1 { connect_mgr = m })) (erase_twice c.conn_id s.connect_mgr)),
      rw (e, client_read_cb) (delete_object_lem (delete_connect s c.conn_id) addr c e),
      refl,
      delete-IsRegistered s addr c i e,
    )
