-- ===== src/Listener/Open.antt =====
-- listener.cc: what `open` leaves behind on each of its paths, and that the destructor takes it back.
use multithread_libevent_exa.Prelude.{
  ℕ, ◌≡◌, refl, sym, ap, subst, ◌∙◌, Bool, true, false, List, ◌∷◌, Option, none, some,
}
use multithread_libevent_exa.Listener.{
  Listener, Opened, opened, failed, reuse_option, open_listener, after_socket, after_setsockopt,
  after_nonblocking, after_bind, after_listen, delete_listener, close_fd, free_event,
}
use multithread_libevent_exa.Listener.Net.{Net}

module _ (net : Net) where
  open net use {State}

  -- The three ways in which `open` ends: with a waiting event on a new descriptor, after a failure with
  -- the descriptor kept for the destructor and no event, and with nothing at all.
  pub data Left (fds ws : List ℕ) : Opened × Listener × State → Type 0 where
    waiting :
        (l : Listener) (fd : ℕ) (s' : State)
        → l.fd ≡ some fd
        → l.ev ≡ true
        → net.open_fds s' ≡ fd ∷ fds
        → net.watched s' ≡ fd ∷ ws
        → Left fds ws (opened, l, s')
    half_open :
        (l : Listener) (fd : ℕ) (s' : State)
        → l.fd ≡ some fd
        → l.ev ≡ false
        → net.open_fds s' ≡ fd ∷ fds
        → net.watched s' ≡ ws
        → Left fds ws (failed, l, s')
    nothing :
        (l : Listener) (s' : State)
        → l.fd ≡ none
        → l.ev ≡ false
        → net.open_fds s' ≡ fds
        → net.watched s' ≡ ws
        → Left fds ws (failed, l, s')

  -- What holds when a call on the new descriptor has returned.
  pub record Going (fds ws : List ℕ) (l : Listener) (fd : ℕ) (s : State) : Type 0 where
    pub kept : l.fd ≡ some fd
    pub quiet : l.ev ≡ false
    pub fd_open : net.open_fds s ≡ fd ∷ fds
    pub unwatched : net.watched s ≡ ws

  pub failed_lem :
      (fds ws : List ℕ) (l : Listener) (fd : ℕ) (s : State)
      → Going fds ws l fd s
      → Left fds ws (failed, l, s)
  failed_lem fds ws l fd s g = half_open l fd s g.kept g.quiet g.fd_open g.unwatched

  -- A call that changes neither the descriptors nor the events.
  pub Going-on :
      (fds ws : List ℕ) (l : Listener) (fd : ℕ) (s s' : State)
      → Going fds ws l fd s
      → (net.open_fds s' ≡ net.open_fds s) × (net.watched s' ≡ net.watched s)
      → Going fds ws l fd s'
  Going-on fds ws l fd s s' g (o, w) = record {
    kept = g.kept;
    quiet = g.quiet;
    fd_open = o ∙ g.fd_open;
    unwatched = w ∙ g.unwatched;
  }

  pub after_listen_lem :
      (fds ws : List ℕ) (l : Listener) (fd : ℕ) (r : Bool × State)
      → Going fds ws l fd r.1
      → Left fds ws (after_listen net l fd r)
  unfolding after_listen
  after_listen_lem fds ws l fd (false, s) g = failed_lem fds ws l fd s g
  after_listen_lem fds ws l fd (true, s) g =
      let (o, w) = net.event_add_watches s fd in
      waiting (record l { ev = true }) fd (net.event_add s fd) g.kept refl (o ∙ g.fd_open)
        (w ∙ ap (λ q. fd ∷ q) g.unwatched)

  after_bind_lem :
      (fds ws : List ℕ) (l : Listener) (fd : ℕ) (r : Bool × State)
      → Going fds ws l fd r.1
      → Left fds ws (after_bind net l fd r)
  unfolding after_bind
  after_bind_lem fds ws l fd (false, s) g = failed_lem fds ws l fd s g
  after_bind_lem fds ws l fd (true, s) g =
      after_listen_lem fds ws l fd (net.listen s fd 512)
        (Going-on fds ws l fd s (net.listen s fd 512).1 g (net.listen_keeps s fd 512))

  after_nonblocking_lem :
      (fds ws : List ℕ) (l : Listener) (fd : ℕ) (r : Bool × State)
      → Going fds ws l fd r.1
      → Left fds ws (after_nonblocking net l fd r)
  unfolding after_nonblocking
  after_nonblocking_lem fds ws l fd (false, s) g = failed_lem fds ws l fd s g
  after_nonblocking_lem fds ws l fd (true, s) g =
      let r = net.bind s fd l.addr l.port in
      after_bind_lem fds ws l fd r
        (Going-on fds ws l fd s r.1 g (net.bind_keeps s fd l.addr l.port))

  after_setsockopt_lem :
      (fds ws : List ℕ) (l : Listener) (fd : ℕ) (r : Bool × State)
      → Going fds ws l fd r.1
      → Left fds ws (after_setsockopt net l fd r)
  unfolding after_setsockopt
  after_setsockopt_lem fds ws l fd (false, s) g = failed_lem fds ws l fd s g
  after_setsockopt_lem fds ws l fd (true, s) g =
      let r = net.make_nonblocking s fd in
      after_nonblocking_lem fds ws l fd r
        (Going-on fds ws l fd s r.1 g (net.make_nonblocking_keeps s fd))

  after_socket_lem :
      (l : Listener) (s : State) (r : Option ℕ × State)
      → l.ev ≡ false
      → net.socket s ≡ r
      → Left (net.open_fds s) (net.watched s) (after_socket net l r)
  unfolding after_socket
  after_socket_lem l s (none, s') q e =
      let (o, w) = net.socket_fails s s' e in nothing (record l { fd = none }) s' refl q o w
  after_socket_lem l s (some fd, s') q e =
      let (o, w) = net.socket_opens s s' fd e in
      let r = net.setsockopt s' fd reuse_option in
      let l' = record l { fd = some fd } in
      let g : Going (net.open_fds s) (net.watched s) l' fd s' = record {
        kept = refl;
        quiet = q;
        fd_open = o;
        unwatched = w;
      } in
      after_setsockopt_lem (net.open_fds s) (net.watched s) l' fd r (
        Going-on (net.open_fds s) (net.watched s) l' fd s' r.1 g
          (net.setsockopt_keeps s' fd reuse_option))

  -- Whichever of the calls of the system fails, open on a listener that has no event ends in one of
  -- three ways: it returns 0, the descriptor of the listener is the one opened, and its event waits;
  -- it returns -1, the descriptor is open and kept in the listener, and no event was added; or it
  -- returns -1 with no descriptor, and the open descriptors and the waiting events of the system are
  -- as before.
  pub open_listener_lem :
      (l : Listener) (s : State)
      → l.ev ≡ false
      → Left (net.open_fds s) (net.watched s) (open_listener net l s)
  unfolding open_listener
  open_listener_lem l s q = after_socket_lem l s (net.socket s) q refl

  abbrev Closed : List ℕ → List ℕ → State → Option ℕ → Bool → Type 0
  Closed fds ws s fd ev =
      (net.open_fds (close_fd net fd ev s) ≡ fds) × (net.watched (close_fd net fd ev s) ≡ ws)

  subst2 : {A B : Type 0} {x y : A} {u v : B} (P : A → B → Type 0) → x ≡ y → u ≡ v → P x u → P y v
  subst2 {x = x} {y = y} {u = u} {v = v} P e f p = subst (λ b. P y b) f (subst (λ a. P a u) e p)

  delete-Left :
      (fds ws : List ℕ) (r : Opened × Listener × State)
      → Left fds ws r
      → (net.open_fds (delete_listener net r.1 r.2) ≡ fds)
        × (net.watched (delete_listener net r.1 r.2) ≡ ws)
  unfolding delete_listener close_fd free_event
  delete-Left fds ws r (waiting l fd s f v o w) =
      let (o1, w1) = net.event_free_unwatches s fd ws w in
      let (o2, w2) = net.close_closes (net.event_free s fd) fd fds (o1 ∙ o) in
      subst2 (Closed fds ws s) (sym f) (sym v) (o2, w2 ∙ w1)
  delete-Left fds ws r (half_open l fd s f v o w) =
      let (o2, w2) = net.close_closes s fd fds o in
      subst2 (Closed fds ws s) (sym f) (sym v) (o2, w2 ∙ w)
  delete-Left fds ws r (nothing l s f v o w) = subst2 (Closed fds ws s) (sym f) (sym v) (o, w)

  -- A listener without an event that was opened, with whatever result, and is then destroyed leaves
  -- open exactly the descriptors that were open before, and waiting exactly the events that waited
  -- before.
  pub delete-open :
      (l : Listener) (s : State)
      → l.ev ≡ false
      → let (r, l', s') = open_listener net l s in
        (net.open_fds (delete_listener net l' s') ≡ net.open_fds s)
        × (net.watched (delete_listener net l' s') ≡ net.watched s)
  delete-open l s q =
      delete-Left (net.open_fds s) (net.watched s) (open_listener net l s) (open_listener_lem l s q)
