-- ===== src/Listener/Accept.antt =====
-- listener.cc: `doAccept` hands on every connection that it accepts, in order, and ends.
use multithread_libevent_exa.Prelude.{
  ℕ, zero, suc, ◌<◌, ◌≡◌, refl, sym, ap, ◌∙◌, arith, List, [], ◌∷◌, ◌++◌, length, Option, none,
  some,
}
use multithread_libevent_exa.Listener.{do_accept, accept_round}
use multithread_libevent_exa.Listener.Net.{Net}

module _ (net : Net) {A : Type 0} (handle : A → ℕ → A) where
  open net use {State}

  -- `handle_` on each of a list of descriptors.
  abbrev pub handle_all : A → List ℕ → A
  handle_all a [] = a
  handle_all a (c ∷ cs) = handle_all (handle a c) cs

  -- The result of `doAccept`: the accepted connections are a first part of those that were ready, each was
  -- handed on in order, the rest is still ready, and the last `accept` has failed.
  pub record Accepted (a : A) (fd : ℕ) (s : State) (r : Option (A × State)) : Type 0 where
    pub taken : List ℕ
    pub final : State
    pub before_last : State
    pub result : r ≡ some (handle_all a taken, final)
    pub split : net.pending s ≡ taken ++ net.pending final
    pub last : net.accept before_last fd ≡ (none, final)

  Accepted-cons :
      (a : A) (c fd : ℕ) (s s' : State) (r : Option (A × State))
      → net.pending s ≡ c ∷ net.pending s'
      → Accepted (handle a c) fd s' r
      → Accepted a fd s r
  Accepted-cons a c fd s s' r e x = record {
    taken = c ∷ x.taken;
    final = x.final;
    before_last = x.before_last;
    result = x.result;
    split = e ∙ ap (λ q. c ∷ q) x.split;
    last = x.last;
  }

  accept_round_lem :
      (fuel fd : ℕ) (a : A) (s : State) (r : Option ℕ × State)
      → ((a' : A) (s' : State)
          → length (net.pending s') < fuel
          → Accepted a' fd s' (do_accept net handle fuel fd a' s'))
      → length (net.pending s) < suc fuel
      → net.accept s fd ≡ r
      → Accepted a fd s (accept_round net handle (do_accept net handle fuel fd) a r)
  unfolding accept_round
  accept_round_lem fuel fd a s (none, s') ih lt e = record {
    taken = [];
    final = s';
    before_last = s;
    result = refl;
    split = sym (net.accept_fails s s' fd e);
    last = e;
  }
  accept_round_lem fuel fd a s (some c, s') ih lt e =
      let q = net.accept_takes s s' fd c e in
      let lt' : length (net.pending s') < fuel = omega (arith, ap length q) in
      Accepted-cons a c fd s s' (do_accept net handle fuel fd (handle a c) s') q
        (ih (handle a c) s' lt')

  -- With more rounds than connections are ready, doAccept ends: every connection that it accepts is
  -- handed to the callback once, in the order of arrival, those not accepted are still ready, and the
  -- accept that ended it has failed.
  pub do_accept_lem :
      (fuel fd : ℕ) (a : A) (s : State)
      → length (net.pending s) < fuel
      → Accepted a fd s (do_accept net handle fuel fd a s)
  unfolding do_accept
  do_accept_lem zero fd a s lt = absurd (omega arith)
  do_accept_lem (suc fuel) fd a s lt =
      accept_round_lem fuel fd a s (net.accept s fd) (λ a' s' l. do_accept_lem fuel fd a' s' l) lt
        refl
