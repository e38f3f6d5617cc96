-- ===== src/Listener/System.antt =====
-- A small system, for the tests.
use multithread_libevent_exa.Prelude.{
  ℕ, ◌≡◌, refl, ap, arith, Bool, true, false, List, [], ◌∷◌, length, Option, none, some,
}
use multithread_libevent_exa.Listener.Net.{Net}

-- A system whose `bind` succeeds or fails. Descriptors are numbered by how many are open.
pub record System : Type 0 where
  pub fds : List ℕ
  pub events : List ℕ
  pub backlog : List ℕ
  pub bindable : Bool

abbrev pub tail : List ℕ → List ℕ
tail [] = []
tail (x ∷ xs) = xs

abbrev pub take_one : System → List ℕ → Option ℕ × System
take_one s [] = (none, s)
take_one s (c ∷ cs) = (some c, record s { backlog = cs })

pub take_one-some :
    (s s' : System) (l : List ℕ) (c : ℕ) → take_one s l ≡ (some c, s') → l ≡ c ∷ s'.backlog
take_one-some s s' [] c e = cc
take_one-some s s' (x ∷ xs) c e = ground arith

pub take_one-none :
    (s s' : System) (l : List ℕ)
    → l ≡ s.backlog
    → take_one s l ≡ (none, s')
    → s'.backlog ≡ s.backlog
take_one-none s s' [] q e = ground arith
take_one-none s s' (x ∷ xs) q e = cc

abbrev pub open_one : System → Option ℕ × System
open_one s = (some (length s.fds), record s { fds = length s.fds ∷ s.fds })

pub opens :
    (s s' : System) (fd : ℕ)
    → open_one s ≡ (some fd, s')
    → (s'.fds ≡ fd ∷ s.fds) × (s'.events ≡ s.events)
opens s s' fd e = ground arith

pub opens_always :
    (s s' : System) → open_one s ≡ (none, s') → (s'.fds ≡ s.fds) × (s'.events ≡ s.events)
opens_always s s' e = cc

abbrev pub system : Net
system = record {
  State = System;
  socket = open_one;
  setsockopt = λ s fd o. (true, s);
  make_nonblocking = λ s fd. (true, s);
  bind = λ s fd a p. (s.bindable, s);
  listen = λ s fd n. (true, s);
  accept = λ s fd. take_one s s.backlog;
  event_add = λ s fd. record s { events = fd ∷ s.events };
  event_free = λ s fd. record s { events = tail s.events };
  close = λ s fd. record s { fds = tail s.fds };
  open_fds = λ s. s.fds;
  watched = λ s. s.events;
  pending = λ s. s.backlog;
  socket_opens = opens;
  socket_fails = opens_always;
  setsockopt_keeps = λ s fd n. (refl, refl);
  make_nonblocking_keeps = λ s fd. (refl, refl);
  bind_keeps = λ s fd a p. (refl, refl);
  listen_keeps = λ s fd n. (refl, refl);
  event_add_watches = λ s fd. (refl, refl);
  event_free_unwatches = λ s fd fds e. (refl, ap tail e);
  close_closes = λ s fd fds e. (ap tail e, refl);
  accept_takes = λ s s' fd c e. take_one-some s s' s.backlog c e;
  accept_fails = λ s s' fd e. take_one-none s s' s.backlog refl e;
}

abbrev pub taken_port : System
taken_port = record { fds = 5 ∷ []; events = []; backlog = 8 ∷ 9 ∷ []; bindable = false }
