-- ===== src/Listener/Net.antt =====
-- What listener.cc asks of the operating system and of libevent: descriptors, a listening socket, events.
use multithread_libevent_exa.Prelude.{ℕ, ◌≡◌, Bool, List, ◌∷◌, Option, none, some}

-- The calls, over a state of the system, and what their documents say. A call with a Boolean says by
-- `true` that it succeeded. `open_fds` are the descriptors opened last to first, `watched` those with a
-- waiting event, `pending` the connections that the listening socket has ready.
pub record Net : Type 1 where
  pub State : Type 0
  pub socket : State → Option ℕ × State
  pub setsockopt : State → ℕ → ℕ → Bool × State
  pub make_nonblocking : State → ℕ → Bool × State
  pub bind : State → ℕ → ℕ → ℕ → Bool × State
  pub listen : State → ℕ → ℕ → Bool × State
  pub accept : State → ℕ → Option ℕ × State
  pub event_add : State → ℕ → State
  pub event_free : State → ℕ → State
  pub close : State → ℕ → State
  pub open_fds : State → List ℕ
  pub watched : State → List ℕ
  pub pending : State → List ℕ
  pub socket_opens :
      (s s' : State) (fd : ℕ)
      → socket s ≡ (some fd, s')
      → (open_fds s' ≡ fd ∷ open_fds s) × (watched s' ≡ watched s)
  pub socket_fails :
      (s s' : State) → socket s ≡ (none, s') → (open_fds s' ≡ open_fds s) × (watched s' ≡ watched s)
  pub setsockopt_keeps :
      (s : State) (fd name : ℕ)
      → (open_fds (setsockopt s fd name).1 ≡ open_fds s)
        × (watched (setsockopt s fd name).1 ≡ watched s)
  pub make_nonblocking_keeps :
      (s : State) (fd : ℕ)
      → (open_fds (make_nonblocking s fd).1 ≡ open_fds s)
        × (watched (make_nonblocking s fd).1 ≡ watched s)
  pub bind_keeps :
      (s : State) (fd addr port : ℕ)
      → (open_fds (bind s fd addr port).1 ≡ open_fds s)
        × (watched (bind s fd addr port).1 ≡ watched s)
  pub listen_keeps :
      (s : State) (fd backlog : ℕ)
      → (open_fds (listen s fd backlog).1 ≡ open_fds s)
        × (watched (listen s fd backlog).1 ≡ watched s)
  pub event_add_watches :
      (s : State) (fd : ℕ)
      → (open_fds (event_add s fd) ≡ open_fds s) × (watched (event_add s fd) ≡ fd ∷ watched s)
  pub event_free_unwatches :
      (s : State) (fd : ℕ) (fds : List ℕ)
      → watched s ≡ fd ∷ fds
      → (open_fds (event_free s fd) ≡ open_fds s) × (watched (event_free s fd) ≡ fds)
  pub close_closes :
      (s : State) (fd : ℕ) (fds : List ℕ)
      → open_fds s ≡ fd ∷ fds
      → (open_fds (close s fd) ≡ fds) × (watched (close s fd) ≡ watched s)
  pub accept_takes :
      (s s' : State) (fd c : ℕ) → accept s fd ≡ (some c, s') → pending s ≡ c ∷ pending s'
  pub accept_fails : (s s' : State) (fd : ℕ) → accept s fd ≡ (none, s') → pending s' ≡ pending s
