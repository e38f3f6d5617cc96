-- ===== src/Listener/Tests.antt =====
-- listener.cc on a small system.
use multithread_libevent_exa.Prelude.{ℕ, ◌≡◌, refl, arith, false, List, [], ◌∷◌, ◌++◌, some}
use multithread_libevent_exa.Listener.{
  Listener, Opened, failed, new_listener, open_listener, delete_listener, do_accept, after_socket,
  after_setsockopt, after_nonblocking, after_bind, after_listen, accept_round,
}
use multithread_libevent_exa.Listener.System.{System, system, taken_port}
use multithread_libevent_exa.Listener.Open.{delete-open}
use multithread_libevent_exa.Listener.Accept.{Accepted, do_accept_lem}

abbrev listener : Listener
listener = new_listener 0 2200

listener-quiet : listener.ev ≡ false
unfolding new_listener
listener-quiet = refl

abbrev after_open : Opened × Listener × System
after_open = open_listener system listener taken_port

delete-open_example :
    ((delete_listener system after_open.1 after_open.2).fds ≡ 5 ∷ [])
    × ((delete_listener system after_open.1 after_open.2).events ≡ [])
delete-open_example = delete-open system listener taken_port listener-quiet

-- The port is taken: `open` fails, and the descriptor waits for the destructor.
open_failed : (after_open.0 ≡ failed) × (after_open.2.fds ≡ 1 ∷ 5 ∷ [])
unfolding open_listener after_socket after_setsockopt after_nonblocking after_bind after_listen
    new_listener
open_failed = (refl, refl)

abbrev keep : List ℕ → ℕ → List ℕ
keep cs c = cs ++ (c ∷ [])

do_accept_lem_example :
    Accepted system keep [] 1 taken_port (do_accept system keep 3 1 [] taken_port)
do_accept_lem_example = do_accept_lem system keep 3 1 [] taken_port (omega arith)

two_accepted :
    do_accept system keep 3 1 [] taken_port ≡ some (8 ∷ 9 ∷ [], record taken_port { backlog = [] })
unfolding do_accept accept_round
two_accepted = refl
