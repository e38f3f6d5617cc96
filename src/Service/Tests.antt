-- ===== src/Service/Tests.antt =====
-- A service with two connections, of which one fails.
use multithread_libevent_exa.Prelude.{◌∷◌, ◌≡◌, refl, arith, true, [], some, if◌then◌else◌}
use multithread_libevent_exa.Service.{
  ws_client_read_cb, client_read_cb, erase, Conn, Service, new_service, find, insert,
  make_unique_id, new_connect, do_accept,
}
use multithread_libevent_exa.Service.Tcp.{
  new_tcp_service, tcp_new_connect, tcp_do_accept, TcpStep, TcpReach, TcpReach-IsRegistered,
}
use multithread_libevent_exa.Service.Stop.{
  StopStep, StopReach, Stops, Reach-StopReach, TcpReach-StopReach,
}
use multithread_libevent_exa.Service.Keep.{client_read_cb_lem}
use multithread_libevent_exa.Service.Registry.{IsRegistered}
use multithread_libevent_exa.Service.History.{accepts, Reach, here, later, Reach-IsRegistered}

abbrev two : Service
two = do_accept (do_accept new_service 100 (some 7) true) 200 (some 8) true

abbrev first : Conn
first = record { conn_id = 0; fd = 7 }

Reach-two : Reach new_service two
unfolding new_service find do_accept new_connect make_unique_id insert
Reach-two =
    later (later here (accepts 100 (some 7) true refl (omega arith) refl))
      (accepts 200 (some 8) true refl (omega arith) refl)

find-two : find 100 two.objects ≡ some first
unfolding new_service find do_accept new_connect make_unique_id insert
find-two = refl

two-IsRegistered : IsRegistered two
two-IsRegistered = Reach-IsRegistered Reach-two

Reach-IsRegistered_example : IsRegistered two
Reach-IsRegistered_example = Reach-IsRegistered Reach-two

-- A service of plain connections that has lost the first of two.
abbrev tcp_two : Service
tcp_two = tcp_do_accept (tcp_do_accept (new_tcp_service 9) 100 (some 7) true) 200 (some 8) true

abbrev tcp_first : Conn
tcp_first = record { conn_id = 9; fd = 7 }

tcp_find : find 100 tcp_two.objects ≡ some tcp_first
unfolding new_tcp_service find tcp_do_accept tcp_new_connect insert
tcp_find = refl

TcpReach-two : TcpReach (new_tcp_service 9) tcp_two
unfolding new_tcp_service find tcp_do_accept tcp_new_connect insert
TcpReach-two =
    TcpReach.later
      (TcpReach.later TcpReach.here (TcpStep.accepts 100 (some 7) true refl (omega arith) refl))
      (TcpStep.accepts 200 (some 8) true refl (omega arith) refl)

client_read_cb_lem_example :
    (s' : Service) × (ws_client_read_cb two 100 true ≡ some s')
    × (client_read_cb two 100 true ≡ some s')
    × (s'.objects ≡ (if true then erase 100 two.objects else two.objects))
    × IsRegistered s'
client_read_cb_lem_example = client_read_cb_lem two 100 first true two-IsRegistered find-two

-- While OnStop is about to delete the second connection, the callback deletes the first.
abbrev lost :
    (s' : Service) × (ws_client_read_cb two 100 true ≡ some s')
    × (client_read_cb two 100 true ≡ some s')
    × (s'.objects ≡ (if true then erase 100 two.objects else two.objects))
    × IsRegistered s'
lost = client_read_cb_lem two 100 first true two-IsRegistered find-two

two-next : two.connect_mgr ≡ (1, 200) ∷ (0, 100) ∷ []
unfolding new_service find do_accept new_connect make_unique_id insert
two-next = refl

Reach-StopReach_example : Stops lost.0
Reach-StopReach_example = Reach-StopReach two lost.0 Reach-two (
    StopReach.later StopReach.here
      (StopStep.loses 1 200 ((0, 100) ∷ []) 100 first two-next (omega arith) find-two lost.1))

tcp_next : tcp_two.connect_mgr ≡ (10, 200) ∷ (9, 100) ∷ []
unfolding new_tcp_service find tcp_do_accept tcp_new_connect insert
tcp_next = refl

abbrev tcp_lost :
    (s' : Service) × (ws_client_read_cb tcp_two 100 true ≡ some s')
    × (client_read_cb tcp_two 100 true ≡ some s')
    × (s'.objects ≡ (if true then erase 100 tcp_two.objects else tcp_two.objects))
    × IsRegistered s'
tcp_lost =
    client_read_cb_lem tcp_two 100 tcp_first true (TcpReach-IsRegistered 9 TcpReach-two) tcp_find

TcpReach-StopReach_example : Stops tcp_lost.0
TcpReach-StopReach_example = TcpReach-StopReach 9 tcp_two tcp_lost.0 TcpReach-two (
    StopReach.later StopReach.here (
      StopStep.loses 10 200 ((9, 100) ∷ []) 100 tcp_first tcp_next (omega arith) tcp_find
        tcp_lost.2))

abbrev second : Conn
second = record { conn_id = 1; fd = 8 }
