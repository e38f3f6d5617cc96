-- ===== src/Gate/Tests.antt =====
-- A server whose second thread is stopped before it begins, and one that cannot bind.
use multithread_libevent_exa.Prelude.{◌≡◌, ◌≢◌, refl, true, false, [], ◌∷◌}
use multithread_libevent_exa.Listener.{Listener, new_listener}
use multithread_libevent_exa.Listener.System.{System, system, taken_port}
use multithread_libevent_exa.Gate.{
  Gate, created, looping, ended, joining, begins, stops, Reach, here, later, opened_gate,
  open_server,
}
use multithread_libevent_exa.Gate.Open.{Opens, open_server-Opens}
use multithread_libevent_exa.Gate.Stop.{stop_misses}

abbrev service : Listener
service = new_listener 0 0

service-quiet : service.ev ≡ false
unfolding new_listener
service-quiet = refl

abbrev free_port : System
free_port = record taken_port { bindable = true }

open_server-Opens_example : Opens system (5 ∷ []) [] (open_server system service service free_port)
open_server-Opens_example =
    open_server-Opens system service service free_port service-quiet service-quiet

-- The caller comes first.
abbrev stopped_first : Gate
stopped_first = record { is_run = false; worker = created; caller = joining }

stopped_first-Reach : Reach (opened_gate true) stopped_first
unfolding opened_gate
stopped_first-Reach = later here (stops refl)

abbrev then_begun : Gate
then_begun = record { is_run = true; worker = looping; caller = joining }

stop_misses_example : (then_begun.caller ≡ joining) × (then_begun.worker ≢ ended)
stop_misses_example = stop_misses stopped_first then_begun refl refl (later here (begins refl))
