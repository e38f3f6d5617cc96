-- ===== src/Gate.antt =====
-- ExtNet/Gate/GateServer.cpp: the server that starts and stops the two services, and its own thread. The
-- thread takes the packets of the WsService and does nothing with them. The address 0 is "0.0.0.0".
pub mod Open
pub mod Stop
mod Tests
use multithread_libevent_exa.Prelude.{ℕ, Bool, true, false, ◌≡◌}
use multithread_libevent_exa.Listener.{Listener}
use multithread_libevent_exa.Listener.Net.{Net}
use multithread_libevent_exa.Service.Start.{set_addr_and_port, on_start}
use multithread_libevent_exa.Service.TcpStart.{tcp_set_addr_and_port, tcp_on_start}

-- What `OpenServer` returns: -1, -2, or, at the end, no value.
pub data Answer : Type 0 where
  ws_failed tcp_failed no_value : Answer

module _ (net : Net) where
  open net use {State}

  -- `OpenServer`, up to the start of the thread: the two services, of which each has its own fields.
  pub tcp_started : Listener → Bool × Listener × State → Answer × Listener × Listener × State
  tcp_started ws (false, tcp, s) = (tcp_failed, ws, tcp, s)
  tcp_started ws (true, tcp, s) = (no_value, ws, tcp, s)

  pub ws_started : Listener → Bool × Listener × State → Answer × Listener × Listener × State
  ws_started tcp (false, ws, s) = (ws_failed, ws, tcp, s)
  ws_started tcp (true, ws, s) =
      tcp_started ws (tcp_on_start net (tcp_set_addr_and_port tcp 0 10087) s)

  unfoldable pub open_server : Listener → Listener → State → Answer × Listener × Listener × State
  open_server ws tcp s = ws_started tcp (on_start net (set_addr_and_port ws 0 10086) s)

-- Where the thread of `MainThread`, and the one that calls `OnStopServer`, are.
pub data Worker : Type 0 where
  created looping ended : Worker

pub data Caller : Type 0 where
  running joining stopped : Caller

-- `IsRun`, and the two threads.
pub record Gate : Type 0 where
  pub is_run : Bool
  pub worker : Worker
  pub caller : Caller

-- `OpenServer` has created the thread; `IsRun` has no value before the thread gives it one.
unfoldable pub opened_gate : Bool → Gate
opened_gate b = record { is_run = b; worker = created; caller = running }

-- The steps: MainThread sets IsRun, goes round while it is set, and returns; OnStopServer clears it, and
-- then waits for the thread.
pub data Step : Gate → Gate → Type 0 where
  begins : {g : Gate} → g.worker ≡ created → Step g (record g { is_run = true; worker = looping })
  goes_round : {g : Gate} → g.worker ≡ looping → g.is_run ≡ true → Step g g
  returns :
      {g : Gate} → g.worker ≡ looping → g.is_run ≡ false → Step g (record g { worker = ended })
  stops : {g : Gate} → g.caller ≡ running → Step g (record g { is_run = false; caller = joining })
  joins :
      {g : Gate} → g.caller ≡ joining → g.worker ≡ ended → Step g (record g { caller = stopped })

pub data Reach (g : Gate) : Gate → Type 0 where
  here : Reach g g
  later : {u v : Gate} → Reach g u → Step u v → Reach g v
