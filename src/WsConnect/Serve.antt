-- ===== src/WsConnect/Serve.antt =====
-- FdBridge.cpp and WsConnect.cpp: `read` of a WebSocket connection, from the socket to the handshake.
use multithread_libevent_exa.Prelude.{
  ℕ, ◌+◌, ◌≡◌, ◌≢◌, List, ◌++◌, Bool, Option, none, some, length,
}
use multithread_libevent_exa.Handler.{Status, ok, failed}
use multithread_libevent_exa.Handler.Socket.{Socket}
use multithread_libevent_exa.MemoryBuff.{MemoryBuff}
use multithread_libevent_exa.FdBridge.{Run, returns, fault, out_of_fuel, recv_loop, after_recv_loop}
use multithread_libevent_exa.FdBridge.Receive.{Cause}
use multithread_libevent_exa.WsRead.{WsDealWith}
use multithread_libevent_exa.WsConnect.{WsConnect, ConnectResult, connect_read_data}
use multithread_libevent_exa.WsConnect.Handshake.{Shakes}

module _ (fresh : MemoryBuff → ℕ) (socket : Socket) (send : List ℕ → Bool)
    (response : List ℕ → Option (List ℕ)) (respond : List ℕ → Bool) where
  open socket use {State, incoming, outgoing}

  -- What a call leaves of a connection, with `none` for one that is to be deleted.
  abbrev pub Served : Type 0
  Served = Option (WsConnect × MemoryBuff × ℕ) × State

  -- `notifyred`, which is `readData`.
  pub notify_read : State → ConnectResult send response respond → Run (Status × Served)
  notify_read s fault = fault
  notify_read s out_of_fuel = out_of_fuel
  notify_read s (returns none) = returns (failed, (none, s))
  notify_read s (returns (some r)) = returns (ok, (some r, s))

  -- `read` of a WsConnect, and what follows its loop.
  abbrev pub after_receive :
      ℕ → WsConnect → Run (Status × MemoryBuff × State) → Run (Status × Served)
  after_receive fuel w =
      after_recv_loop fresh socket
        (λ b s. notify_read s (connect_read_data send response respond fuel w b)) (λ b s. (none, s))

  unfoldable pub connect_read : ℕ → WsConnect → MemoryBuff → State → Run (Status × Served)
  connect_read fuel w b s = after_receive fuel w (recv_loop fresh socket fuel b s)

  module _ (a c : ℕ) (ne : a ≢ c) (d : WsDealWith) (q : List ℕ) (k : ℕ) (s : State) where
    -- The socket has failed; or what came is behind `q`, and has been read as the first piece.
    pub data Serves : Run (Status × Served) → Type 0 where
      closes :
          (taken : List ℕ) (s' : State)
          → incoming s ≡ taken ++ incoming s'
          → outgoing s' ≡ outgoing s
          → Cause fresh socket a c ne s' failed
          → Serves (returns (failed, (none, s')))
      shakes :
          (taken : List ℕ) (b' : MemoryBuff) (s' : State) (r : ConnectResult send response respond)
          → incoming s ≡ taken ++ incoming s'
          → outgoing s' ≡ outgoing s
          → Cause fresh socket a c ne s' ok
          → Shakes send response respond a c d b' (q ++ taken) (k + length taken) r
          → Serves (notify_read s' r)
