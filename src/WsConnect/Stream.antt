-- ===== src/WsConnect/Stream.antt =====
-- FdBridge.cpp and WsConnect.cpp: `read` of a WebSocket connection whose handshake is done, from the socket to
-- the reader of frames.
use multithread_libevent_exa.Prelude.{ℕ, suc, ◌+◌, ◌≡◌, ◌≢◌, List, ◌++◌, Bool, Option, none, length}
use multithread_libevent_exa.Handler.{Status, ok, failed}
use multithread_libevent_exa.Handler.Socket.{Socket}
use multithread_libevent_exa.MemoryBuff.{MemoryBuff}
use multithread_libevent_exa.FdBridge.{Run, returns}
use multithread_libevent_exa.FdBridge.Receive.{Cause}
use multithread_libevent_exa.WsRead.{WsDealWith}
use multithread_libevent_exa.WsConnect.{ConnectResult}
use multithread_libevent_exa.WsConnect.Serve.{Served, notify_read}
use multithread_libevent_exa.WsConnect.Feed.{Feeds}

module _ (fresh : MemoryBuff → ℕ) (socket : Socket) (send : List ℕ → Bool)
    (response : List ℕ → Option (List ℕ)) (respond : List ℕ → Bool) where
  open socket use {State, incoming, outgoing}

  module _ (a c : ℕ) (ne : a ≢ c) (fuel : ℕ) (d : WsDealWith) (q : List ℕ) (k : ℕ) (s : State) where
    -- The socket has failed; or what came stands behind `q`, and all of it goes to the reader.
    pub data Streams : Run (Status × Served fresh socket send response respond) → Type 0 where
      closes :
          (taken : List ℕ) (s' : State)
          → incoming s ≡ taken ++ incoming s'
          → outgoing s' ≡ outgoing s
          → Cause fresh socket a c ne s' failed
          → Streams (returns (failed, (none, s')))
      streams :
          (taken : List ℕ) (s' : State) (r : ConnectResult send response respond)
          → incoming s ≡ taken ++ incoming s'
          → outgoing s' ≡ outgoing s
          → Cause fresh socket a c ne s' ok
          → Feeds send response respond a c
              (k + length taken)
              (length (q ++ taken))
              (suc fuel)
              d
              (q ++ taken)
              r
          → Streams (notify_read fresh socket send response respond s' r)
