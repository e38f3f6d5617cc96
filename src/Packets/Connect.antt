-- ===== src/Packets/Connect.antt =====
-- FdBridge.cpp and TcpStickyWrap.cpp: `read` of a TcpConnect, from the socket to the reader of packets.
use multithread_libevent_exa.Prelude.{
  ℕ, suc, ◌*◌, ◌+◌, ◌<◌, ◌≡◌, ◌≢◌, ◌⊎◌, inl, inr, refl, sym, ap, subst, false, List, ◌++◌, Option,
  none, some, length,
}
use multithread_libevent_exa.Handler.{Status, ok, failed}
use multithread_libevent_exa.Handler.Socket.{Socket}
use multithread_libevent_exa.MemoryBuff.{MemoryBuff, list_node_data_size}
use multithread_libevent_exa.MemoryBuff.Phases.{Holds}
use multithread_libevent_exa.FdBridge.{Run, returns, fault, out_of_fuel, recv_loop, after_recv_loop}
use multithread_libevent_exa.FdBridge.Receive.{Receives, Cause, recv_loop_lem}
use multithread_libevent_exa.Packets.{PackDealWith, TcpResult, tcp_read_data, new_pack}
use multithread_libevent_exa.Packets.Head.{tcp_read_data_fault}

module _ (fresh : MemoryBuff → ℕ) (socket : Socket) where
  open socket use {State, incoming, outgoing}

  -- What a call leaves of a connection and hands on, with `none` for one that is to be deleted.
  abbrev pub Handed : Type 0
  Handed = Option (MemoryBuff × PackDealWith × ℕ × List (ℕ × List ℕ)) × State

  -- `notifyred`, which is `readData`.
  unfoldable pub tcp_notify_read : State → TcpResult → Run (Status × Handed)
  tcp_notify_read s fault = fault
  tcp_notify_read s out_of_fuel = out_of_fuel
  tcp_notify_read s (returns none) = returns (failed, (none, s))
  tcp_notify_read s (returns (some r)) = returns (ok, (some r, s))

  abbrev pub after_tcp_receive :
      ℕ → PackDealWith → Run (Status × MemoryBuff × State) → Run (Status × Handed)
  after_tcp_receive fuel k =
      after_recv_loop fresh socket (λ b s. tcp_notify_read s (tcp_read_data fuel b k))
        (λ b s. (none, s))

  -- `read` of a TcpConnect.
  unfoldable pub tcp_connect_read : ℕ → PackDealWith → MemoryBuff → State → Run (Status × Handed)
  tcp_connect_read fuel k b s = after_tcp_receive fuel k (recv_loop fresh socket fuel b s)

  module _ (a c : ℕ) (ne : a ≢ c) (block q : List ℕ) (n : ℕ) (s : State) where
    abbrev Fails : Run (Status × Handed) → Type 0
    Fails r =
        (r ≡ fault)
        ⊎ ((s' : State) × (taken : List ℕ) × (r ≡ returns (failed, (none, s')))
            × (incoming s ≡ taken ++ incoming s')
            × Cause fresh socket a c ne s' failed)

    unset : (new_pack block).head ≡ false
    unfolding new_pack
    unset = refl

    Receives-Fails :
        (fuel : ℕ) (r : Run (Status × MemoryBuff × State))
        → Receives fresh socket a c ne q n s r
        → Fails (after_tcp_receive (suc fuel) (new_pack block) r)
    unfolding after_recv_loop tcp_notify_read
    Receives-Fails fuel r g =
        subst (λ x. Fails (after_tcp_receive (suc fuel) (new_pack block) x)) (sym g.result)
          (by_status g.status g.cause)
      where
        by_status :
            (st : Status)
            → Cause fresh socket a c ne g.state st
            → Fails (after_tcp_receive (suc fuel) (new_pack block) (returns (st, g.buff, g.state)))
        by_status failed w = inr (g.state, g.taken, refl, g.split, w)
        by_status ok w =
            inl (
              ap (tcp_notify_read g.state) (tcp_read_data_fault fuel g.buff (new_pack block) unset))

    -- FdBridge::read of a TcpConnect whose pack is as the constructor of PackDealWith leaves it, on a
    -- buffer of two nodes in one of the states Holds, while the bytes that were stored in it in all
    -- and those that have arrived at the socket are together below 8192, and on fuel above the number
    -- of those that have arrived, ends in one of two ways: an access that has no defined behaviour;
    -- or, when the last recv gave the end of the stream or an error other than EAGAIN, EWOULDBLOCK and
    -- EINTR, -1, with a beginning of what had arrived taken from it. So no call for such a connection
    -- ends well, whatever comes.
    pub tcp_connect_read-Fails :
        (fuel : ℕ) (b : MemoryBuff)
        → Holds a c b q n
        → n + length (incoming s) < 2 * list_node_data_size
        → length (incoming s) < suc fuel
        → (tcp_connect_read (suc fuel) (new_pack block) b s ≡ fault)
          ⊎ ((s' : State) × (taken : List ℕ) × (tcp_connect_read (suc fuel) (new_pack block) b s
                ≡ returns (failed, (none, s')))
              × (incoming s ≡ taken ++ incoming s')
              × Cause fresh socket a c ne s' failed)
    unfolding tcp_connect_read
    tcp_connect_read-Fails fuel b h small f =
        Receives-Fails fuel (recv_loop fresh socket (suc fuel) b s)
          (recv_loop_lem fresh socket a c ne (suc fuel) b q n s h small f)
