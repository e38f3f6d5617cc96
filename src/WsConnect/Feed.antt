-- ===== src/WsConnect/Feed.antt =====
-- WsConnect.cpp, `readData`: once the handshake is done, what is in the buffer goes to `readData` of
-- WsStickyWrap piece by piece.
use multithread_libevent_exa.Prelude.{
  ℕ, zero, suc, ◌+◌, ◌<◌, ◌≤◌, ◌≡◌, ◌≢◌, refl, sym, ap, subst, arith, Bool, true, List, [], Option,
  none, some, length, take, drop, length-drop,
}
use multithread_libevent_exa.MemoryBuff.{MemoryBuff, get_read_buff, adjust_read_size}
use multithread_libevent_exa.MemoryBuff.Phases.{Holds}
use multithread_libevent_exa.MemoryBuff.Read.{Readable, nothing, some_bytes, get_read_buff-Readable}
use multithread_libevent_exa.FdBridge.{Run, returns, fault, out_of_fuel}
use multithread_libevent_exa.WsRead.{WsDealWith, ws_read_data}
use multithread_libevent_exa.WsConnect.{
  WsConnect, ConnectResult, after_ws_read, connect_round, connect_loop, connect_read_data,
}

module _ (send : List ℕ → Bool) (response : List ℕ → Option (List ℕ)) (respond : List ℕ → Bool)
    (a c k : ℕ) where
  -- A connection whose handshake is done.
  abbrev pub shaken : WsDealWith → WsConnect
  shaken d = record { is_handshark = true; deal = d }

  -- What a call makes of the bytes `q`: pieces of at least one byte go to the reader in their order, up to the
  -- last byte, or to the first piece on which it does not return a state.
  pub data Feeds (total : ℕ)
      : ℕ → WsDealWith → List ℕ → ConnectResult send response respond → Type 0 where
    ends :
        {fuel : ℕ} (d : WsDealWith) (b : MemoryBuff)
        → Holds a c b [] k
        → Feeds total (suc fuel) d [] (returns (some (shaken d, b, total)))
    feeds :
        {fuel : ℕ} {d : WsDealWith} {q : List ℕ} {r : ConnectResult send response respond} (len : ℕ)
        (d' : WsDealWith)
        → 0 < len
        → len ≤ length q
        → ws_read_data send fuel d (take len q) ≡ returns (some d')
        → Feeds total fuel d' (drop len q) r
        → Feeds total (suc fuel) d q r
    refuses :
        {fuel : ℕ} {d : WsDealWith} {q : List ℕ} (len : ℕ)
        → 0 < len
        → ws_read_data send fuel d (take len q) ≡ returns none
        → Feeds total (suc fuel) d q (returns none)
    faults :
        {fuel : ℕ} {d : WsDealWith} {q : List ℕ} (len : ℕ)
        → 0 < len
        → ws_read_data send fuel d (take len q) ≡ fault
        → Feeds total (suc fuel) d q fault
    goes_on :
        {fuel : ℕ} {d : WsDealWith} {q : List ℕ} (len : ℕ)
        → 0 < len
        → ws_read_data send fuel d (take len q) ≡ out_of_fuel
        → Feeds total (suc fuel) d q out_of_fuel

  module _ (ne : a ≢ c) (total : ℕ) where
    -- The rounds that follow do what is said.
    abbrev GoesOn : ℕ → Type 0
    GoesOn fuel =
        (b : MemoryBuff) (d : WsDealWith) (q : List ℕ) (readlen : ℕ)
        → Holds a c b q k
        → length q < fuel
        → readlen + length q ≡ total
        → Feeds total fuel d q (connect_loop send response respond fuel (shaken d) b readlen)

    -- Behind the reader, on a piece of length `len`.
    after_ws_read-Feeds :
        (fuel : ℕ) (go : GoesOn fuel) (b : MemoryBuff) (d : WsDealWith) (q : List ℕ)
        (len readlen : ℕ)
        → 0 < len
        → len ≤ length q
        → (b' : MemoryBuff) × (adjust_read_size b len ≡ some b') × Holds a c b' (drop len q) k
        → length q < suc fuel
        → readlen + length q ≡ total
        → (r : Run (Option WsDealWith)) → ws_read_data send fuel d (take len q) ≡ r
        → Feeds total (suc fuel) d q (
            after_ws_read send response respond
              (connect_loop send response respond fuel)
              (shaken d)
              b
              len
              readlen
              r)
    unfolding after_ws_read
    after_ws_read-Feeds fuel go b d q len readlen pos le adjust f t fault e = faults len pos e
    after_ws_read-Feeds fuel go b d q len readlen pos le adjust f t out_of_fuel e =
        goes_on len pos e
    after_ws_read-Feeds fuel go b d q len readlen pos le adjust f t (returns none) e =
        refuses len pos e
    after_ws_read-Feeds fuel go b d q len readlen pos le adjust f t (returns (some d')) e =
        let (b', adj, held) = adjust in
        rw (adj, after_ws_read)
          (feeds len d' pos le e (
            go b' d' (drop len q) (readlen + len) held
              (omega (arith, length-drop len q, f, pos, le))
              (omega (arith, length-drop len q, t, le))))

    connect_round-Feeds :
        (fuel : ℕ) (go : GoesOn fuel) (b : MemoryBuff) (d : WsDealWith) (q : List ℕ) (readlen : ℕ)
        → Holds a c b q k
        → length q < suc fuel
        → readlen + length q ≡ total
        → Readable a c b q k
        → Feeds total (suc fuel) d q (
            connect_round send response respond fuel
              (connect_loop send response respond fuel)
              (shaken d)
              b
              readlen
              (get_read_buff b))
    unfolding connect_round
    connect_round-Feeds fuel go b d q readlen h f t (nothing r empty) =
        rw (r, connect_round)
          (subst (λ n. Feeds total (suc fuel) d q (returns (some (shaken d, b, n))))
            (sym (omega (arith, t, ap length empty)))
            (subst (λ l. Feeds total (suc fuel) d l (returns (some (shaken d, b, total))))
              (sym empty) (ends d b (subst (λ l. Holds a c b l k) empty h))))
    connect_round-Feeds fuel go b d q readlen h f t (some_bytes m len r pos le same adjust) =
        rw (r, connect_round)
          (rw same (
            after_ws_read-Feeds fuel go b d q len readlen pos le (adjust len (omega arith)) f t _
              refl))

    connect_loop-Feeds : (fuel : ℕ) → GoesOn fuel
    unfolding connect_loop
    connect_loop-Feeds zero b d q readlen h f t = absurd (omega arith)
    connect_loop-Feeds (suc fuel) b d q readlen h f t =
        connect_round-Feeds fuel (connect_loop-Feeds fuel) b d q readlen h f t
          (get_read_buff-Readable a c ne b q k h)

  -- What `readData` makes of the buffer.
  pub connect_read_data-Feeds :
      (ne : a ≢ c) (fuel : ℕ) (b : MemoryBuff) (d : WsDealWith) (q : List ℕ)
      → Holds a c b q k
      → length q < fuel
      → Feeds (length q) fuel d q (connect_read_data send response respond fuel (shaken d) b)
  unfolding connect_read_data
  connect_read_data-Feeds ne fuel b d q h f =
      connect_loop-Feeds ne (length q) fuel b d q 0 h f (omega arith)
