-- ===== src/WsConnect.antt =====
-- ExtNet/ws/WsConnect.cpp: the first piece that comes over a connection is a handshake, and those that
-- follow go to `readData` of WsStickyWrap (`WsRead`). `get_handshake_response` is the parameter
-- `response`, and `respond` says whether `send` succeeds.
pub mod Handshake
pub mod Serve
pub mod Feed
pub mod Stream
mod Tests
use multithread_libevent_exa.Prelude.{
  ℕ, zero, suc, ◌+◌, Bool, true, false, List, [], ◌∷◌, ◌++◌, Option, none, some, take, ◌==◌, ◌&&◌,
  if◌then◌else◌,
}
use multithread_libevent_exa.MemoryBuff.{MemoryBuff, get_read_buff, adjust_read_size}
use multithread_libevent_exa.FdBridge.{Run, returns, fault, out_of_fuel}
use multithread_libevent_exa.WsRead.{WsDealWith, ws_read_data}

-- `_Ishandshark`, and the part of WsStickyWrap.
pub record WsConnect : Type 0 where
  pub is_handshark : Bool
  pub deal : WsDealWith

-- The memory begins with "\r\n\r\n".
unfoldable pub starts_blank : List ℕ → Bool
starts_blank (a ∷ (b ∷ (c ∷ (d ∷ bs)))) = ((a == 13) && (b == 10)) && ((c == 13) && (d == 10))
starts_blank bs = false

-- `strstr(buff, "\r\n\r\n")`, which ends at a zero, by whether it finds something; `none` is a search that
-- leaves the memory.
unfoldable pub has_blank : List ℕ → Option Bool
has_blank [] = none
has_blank (b ∷ bs) =
    let rest = has_blank bs in
    if b == 0 then some false else (if starts_blank (b ∷ bs) then some true else rest)

module _ (send : List ℕ → Bool) (response : List ℕ → Option (List ℕ))
    (respond : List ℕ → Bool) where
  -- `do_handshake`: the response that was sent, or -1 as `none`.
  unfoldable pub do_handshake : List ℕ → Run (Option (List ℕ))
  do_handshake buff = elim (has_blank buff) [
    | none ↦ fault
    | some false ↦ returns none
    | some true ↦ elim (response buff) [
      | none ↦ returns none
      | some r ↦ returns (if respond r then some r else none)
    ]
  ]

  -- What a call of `readData` returns: -1 as `none`, or the connection, the buffer and the length.
  abbrev pub ConnectResult : Type 0
  ConnectResult = Run (Option (WsConnect × MemoryBuff × ℕ))

  -- What follows `do_handshake` on `len` bytes.
  unfoldable pub after_handshake :
      WsConnect → MemoryBuff → ℕ → Run (Option (List ℕ)) → ConnectResult
  after_handshake w b len fault = fault
  after_handshake w b len out_of_fuel = out_of_fuel
  after_handshake w b len (returns none) = returns none
  after_handshake w b len (returns (some r)) = elim (adjust_read_size b len) [
    | none ↦ fault
    | some b' ↦ returns (
        some (
          record { is_handshark = true; deal = record w.deal { sent = w.deal.sent ++ (r ∷ []) } },
          b',
          len,
        ))
  ]

  -- What follows `WsStickyWrap::readData` on `len` bytes, with `go` the rounds that follow.
  unfoldable pub after_ws_read :
      (WsConnect → MemoryBuff → ℕ → ConnectResult)
      → WsConnect
      → MemoryBuff
      → ℕ
      → ℕ
      → Run (Option WsDealWith)
      → ConnectResult
  after_ws_read go w b len readlen fault = fault
  after_ws_read go w b len readlen out_of_fuel = out_of_fuel
  after_ws_read go w b len readlen (returns none) = returns none
  after_ws_read go w b len readlen (returns (some d)) = elim (adjust_read_size b len) [
    | none ↦ fault
    | some b' ↦ go (record w { deal = d }) b' (readlen + len)
  ]

  -- A round on what `GetReadBuff` returned.
  unfoldable pub connect_round :
      ℕ
      → (WsConnect → MemoryBuff → ℕ → ConnectResult)
      → WsConnect
      → MemoryBuff
      → ℕ
      → Option (Option (List ℕ × ℕ))
      → ConnectResult
  connect_round fuel go w b readlen none = fault
  connect_round fuel go w b readlen (some none) = returns (some (w, b, readlen))
  connect_round fuel go w b readlen (some (some (m, len))) =
      if w.is_handshark
      then after_ws_read go w b len readlen (ws_read_data send fuel w.deal (take len m))
      else after_handshake w b len (do_handshake m)

  -- The loop of `readData`, on fuel.
  pub connect_loop : ℕ → WsConnect → MemoryBuff → ℕ → ConnectResult
  connect_loop zero w b readlen = out_of_fuel
  connect_loop (suc fuel) w b readlen =
      connect_round fuel (connect_loop fuel) w b readlen (get_read_buff b)

  unfoldable pub connect_read_data : ℕ → WsConnect → MemoryBuff → ConnectResult
  connect_read_data fuel w b = connect_loop fuel w b 0
