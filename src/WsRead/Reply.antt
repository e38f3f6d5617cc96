-- ===== src/WsRead/Reply.antt =====
-- WsStickyWrap.cpp, `readData`: the first frame that arrives in one piece.
use multithread_libevent_exa.Prelude.{
  ℕ, suc, ◌+◌, ◌<◌, ◌≤◌, ◌≡◌, ◌⊎◌, refl, arith, Bool, true, false, List, [], ◌∷◌, ◌++◌, some,
  length,
}
use multithread_libevent_exa.Frames.{Ws, init_head}
use multithread_libevent_exa.Frames.Mask.{Accepted}
use multithread_libevent_exa.FdBridge.{returns, fault}
use multithread_libevent_exa.Packets.{PackDealWith}
use multithread_libevent_exa.WsRead.{WsDealWith, data_cap, ws_read_data}
use multithread_libevent_exa.WsRead.Heads.{idle}
use multithread_libevent_exa.WsRead.Whole.{whole_frame}
use multithread_libevent_exa.WsRead.Complete.{reply}
use multithread_libevent_exa.WsRead.Rest.{AtRest, arrives-control, arrives-data}

module _ (send : List ℕ → Bool) (s : Ws) (known : Bool) (block : List ℕ) (pack : PackDealWith)
    (sent : List (List ℕ)) (b0 m0 m1 m2 m3 c : ℕ) (cs : List ℕ) where
  abbrev pub start : WsDealWith
  start = idle s known block pack sent

  abbrev pub frame : List ℕ
  frame = whole_frame start b0 m0 m1 m2 m3 c cs

  module _ (e : s.op ≡ init_head) (few : length (c ∷ cs) < 126) (room : length block ≡ data_cap)
      (a : Accepted (m0 ∷ (m1 ∷ (m2 ∷ (m3 ∷ [])))) 0 (c ∷ cs)) where
    start-AtRest : AtRest start
    start-AtRest = record { waits = e; rest = refl; room = room }

    -- Take a connection that waits for a frame and whose memory of 8192 bytes is empty, and a close or
    -- ping frame of a client that arrives in one piece, with 1 to 125 bytes of data under a mask,
    -- where no masked byte is 255; and let the sending succeed. Then readData, on fuel for at least
    -- four rounds, returns, and it has given send one frame: of the opcode of the one received, with
    -- the unmasked data and a zero byte behind it. The bytes of the frame still count as bytes in the
    -- memory.
    pub ws_read_data-control :
        (fuel type : ℕ)
        → (type ≡ 8) ⊎ (type ≡ 9)
        → b0 ≡ 128 + type
        → send (reply (c ∷ cs) type) ≡ true
        → (d : WsDealWith) × (ws_read_data send (suc (suc (suc (suc fuel)))) start frame
            ≡ returns (some d))
          × (d.sent ≡ sent ++ (reply (c ∷ cs) type ∷ []))
          × (d.data_size ≡ 6 + length (c ∷ cs))
          × (d.read_size ≡ 6 + length (c ∷ cs))
    ws_read_data-control fuel type t b ok =
        let (d, run, h, st, ds, m) =
          arrives-control send start b0 m0 m1 m2 m3 c cs start-AtRest few (omega (arith, few)) a
            fuel type t b ok in
        (d, run, st, omega (arith, ds), omega (arith, ds, h.rest))

    -- Take a connection that waits for a frame and whose memory of 8192 bytes is empty, whose pack has
    -- a `_head` that is not set, and a frame of a client that arrives in one piece, its first byte
    -- being at least 128 and below 136, with 1 to 125 bytes of data under a mask, where no masked byte
    -- is 255. Then readData, on fuel for at least five rounds, ends in an access that has no defined
    -- behaviour.
    pub ws_read_data-data :
        (fuel : ℕ)
        → 128 ≤ b0
        → b0 < 136
        → pack.head ≡ false
        → ws_read_data send (suc (suc (suc (suc (suc fuel))))) start frame ≡ fault
    ws_read_data-data fuel ge lt k =
        arrives-data send start b0 m0 m1 m2 m3 c cs start-AtRest few (omega (arith, few)) a fuel
          refl ge lt k
