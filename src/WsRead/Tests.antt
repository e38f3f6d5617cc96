-- ===== src/WsRead/Tests.antt =====
-- Frames that come to a connection whose memory is empty.
use multithread_libevent_exa.Prelude.{
  none, ℕ, ◌≡◌, refl, arith, true, false, Bool, List, [], ◌∷◌, ◌++◌, some, length, replicate,
  length-replicate, inr,
}
use multithread_libevent_exa.Frames.{Ws, init_head}
use multithread_libevent_exa.Frames.Bits.{bits_xor}
use multithread_libevent_exa.Frames.Mask.{Accepted}
use multithread_libevent_exa.FdBridge.{returns, fault, out_of_fuel}
use multithread_libevent_exa.Packets.{PackDealWith, new_pack, pack_cap}
use multithread_libevent_exa.WsRead.{WsDealWith, data_cap, ws_read_data}
use multithread_libevent_exa.WsRead.Cut.{ws_read_data-cut}
use multithread_libevent_exa.WsRead.Whole.{whole_frame}
use multithread_libevent_exa.WsRead.Rest.{AtRest, arrives-refused}
use multithread_libevent_exa.WsRead.Repeat.{Control, IsControl, calls, calls-answers}
use multithread_libevent_exa.WsRead.Resume.{before_cut, behind_cut, ws_read_data-pieces}
use multithread_libevent_exa.WsRead.Heads.{idle}
use multithread_libevent_exa.WsRead.Complete.{reply}
use multithread_libevent_exa.WsRead.Reply.{start, frame, ws_read_data-data}

abbrev new_ws : Ws
new_ws = record { op = init_head; wbs = (0, 0); len = 0; masks = replicate 4 0; parse_index = 0 }

abbrev block : List ℕ
block = replicate data_cap 0

length-block : length block ≡ data_cap
length-block = length-replicate {A = ℕ} data_cap 0

abbrev no_pack : PackDealWith
no_pack = new_pack (replicate pack_cap 0)

no_pack-head : no_pack.head ≡ false
unfolding new_pack
no_pack-head = refl

-- "Hi", whose bytes do not become 255 under the mask 1 2 3 4.
hi-Accepted : Accepted (1 ∷ 2 ∷ 3 ∷ 4 ∷ []) 0 (72 ∷ 105 ∷ [])
unfolding bits_xor
hi-Accepted = (omega arith, refl, (omega arith, refl, tt))

-- "Hi!", of which "H" comes first.
hi_there-Accepted : Accepted (1 ∷ 2 ∷ 3 ∷ 4 ∷ []) 0 (72 ∷ 105 ∷ 33 ∷ [])
unfolding bits_xor
hi_there-Accepted = (omega arith, refl, (omega arith, refl, (omega arith, refl, tt)))

abbrev sends : List ℕ → Bool
sends bytes = true

ws_read_data-data_example :
    ws_read_data sends 6
      (start sends new_ws false block no_pack [] 129 1 2 3 4 72 (105 ∷ []))
      (frame sends new_ws false block no_pack [] 129 1 2 3 4 72 (105 ∷ []))
    ≡ fault
ws_read_data-data_example =
    ws_read_data-data sends new_ws false block no_pack [] 129 1 2 3 4 72 (105 ∷ []) refl
      (omega arith) length-block hi-Accepted 1 (omega arith) (omega arith) no_pack-head

-- The head of a text frame, with the first byte of its mask.
ws_read_data-cut_example :
    ws_read_data sends 9 (idle new_ws false block no_pack []) (129 ∷ (130 ∷ (1 ∷ []))) ≡ out_of_fuel
ws_read_data-cut_example =
    ws_read_data-cut sends new_ws false block no_pack [] 129 130 1 [] refl length-block
      (omega arith) (omega arith) 7

ws_read_data-pieces_example :
    (whole_frame (idle new_ws false block no_pack []) 137 1 2 3 4 72 (105 ∷ 33 ∷ [])
      ≡ before_cut sends new_ws false block no_pack [] 137 1 2 3 4 72 [] 105 (33 ∷ [])
        ++ behind_cut sends new_ws false block no_pack [] 137 1 2 3 4 72 [] 105 (33 ∷ []))
    × (d1 d2 : WsDealWith) × (ws_read_data sends 5
          (idle new_ws false block no_pack [])
          (before_cut sends new_ws false block no_pack [] 137 1 2 3 4 72 [] 105 (33 ∷ []))
        ≡ returns (some d1))
    × (d1.sent ≡ [])
    × (ws_read_data sends 2 d1
          (behind_cut sends new_ws false block no_pack [] 137 1 2 3 4 72 [] 105 (33 ∷ []))
        ≡ returns (some d2))
    × (d2.sent ≡ reply (72 ∷ 105 ∷ 33 ∷ []) 9 ∷ [])
    × (d2.data_size ≡ 9)
    × (d2.read_size ≡ 9)
ws_read_data-pieces_example =
    ws_read_data-pieces sends new_ws false block no_pack [] 137 1 2 3 4 72 [] 105 (33 ∷ []) refl
      (omega arith) length-block hi_there-Accepted 1 9 (inr refl) refl refl

abbrev sends_all : (bs : List ℕ) → sends bs ≡ true
sends_all bs = refl

-- Two pings with "Hi".
abbrev ping : Control
ping = record { type = 9; m0 = 1; m1 = 2; m2 = 3; m3 = 4; c = 72; cs = 105 ∷ [] }

ping-IsControl : IsControl ping
ping-IsControl = (inr refl, omega arith, hi-Accepted)

abbrev at_start : WsDealWith
at_start = idle new_ws false block no_pack []

at_start-AtRest : AtRest at_start
at_start-AtRest = record { waits = refl; rest = refl; room = length-block }

calls-answers_example :
    (d : WsDealWith) × (calls sends 5 at_start (ping ∷ ping ∷ []) ≡ returns (some d))
    × AtRest d
    × (d.sent
        ≡ reply (72 ∷ 105 ∷ []) 9
          ∷ reply (72 ∷ 105 ∷ 137 ∷ 130 ∷ 1 ∷ 2 ∷ 3 ∷ 4 ∷ 72 ∷ 105 ∷ []) 9
          ∷ [])
    × (d.data_size ≡ 16)
calls-answers_example =
    calls-answers sends 1 sends_all at_start (ping ∷ ping ∷ []) at_start-AtRest
      (ping-IsControl, (ping-IsControl, tt)) (omega arith)

-- Behind a ping, of which eight bytes are in the memory.
abbrev behind_ping : WsDealWith
behind_ping = record at_start { data_size = 8; read_size = 8 }

behind_ping-AtRest : AtRest behind_ping
behind_ping-AtRest = record { waits = refl; rest = refl; room = length-block }

arrives-refused_example :
    ws_read_data sends 5 behind_ping (whole_frame behind_ping 129 1 2 3 4 72 (105 ∷ []))
    ≡ returns none
arrives-refused_example =
    arrives-refused sends behind_ping 129 1 2 3 4 72 (105 ∷ []) behind_ping-AtRest (omega arith)
      (omega arith) hi-Accepted 1 (omega arith) (omega arith) (omega arith)
