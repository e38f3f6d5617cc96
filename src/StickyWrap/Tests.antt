-- ===== src/StickyWrap/Tests.antt =====
-- The older reader on a buffer with the addresses 100 and 200.
use multithread_libevent_exa.Prelude.{
  ℕ, ◌≢◌, ◌≡◌, refl, arith, Bool, true, false, List, [], ◌∷◌, Option, none, some, replicate,
}
use multithread_libevent_exa.MemoryBuff.{MemoryBuff, new_memory_buff}
use multithread_libevent_exa.MemoryBuff.Phases.{Holds, new-Holds}
use multithread_libevent_exa.MemoryBuff.Write.{get_write_buff-Room}
use multithread_libevent_exa.Packets.{PackDealWith}
use multithread_libevent_exa.StickyWrap.{WsHead, unmask_all, sticky_read_data}
use multithread_libevent_exa.StickyWrap.Accept.{shaken, Accepts, sticky_read_data-Accepts}

abbrev first : ℕ
first = 100

abbrev second : ℕ
second = 200

first-second : first ≢ second
first-second = omega arith

abbrev made :
    (b : MemoryBuff) × (new_memory_buff 2 (first ∷ (second ∷ [])) ≡ some b)
    × Holds first second b [] 0
made = new-Holds first second first-second

-- Two bytes that are no request.
abbrev noise : List ℕ
noise = 1 ∷ (2 ∷ [])

abbrev filled : (b : MemoryBuff) × Holds first second b noise 2
filled =
    let room = get_write_buff-Room first second 300 first-second made.0 [] 0 made.2 in
    let (b, e, h) = room.fill noise (omega (arith, room.to_end)) (omega arith) in (b, h)

abbrev pack : PackDealWith
pack = record { head = true; p_data = replicate 4096 0; data_size = 0 }

abbrev no_head : WsHead
no_head = record { wbs = (0, 0); len = 0; masks = replicate 4 0 }

abbrev sends : List ℕ → Bool
sends bytes = true

abbrev refuses : List ℕ → Option (List ℕ)
refuses buff = none

sticky_read_data-Accepts_example :
    Accepts sends refuses sends first second pack no_head filled.0 noise 2 (
      sticky_read_data sends refuses sends
        (shaken sends refuses sends first second pack no_head false)
        filled.0)
sticky_read_data-Accepts_example =
    sticky_read_data-Accepts sends refuses sends first second pack no_head first-second filled.0
      noise 2 filled.1

-- A frame that announces more data than there is.
past_memory : unmask_all (0 ∷ 0 ∷ 0 ∷ 0 ∷ []) 2 0 (7 ∷ []) ≡ none
unfolding unmask_all
past_memory = refl
