-- ===== src/MemoryBuff/Tests.antt =====
-- A buffer of two nodes, at the addresses 100 and 200.
use multithread_libevent_exa.Prelude.{ℕ, ◌≢◌, ◌≡◌, List, arith, [], ◌∷◌, some}
use multithread_libevent_exa.MemoryBuff.{MemoryBuff, new_memory_buff}
use multithread_libevent_exa.MemoryBuff.Phases.{Holds, new-Holds}
use multithread_libevent_exa.MemoryBuff.Write.{Room, get_write_buff-Room}
use multithread_libevent_exa.MemoryBuff.Read.{Readable, get_read_buff-Readable}

abbrev first : ℕ
first = 100

abbrev second : ℕ
second = 200

first-second : first ≢ second
first-second = omega arith

abbrev made :
    (b : MemoryBuff) × (new_memory_buff 2 (first ∷ (second ∷ [])) ≡ some b)
    × Holds first second b [] 0
made = new-Holds first second first-second

get_write_buff-Room_example : Room first second 300 first-second made.0 [] 0
get_write_buff-Room_example = get_write_buff-Room first second 300 first-second made.0 [] 0 made.2

abbrev abc : List ℕ
abc = 1 ∷ (2 ∷ (3 ∷ []))

abbrev filled : (b : MemoryBuff) × Holds first second b abc 3
filled =
    let room = get_write_buff-Room first second 300 first-second made.0 [] 0 made.2 in
    let (b, e, h) = room.fill abc (omega (arith, room.to_end)) (omega arith) in (b, h)

get_read_buff-Readable_example : Readable first second filled.0 abc 3
get_read_buff-Readable_example =
    get_read_buff-Readable first second first-second filled.0 abc 3 filled.1
