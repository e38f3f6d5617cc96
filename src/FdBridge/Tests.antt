-- ===== src/FdBridge/Tests.antt =====
-- A buffer at the addresses 100 and 200 that takes bytes from a pipe.
use multithread_libevent_exa.Prelude.{
  ℕ, ◌*◌, ◌-◌, ◌≢◌, ◌≡◌, refl, arith, List, [], ◌∷◌, some, false, length, take, replicate,
  length-replicate, length-take,
}
use multithread_libevent_exa.Handler.Pipe.{Pipe, pipe}
use multithread_libevent_exa.MemoryBuff.{MemoryBuff, new_memory_buff, list_node_data_size}
use multithread_libevent_exa.MemoryBuff.Phases.{Holds, new-Holds}
use multithread_libevent_exa.MemoryBuff.Write.{get_write_buff-Room}
use multithread_libevent_exa.FdBridge.{recv_loop, fault}
use multithread_libevent_exa.FdBridge.Receive.{Receives, recv_loop_lem}
use multithread_libevent_exa.FdBridge.Full.{recv_loop_full}

abbrev first : ℕ
first = 100

abbrev second : ℕ
second = 200

first-second : first ≢ second
first-second = omega arith

abbrev made :
    (b : MemoryBuff) × (new_memory_buff 2 (first ∷ (second ∷ [])) ≡ some b)
    × Holds first second b [] 0
made = new-Holds first second first-second

abbrev fresh : MemoryBuff → ℕ
fresh b = 300

abbrev three_bytes : Pipe
three_bytes = record { arrived = 1 ∷ (2 ∷ (3 ∷ [])); sent = []; full = false }

recv_loop_lem_example :
    Receives fresh pipe first second first-second [] 0 three_bytes
      (recv_loop fresh pipe 4 made.0 three_bytes)
recv_loop_lem_example =
    recv_loop_lem fresh pipe first second first-second 4 made.0 [] 0 three_bytes made.2
      (omega arith) (omega arith)

-- A buffer whose first node is full, and as many bytes as the second has room for.
abbrev zeros : List ℕ
zeros = replicate list_node_data_size 0

length-zeros : length zeros ≡ list_node_data_size
length-zeros = length-replicate {A = ℕ} list_node_data_size 0

abbrev half : (b : MemoryBuff) × Holds first second b zeros (length zeros)
half =
    let room = get_write_buff-Room first second 300 first-second made.0 [] 0 made.2 in
    let (b, e, h) =
      room.fill zeros (omega (arith, room.to_end, length-zeros)) (omega (arith, length-zeros)) in
    (b, h)

abbrev sevens : List ℕ
sevens = 7 ∷ replicate list_node_data_size 7

abbrev many_bytes : Pipe
many_bytes = record { arrived = sevens; sent = []; full = false }

abbrev left : ℕ
left = 2 * list_node_data_size - length zeros

recv_loop_full_example : recv_loop fresh pipe 2 half.0 many_bytes ≡ fault
recv_loop_full_example =
    recv_loop_full fresh pipe first second 0 (length zeros) half.0 zeros many_bytes _
      (take left sevens) half.1 (omega (arith, length-zeros)) refl
      (omega (
        arith,
        length-zeros,
        length-replicate {A = ℕ} list_node_data_size 7,
        length-take left sevens,
      ))
