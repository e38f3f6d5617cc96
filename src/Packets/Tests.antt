-- ===== src/Packets/Tests.antt =====
-- Packets on concrete bytes.
use multithread_libevent_exa.Prelude.{
  ℕ, ◌≡◌, ◌≢◌, ◌+◌, ◌⊎◌, ◌++◌, none, refl, arith, true, false, List, [], ◌∷◌, some, length, take,
  drop, replicate,
}
use multithread_libevent_exa.FdBridge.{returns, fault}
use multithread_libevent_exa.Handler.{failed}
use multithread_libevent_exa.Handler.Pipe.{Pipe, pipe}
use multithread_libevent_exa.MemoryBuff.{MemoryBuff, new_memory_buff}
use multithread_libevent_exa.MemoryBuff.Phases.{Holds, new-Holds}
use multithread_libevent_exa.Packets.{new_pack}
use multithread_libevent_exa.FdBridge.Receive.{Cause}
use multithread_libevent_exa.Packets.Connect.{tcp_connect_read, tcp_connect_read-Fails}
use multithread_libevent_exa.Packets.{PackDealWith, pack_cap, head_len, head_msg_id}
use multithread_libevent_exa.Packets.Encode.{ServerPack, make_server_msg, le_value, server_pack_lem}

abbrev hello : List ℕ
hello = 104 ∷ (101 ∷ (108 ∷ []))

server_pack_lem_example :
    (p : ServerPack) × (make_server_msg 70000 hello 300 ≡ some p)
    × (le_value (take 2 p.p_data) ≡ 8 + length hello)
    × (le_value (take 2 (drop 2 p.p_data)) ≡ 300)
    × (le_value (take 4 (drop 4 p.p_data)) ≡ 70000)
    × (drop 8 p.p_data ≡ hello)
    × (length p.p_data ≡ p.size)
server_pack_lem_example = server_pack_lem 70000 300 hello (omega arith) (omega arith) (omega arith)

-- A packet of eight bytes with the number 5, of which six have come, and whose head can be read.
abbrev six_bytes : PackDealWith
six_bytes = record {
  head = true;
  p_data = 8 ∷ (0 ∷ (5 ∷ (0 ∷ (1 ∷ (2 ∷ (0 ∷ (0 ∷ [])))))));
  data_size = 6;
}

six_bytes-len : head_len six_bytes ≡ some 8
unfolding head_len
six_bytes-len = refl

six_bytes-msg_id : head_msg_id six_bytes ≡ some 5
unfolding head_msg_id
six_bytes-msg_id = refl

-- An empty block.
abbrev zeros : List ℕ
zeros = replicate pack_cap 0

-- A connection whose buffer has the addresses 100 and 200, and a socket at which three bytes have arrived.
abbrev first : ℕ
first = 100

abbrev second : ℕ
second = 200

first-second : first ≢ second
first-second = omega arith

abbrev made :
    (b : MemoryBuff) × (new_memory_buff 2 (first ∷ (second ∷ [])) ≡ some b)
    × Holds first second b [] 0
made = new-Holds first second first-second

abbrev three_came : Pipe
three_came = record { arrived = hello; sent = []; full = false }

abbrev fresh : MemoryBuff → ℕ
fresh b = 300

tcp_connect_read-Fails_example :
    (tcp_connect_read fresh pipe 4 (new_pack zeros) made.0 three_came ≡ fault)
    ⊎ ((s : Pipe) × (taken : List ℕ) × (tcp_connect_read fresh pipe 4
            (new_pack zeros)
            made.0
            three_came
          ≡ returns (failed, (none, s)))
        × (hello ≡ taken ++ s.arrived)
        × Cause fresh pipe first second first-second s failed)
tcp_connect_read-Fails_example =
    tcp_connect_read-Fails fresh pipe first second first-second zeros [] 0 three_came 3 made.0
      made.2 (omega arith) (omega arith)
