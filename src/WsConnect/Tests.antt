-- ===== src/WsConnect/Tests.antt =====
-- The handshake of a connection whose buffer has the addresses 100 and 200.
use multithread_libevent_exa.Prelude.{
  ℕ, ◌≢◌, ◌≡◌, refl, arith, Bool, true, false, List, [], ◌∷◌, Option, some, replicate,
}
use multithread_libevent_exa.MemoryBuff.{MemoryBuff, new_memory_buff}
use multithread_libevent_exa.MemoryBuff.Phases.{Holds, new-Holds}
use multithread_libevent_exa.Frames.{init_head}
use multithread_libevent_exa.Packets.{new_pack}
use multithread_libevent_exa.WsRead.{WsDealWith, data_cap}
use multithread_libevent_exa.Handler.Pipe.{Pipe}
use multithread_libevent_exa.WsConnect.{WsConnect, has_blank, starts_blank}
use multithread_libevent_exa.WsConnect.Handshake.{new_connection}

abbrev first : ℕ
first = 100

abbrev second : ℕ
second = 200

first-second : first ≢ second
first-second = omega arith

abbrev made :
    (b : MemoryBuff) × (new_memory_buff 2 (first ∷ (second ∷ [])) ≡ some b)
    × Holds first second b [] 0
made = new-Holds first second first-second

-- "G" and a blank line.
abbrev request : List ℕ
request = 71 ∷ (13 ∷ (10 ∷ (13 ∷ (10 ∷ []))))

request-blank : has_blank request ≡ some true
unfolding has_blank starts_blank
request-blank = refl

abbrev new_deal : WsDealWith
new_deal = record {
  ws = record { op = init_head; wbs = (0, 0); len = 0; masks = replicate 4 0; parse_index = 0 };
  known = false;
  p_data = replicate data_cap 0;
  data_size = 0;
  read_size = 0;
  pack = new_pack (replicate 4096 0);
  sent = [];
}

abbrev sends : List ℕ → Bool
sends bytes = true

abbrev response : List ℕ → Option (List ℕ)
response buff = some (72 ∷ [])

-- The same request, from a socket.
abbrev fresh : MemoryBuff → ℕ
fresh b = 300

abbrev requested : Pipe
requested = record { arrived = request; sent = []; full = false }

abbrev connection : WsConnect
connection = new_connection sends response sends first second new_deal

-- A ping with "Hi", once the handshake is done.
abbrev pinged : Pipe
pinged = record { arrived = 137 ∷ 130 ∷ 1 ∷ 2 ∷ 3 ∷ 4 ∷ 73 ∷ 107 ∷ []; sent = []; full = false }
