-- ===== src/Client/Tests.antt =====
-- The client on concrete bytes.
use multithread_libevent_exa.Prelude.{
  ℕ, ◌≡◌, arith, List, [], ◌∷◌, ◌++◌, some, take, drop, length, length-take,
}
use multithread_libevent_exa.Packets.Encode.{le_value}
use multithread_libevent_exa.Client.{Bufferevent, read_terminal}
use multithread_libevent_exa.Client.Send.{read_terminal-packet}

-- What has come, and what has been written.
abbrev two_lists : Bufferevent
two_lists = record {
  State = List ℕ × List (List ℕ);
  read = λ s n. (take n s.0, (drop n s.0, s.1));
  write = λ s bs. (s.0, s.1 ++ (bs ∷ []));
  read-length = λ s n. omega (arith, length-take n s.0);
}

abbrev bye : List ℕ
bye = 98 ∷ (121 ∷ (101 ∷ []))

abbrev bye_came : List ℕ × List (List ℕ)
bye_came = (bye, [])

read_terminal-packet_example :
    (packet : List ℕ) × (read_terminal two_lists (some bye) (some bye_came)
      ≡ some (bye, packet ∷ []))
    × (le_value (take 2 packet) ≡ length packet)
    × (le_value (take 2 (drop 2 packet)) ≡ 100)
    × (drop 4 packet ≡ bye)
read_terminal-packet_example = read_terminal-packet two_lists bye_came bye (omega arith)
