-- ===== src/Client/Send.antt =====
-- client.cc, `read_terminal` and `event_cb`: a line on its way from the terminal to the connection.
use multithread_libevent_exa.Prelude.{
  ℕ, ◌+◌, ◌⊎◌, inl, inr, ◌/◌, ◌%◌, ◌<◌, ◌≤◌, ◌≡◌, refl, arith, true, false, List, ◌∷◌, Option, none,
  some, length, take, drop, le→leb, lt→leb,
}
use multithread_libevent_exa.MemoryBuff.{◌>>=◌}
use multithread_libevent_exa.Packets.Encode.{le_bytes, le_value}
use multithread_libevent_exa.Client.{
  Bufferevent, Events, buff_of, c_string, send_buff, keeps, event_cb, read_terminal,
}
use multithread_libevent_exa.Client.Print.{c_string-short}

-- The packet with the number 100.
abbrev pub low_byte : List ℕ → ℕ
low_byte bs = (4 + length bs) % 256

abbrev pub high_byte : List ℕ → ℕ
high_byte bs = (4 + length bs) / 256

abbrev pub line_packet : List ℕ → List ℕ
line_packet bs = low_byte bs ∷ (high_byte bs ∷ (100 ∷ (0 ∷ bs)))

send_buff_lem : (bs : List ℕ) → length bs ≤ 1020 → send_buff bs ≡ some (line_packet bs)
unfolding send_buff le_bytes
send_buff_lem bs h =
    let n = length bs in
    let e : (4 + n) % 65536 ≡ 4 + n = omega arith in
    let high : (4 + n) / 256 % 256 ≡ (4 + n) / 256 = omega arith in
    rw (le→leb (4 + n) 1024 (omega arith)) (rw e (rw high refl))

module _ (bufferevent : Bufferevent) (s : bufferevent.State) where
  -- The end of `read_terminal`.
  abbrev write_line :
      Option (List ℕ) → Option (List ℕ) → Option bufferevent.State → Option bufferevent.State
  write_line str packet bev = do
    printed ← str
    bytes ← packet
    s2 ← bev
    some (bufferevent.write s2 bytes)

  read_terminal_lem :
      (bs : List ℕ)
      → length bs ≤ 1020
      → read_terminal bufferevent (some bs) (some s) ≡ some (bufferevent.write s (line_packet bs))
  unfolding read_terminal
  read_terminal_lem bs h =
      rw (c_string-short bs 1024 (omega arith), ◌>>=◌) (rw (send_buff_lem bs h, ◌>>=◌) refl)

  -- For a line of at most 1020 bytes, read_terminal of the client gives bufferevent_write one packet:
  -- a reader of little-endian numbers finds in its first two bytes the length of the whole packet and
  -- in the next two the number 100, and behind them stands the line.
  pub read_terminal-packet :
      (bs : List ℕ)
      → length bs ≤ 1020
      → (packet : List ℕ) × (read_terminal bufferevent (some bs) (some s)
          ≡ some (bufferevent.write s packet))
        × (le_value (take 2 packet) ≡ length packet)
        × (le_value (take 2 (drop 2 packet)) ≡ 100)
        × (drop 4 packet ≡ bs)
  unfolding le_value
  read_terminal-packet bs h = (line_packet bs, read_terminal_lem bs h, omega arith, refl, refl)

  frees :
      (e : Events)
      → (e.connected ≡ false) ⊎ ((e.eof ≡ true) ⊎ (e.error ≡ true))
      → event_cb bufferevent e (some s) ≡ some none
  unfolding event_cb keeps
  frees e (inl c) = rw c (ground arith)
  frees e (inr (inl o)) = rw o refl
  frees e (inr (inr r)) = rw r (ground arith)

  freed : (str packet : Option (List ℕ)) → write_line str packet none ≡ none
  freed none packet = refl
  freed (some str) none = refl
  freed (some str) (some packet) = refl

  -- On an event that ends the connection the bufferevent is freed, and a line typed then goes to it.
  event_cb-read_terminal :
      (e : Events) (typed : List ℕ)
      → (e.connected ≡ false) ⊎ ((e.eof ≡ true) ⊎ (e.error ≡ true))
      → (event_cb bufferevent e (some s) ≡ some none)
        × (read_terminal bufferevent (some typed) none ≡ none)
  unfolding read_terminal
  event_cb-read_terminal e typed h = (frees e h, freed (c_string (buff_of typed)) (send_buff typed))

  no_packet :
      (str : Option (List ℕ)) (bev : Option bufferevent.State) → write_line str none bev ≡ none
  no_packet none bev = refl
  no_packet (some str) bev = refl

  -- A longer line is written past the block of 1024 bytes.
  read_terminal-long :
      (bs : List ℕ) (bev : Option bufferevent.State)
      → 1020 < length bs
      → read_terminal bufferevent (some bs) bev ≡ none
  unfolding read_terminal send_buff
  read_terminal-long bs bev h =
      rw (lt→leb (4 + length bs) 1024 (omega arith)) (no_packet (c_string (buff_of bs)) bev)
