-- ===== src/WsRead/Received.antt =====
-- WsStickyWrap.cpp, `readData`: a piece that is put behind what was read before.
use multithread_libevent_exa.Prelude.{
  take-of_length-le, ℕ, ◌+◌, ◌<◌, ◌≤◌, ◌≡◌, refl, sym, ap, ◌∙◌, arith, Bool, List, ◌∷◌, ◌++◌,
  length, take, drop, store, length-store, take-store, length-take, take-take, drop-take,
  take-append_of_le, drop-append_past, lt→ltb,
}
use multithread_libevent_exa.Frames.{Parsed}
use multithread_libevent_exa.WsRead.{
  WsDealWith, data_cap, unread, parsed_state, parse_loop, ws_read_data,
}
use multithread_libevent_exa.WsRead.Rounds.{Fits}

-- The state in which the loop begins.
abbrev pub received : WsDealWith → List ℕ → WsDealWith
received d bs = record d {
  p_data = store d.p_data d.data_size bs;
  data_size = d.data_size + length bs;
}

pub ws_read_data-received :
    (send : List ℕ → Bool) (fuel : ℕ) (d : WsDealWith) (b : ℕ) (bs : List ℕ)
    → d.data_size + length (b ∷ bs) < data_cap
    → ws_read_data send fuel d (b ∷ bs) ≡ parse_loop send fuel (received d (b ∷ bs))
unfolding ws_read_data
ws_read_data-received send fuel d b bs h =
    rw (lt→ltb (d.data_size + length (b ∷ bs)) data_cap h) refl

module _ (d : WsDealWith) (bs : List ℕ) (room : d.data_size + length bs ≤ length d.p_data) where
  -- The memory, up to the end of the piece.
  pub take-received :
      take (d.data_size + length bs) (received d bs).p_data ≡ take d.data_size d.p_data ++ bs
  take-received = take-store d.p_data d.data_size (d.data_size + length bs) bs refl room

  -- What stood before it is kept.
  pub take-received_before : take d.data_size (received d bs).p_data ≡ take d.data_size d.p_data
  take-received_before =
      sym (take-take d.data_size (d.data_size + length bs) (received d bs).p_data (omega arith))
      ∙ ap (take d.data_size) take-received
      ∙ take-append_of_le d.data_size (take d.data_size d.p_data) bs
          (omega (arith, length-take d.data_size d.p_data, room))
      ∙ take-take d.data_size d.data_size d.p_data (omega arith)

  pub Fits-received : d.read_size ≤ d.data_size → Fits (received d bs)
  Fits-received h = record {
    behind = omega (arith, h);
    inside = omega (arith, room, length-store d.p_data d.data_size bs);
  }

  -- When everything before was read, what is unread is the piece.
  pub unread-received : d.read_size ≡ d.data_size → unread (received d bs) ≡ bs
  unread-received e =
      let n = d.data_size + length bs in
      let pre : length (take d.data_size d.p_data) ≡ d.data_size =
        omega (arith, length-take d.data_size d.p_data, room) in
      sym (drop-take d.read_size n (received d bs).p_data (omega (arith, e)))
      ∙ ap (drop d.read_size) take-received
      ∙ drop-append_past d.read_size 0 (take d.data_size d.p_data) bs (omega (arith, e, pre))

-- The memory behind a round, up to the end of the bytes that the call left.
pub take-parsed_state :
    (d : WsDealWith) (p : Parsed) (n k : ℕ)
    → k ≡ d.read_size + length p.bytes
    → k ≤ length d.p_data
    → take k (parsed_state d p n).p_data ≡ take d.read_size d.p_data ++ p.bytes
unfolding parsed_state
take-parsed_state d p n k e h = take-store d.p_data d.read_size k p.bytes e h

-- Bytes that are written over others of the same number.
pub take-store_over :
    (m : List ℕ) (at n : ℕ) (pre old bs : List ℕ)
    → take n m ≡ pre ++ old
    → length pre ≡ at
    → length bs ≡ length old
    → at + length bs ≡ n
    → n ≤ length m
    → take n (store m at bs) ≡ pre ++ bs
take-store_over m at n pre old bs e p l s h =
    take-store m at n bs (sym s) h
    ∙ ap (λ k. k ++ bs)
        (sym (take-take at n m (omega (arith, s)))
          ∙ ap (take at) e
          ∙ take-append_of_le at pre old (omega (arith, p))
          ∙ take-of_length-le at pre (omega (arith, p)))
