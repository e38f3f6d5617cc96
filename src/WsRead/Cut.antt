-- ===== src/WsRead/Cut.antt =====
-- WsStickyWrap.cpp, `readData`: a piece that ends within the mask of a frame.
use multithread_libevent_exa.Prelude.{
  ℕ, suc, ◌+◌, ◌-◌, ◌<◌, ◌≡◌, refl, sym, ap, ◌∙◌, arith, Bool, true, List, ◌∷◌, some, length, store,
  replicate, length-store, take-store, ◌%◌, lt→ltb, ◌||◌,
}
use multithread_libevent_exa.Frames.{
  Ws, init_head, read_payload, read_mask_key, Parsed, pay_load, parse_ws_head, parse_op,
  parse_init_head, parse_payload,
}
use multithread_libevent_exa.FdBridge.{out_of_fuel}
use multithread_libevent_exa.WsRead.{
  WsDealWith, unread, data_cap, sets_head, parsed_state, parse_loop, ws_read_data,
}
use multithread_libevent_exa.Packets.{PackDealWith}
use multithread_libevent_exa.WsRead.Heads.{idle, no_index, or_true}
use multithread_libevent_exa.WsRead.Partial.{part_size, IsPartial, parse_loop-IsPartial}
use multithread_libevent_exa.WsRead.Rounds.{
  Fits, Fits-parsed_state, unread-parsed_state, parse_loop-round,
}

parse_init_head_lem :
    (s : Ws) (b0 b1 : ℕ) (bs : List ℕ)
    → s.op ≡ init_head
    → parse_ws_head s (b0 ∷ (b1 ∷ bs)) ≡ record {
      ws = record {
        op = read_payload;
        wbs = (b0, b1);
        len = 0;
        masks = replicate 4 0;
        parse_index = 0;
      };
      bytes = b0 ∷ (b1 ∷ bs);
      result = some 2;
    }
unfolding parse_ws_head parse_op parse_init_head
parse_init_head_lem s b0 b1 bs e = rw e refl

parse_payload_lem :
    (s : Ws) (b : ℕ) (bs : List ℕ)
    → s.op ≡ read_payload
    → pay_load s < 126
    → parse_ws_head s (b ∷ bs) ≡ record {
      ws = record s { op = read_mask_key; len = pay_load s };
      bytes = b ∷ bs;
      result = some 0;
    }
unfolding parse_ws_head parse_op parse_payload
parse_payload_lem s b bs e h = rw (e, parse_op) (rw (lt→ltb (pay_load s) 126 h) refl)

module _ (send : List ℕ → Bool) (s : Ws) (known : Bool) (block : List ℕ) (pack : PackDealWith)
    (sent : List (List ℕ)) (b0 b1 m : ℕ) (ms : List ℕ) where
  abbrev piece : List ℕ
  piece = b0 ∷ (b1 ∷ (m ∷ ms))

  abbrev arrived : WsDealWith
  arrived = record (idle s known block pack sent) {
    p_data = store block 0 piece;
    data_size = 0 + length piece;
  }

  abbrev parsed_head : Parsed
  parsed_head = record {
    ws = record {
      op = read_payload;
      wbs = (b0, b1);
      len = 0;
      masks = replicate 4 0;
      parse_index = 0;
    };
    bytes = piece;
    result = some 2;
  }

  abbrev parsed_length : Parsed
  parsed_length = record {
    ws = record {
      op = read_mask_key;
      wbs = (b0, b1);
      len = b1 % 128;
      masks = replicate 4 0;
      parse_index = 0;
    };
    bytes = m ∷ ms;
    result = some 0;
  }

  abbrev head_read : WsDealWith
  head_read = parsed_state arrived parsed_head 2

  abbrev length_read : WsDealWith
  length_read = parsed_state head_read parsed_length 0

  module _ (e : s.op ≡ init_head) (room : length block ≡ data_cap) (short : length ms < 3)
      (few : b1 % 128 < 126) where
    Fits-arrived : Fits arrived
    Fits-arrived = record {
      behind = omega arith;
      inside = omega (arith, room, length-store block 0 piece);
    }

    unread-arrived : unread arrived ≡ piece
    unread-arrived =
        take-store block 0 (0 + length piece - 0) piece (omega arith) (omega (arith, room))

    head_known : (known || sets_head s.op (some 2)) ≡ true
    head_known = ap (λ o. known || sets_head o (some 2)) e ∙ or_true known

    Fits-head_read : Fits head_read
    Fits-head_read = Fits-parsed_state arrived parsed_head 2 Fits-arrived (omega arith)

    unread-head_read : unread head_read ≡ m ∷ ms
    unread-head_read =
        unread-parsed_state arrived parsed_head 2 Fits-arrived (omega arith)
          (ap length (sym unread-arrived))

    length_read-IsPartial : IsPartial length_read
    unfolding parsed_state part_size
    length_read-IsPartial = record {
      fits = Fits-parsed_state head_read parsed_length 0 Fits-head_read (omega arith);
      head_known = rw head_known refl;
      incomplete = no_index _ refl;
      some_left = omega arith;
      few = omega arith;
    }

    two_rounds :
        (fuel : ℕ) → parse_loop send (suc (suc fuel)) arrived ≡ parse_loop send fuel length_read
    unfolding parsed_state
    two_rounds fuel =
        parse_loop-round send (suc fuel) 2 arrived parsed_head.ws piece
          (ap (parse_ws_head s) unread-arrived ∙ parse_init_head_lem s b0 b1 (m ∷ ms) e) head_known
          (no_index _ refl) (omega arith)
        ∙ parse_loop-round send fuel 0 head_read parsed_length.ws (m ∷ ms)
            (ap (parse_ws_head head_read.ws) unread-head_read
              ∙ parse_payload_lem head_read.ws m ms refl few)
            (rw head_known refl) (no_index _ refl) (omega arith)

    -- Take a connection that waits for a frame and whose memory of 8192 bytes is empty, and three to
    -- five bytes, of which the second announces a length below 126, so that the mask of the frame is
    -- not complete. Then readData does not end with any fuel for two or more rounds.
    pub ws_read_data-cut :
        (fuel : ℕ)
        → ws_read_data send (suc (suc fuel)) (idle s known block pack sent) (b0 ∷ (b1 ∷ (m ∷ ms)))
          ≡ out_of_fuel
    unfolding ws_read_data
    ws_read_data-cut fuel =
        rw (lt→ltb (0 + length piece) data_cap (omega arith))
          (two_rounds fuel ∙ parse_loop-IsPartial send fuel length_read length_read-IsPartial)
