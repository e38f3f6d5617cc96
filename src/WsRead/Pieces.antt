-- ===== src/WsRead/Pieces.antt =====
-- WsStickyWrap.cpp, `readData`: the first piece of a frame that is cut within its data.
use multithread_libevent_exa.Prelude.{
  ℕ, suc, ◌+◌, ◌<◌, ◌≤◌, ◌≡◌, refl, ap, ◌∙◌, arith, Bool, true, false, List, [], ◌∷◌, ◌++◌, some,
  length, take, ◌||◌, length-store, length-append, length-take,
}
use multithread_libevent_exa.Frames.{Ws, init_head, read_data, Parsed, parse_ws_head}
use multithread_libevent_exa.Frames.Mask.{mask_from, Accepted, frame_masks, at_op}
use multithread_libevent_exa.Frames.Parts.{first_part}
use multithread_libevent_exa.FdBridge.{returns}
use multithread_libevent_exa.Packets.{PackDealWith}
use multithread_libevent_exa.WsRead.{
  WsDealWith, data_cap, parsed_state, is_complete, after_parse, loop_test, parse_loop, ws_read_data,
}
use multithread_libevent_exa.WsRead.Rounds.{parse_loop-last, after_parse-known}
use multithread_libevent_exa.WsRead.Heads.{
  idle, head_and, mask_read, unread-mask_read, length-mask_read, mask_read-known, ws_read_data-head,
}
use multithread_libevent_exa.WsRead.Whole.{length-mask_from}
use multithread_libevent_exa.WsRead.Complete.{loop_test-end}
use multithread_libevent_exa.WsRead.Received.{take-parsed_state}

is_complete-part : (s : Ws) → s.parse_index < s.len → is_complete s ≡ false
unfolding is_complete
is_complete-part s h = ground arith

module _ (s : Ws) (known : Bool) (block : List ℕ) (pack : PackDealWith) (sent : List (List ℕ))
    (b0 m0 m1 m2 m3 c : ℕ) (cs : List ℕ) (y : ℕ) (ys : List ℕ) where
  abbrev masks : List ℕ
  masks = frame_masks s b0 m0 m1 m2 m3 c cs []

  abbrev size : ℕ
  size = length ((c ∷ cs) ++ (y ∷ ys))

  abbrev part : ℕ
  part = length (c ∷ cs)

  abbrev first_data : List ℕ
  first_data = mask_from masks 0 (c ∷ cs)

  -- The head of the frame, the mask, and the data up to the cut.
  abbrev pub first_piece : List ℕ
  first_piece = head_and (idle s known block pack sent) b0 m0 m1 m2 m3 c (cs ++ (y ∷ ys)) first_data

  pub length-first_data : length first_data ≡ part
  length-first_data = length-mask_from masks 0 (c ∷ cs)

  sizes : size ≡ part + length (y ∷ ys)
  sizes = length-append (c ∷ cs) (y ∷ ys)

  abbrev before_data : WsDealWith
  before_data =
      mask_read (idle s known block pack sent) b0 m0 m1 m2 m3 c (cs ++ (y ∷ ys)) first_data

  abbrev pub ws_part : Ws
  ws_part = at_op s b0 m0 m1 m2 m3 c (cs ++ (y ∷ ys)) [] read_data size masks part

  abbrev parsed_part : Parsed
  parsed_part = record { ws = ws_part; bytes = c ∷ cs; result = some part }

  -- The state in which the first call ends.
  abbrev pub part_read : WsDealWith
  part_read = parsed_state before_data parsed_part part

  pub part_read-sizes :
      (part_read.data_size ≡ 6 + part)
      × (part_read.read_size ≡ 6 + part)
      × (part_read.ws ≡ ws_part)
      × (part_read.sent ≡ sent)
  unfolding parsed_state
  part_read-sizes = (omega (arith, length-first_data), omega arith, refl, refl)

  module _ (fit : 6 + part ≤ length block) where
    fits : 0 + (6 + length first_data) ≤ length block
    fits = omega (arith, fit, length-first_data)

    length-before_data : length before_data.p_data ≡ length block
    length-before_data =
        length-mask_read (idle s known block pack sent) b0 m0 m1 m2 m3 c (cs ++ (y ∷ ys)) first_data
          refl fits

    pub length-part_read : length part_read.p_data ≡ length block
    unfolding parsed_state
    length-part_read = length-store before_data.p_data 6 (c ∷ cs) ∙ length-before_data

    -- Behind six bytes stands the data of the first piece, unmasked.
    pub part_read-data :
        (h : List ℕ) × (length h ≡ 6) × (take (6 + part) part_read.p_data ≡ h ++ (c ∷ cs))
    unfolding parsed_state
    part_read-data = (
      take 6 before_data.p_data,
      omega (arith, length-take 6 before_data.p_data, length-before_data, fit),
      take-parsed_state before_data parsed_part part (6 + part) refl
          (omega (arith, length-before_data, fit)),
    )

    module _ (send : List ℕ → Bool) (e : s.op ≡ init_head) (few : size < 126)
        (a : Accepted masks 0 (c ∷ cs)) where
      pub part_read-known : part_read.known ≡ true
      unfolding parsed_state
      part_read-known =
          ap (λ k. k || false)
            (mask_read-known (idle s known block pack sent) b0 m0 m1 m2 m3 c (cs ++ (y ∷ ys))
              first_data refl fits send e few (omega (arith, length-first_data)))

      last_round :
          (fuel : ℕ)
          → parse_loop send (suc fuel) before_data
            ≡ loop_test send (parse_loop send fuel) (after_parse send fuel part_read)
      unfolding parsed_state
      last_round fuel = parse_loop-last send fuel part before_data _ (c ∷ cs) (
          ap (parse_ws_head before_data.ws) (
            unread-mask_read (idle s known block pack sent) b0 m0 m1 m2 m3 c (cs ++ (y ∷ ys))
              first_data refl fits)
          ∙ first_part s b0 m0 m1 m2 m3 c cs y ys few a)

      -- The call reads all of its piece, and answers nothing.
      pub ws_read_data-first :
          (fuel : ℕ)
          → 6 + part < data_cap
          → ws_read_data send
              (suc (suc (suc (suc fuel))))
              (idle s known block pack sent)
              first_piece
            ≡ returns (some part_read)
      ws_read_data-first fuel h =
          let (ds, rs, ws, st) = part_read-sizes in
          ws_read_data-head (idle s known block pack sent) b0 m0 m1 m2 m3 c (cs ++ (y ∷ ys))
            first_data refl fits send e few (omega (arith, length-first_data)) (suc fuel)
            (omega (arith, h, length-first_data))
          ∙ last_round fuel
          ∙ ap (loop_test send (parse_loop send fuel)) (
              after_parse-known send fuel part_read part_read-known
                (ap is_complete ws ∙ is_complete-part _ (omega (arith, sizes))))
          ∙ loop_test-end send (parse_loop send fuel) part_read (omega (arith, ds, rs))
