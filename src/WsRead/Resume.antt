-- ===== src/WsRead/Resume.antt =====
-- WsStickyWrap.cpp, `readData`: the second piece of a frame that is cut within its data, and the answer.
use multithread_libevent_exa.Prelude.{
  ℕ, suc, ◌+◌, ◌-◌, ◌/◌, ◌%◌, ◌<◌, ◌≤◌, ◌≡◌, ◌⊎◌, refl, sym, ap, ◌∙◌, arith, Bool, true, false,
  List, [], ◌∷◌, ◌++◌, some, length, take, drop, ◌||◌, length-store, length-append, append_assoc,
  drop-take, drop-append_past, append-nil,
}
use multithread_libevent_exa.Frames.{
  Ws, init_head, opcod, cal_frame_head_size, Parsed, parse_ws_head,
}
use multithread_libevent_exa.Frames.Mask.{mask_from, Accepted, frame_masks, at_op}
use multithread_libevent_exa.Frames.Parts.{mask_from-append, Accepted-append, second_part}
use multithread_libevent_exa.FdBridge.{returns}
use multithread_libevent_exa.Packets.{PackDealWith}
use multithread_libevent_exa.WsRead.{
  WsDealWith, data_cap, parsed_state, is_complete, after_parse, loop_test, parse_loop, ws_read_data,
}
use multithread_libevent_exa.WsRead.Rounds.{parse_loop-last}
use multithread_libevent_exa.WsRead.Heads.{idle}
use multithread_libevent_exa.WsRead.Whole.{length-mask_from, whole_frame}
use multithread_libevent_exa.WsRead.Complete.{
  reply, head_size-short, is_complete-whole, answer_lem, complete_frame-control,
  after_parse_complete, loop_test-end,
}
use multithread_libevent_exa.WsRead.Received.{
  received, ws_read_data-received, take-received_before, unread-received, take-parsed_state,
}
use multithread_libevent_exa.WsRead.Pieces.{
  first_piece, ws_part, part_read, part_read-sizes, length-part_read, part_read-data,
  part_read-known, ws_read_data-first,
}

module _ (send : List ℕ → Bool) (s : Ws) (known : Bool) (block : List ℕ) (pack : PackDealWith)
    (sent : List (List ℕ)) (b0 m0 m1 m2 m3 c : ℕ) (cs : List ℕ) (y : ℕ) (ys : List ℕ) where
  abbrev masks : List ℕ
  masks = frame_masks s b0 m0 m1 m2 m3 c cs []

  abbrev msg : List ℕ
  msg = (c ∷ cs) ++ (y ∷ ys)

  abbrev part : ℕ
  part = length (c ∷ cs)

  sizes : length msg ≡ part + length (y ∷ ys)
  sizes = length-append (c ∷ cs) (y ∷ ys)

  -- What comes up to the cut, and the rest of the masked data.
  abbrev pub before_cut : List ℕ
  before_cut = first_piece s known block pack sent b0 m0 m1 m2 m3 c cs y ys

  abbrev pub behind_cut : List ℕ
  behind_cut = mask_from masks part (y ∷ ys)

  length-behind_cut : length behind_cut ≡ length (y ∷ ys)
  length-behind_cut = length-mask_from masks part (y ∷ ys)

  -- The two pieces make up the frame.
  pieces-frame :
      whole_frame (idle s known block pack sent) b0 m0 m1 m2 m3 c (cs ++ (y ∷ ys))
      ≡ before_cut ++ behind_cut
  pieces-frame =
      ap (λ bs. b0 ∷ (128 + length msg) ∷ m0 ∷ m1 ∷ m2 ∷ m3 ∷ bs)
        (append-nil (mask_from masks 0 msg)
          ∙ mask_from-append masks 0 part (c ∷ cs) (y ∷ ys) (omega arith))

  abbrev first_read : WsDealWith
  first_read = part_read s known block pack sent b0 m0 m1 m2 m3 c cs y ys

  abbrev parsed_rest : Parsed
  parsed_rest = record {
    ws = at_op s b0 m0 m1 m2 m3 c (cs ++ (y ∷ ys)) [] init_head (length msg) masks (length msg);
    bytes = y ∷ ys;
    result = some (length (y ∷ ys));
  }

  abbrev last : WsDealWith
  last = parsed_state (received first_read behind_cut) parsed_rest (length (y ∷ ys))

  first_sizes :
      (first_read.data_size ≡ 6 + part)
      × (first_read.read_size ≡ 6 + part)
      × (first_read.ws ≡ ws_part s known block pack sent b0 m0 m1 m2 m3 c cs y ys)
      × (first_read.sent ≡ sent)
  first_sizes = part_read-sizes s known block pack sent b0 m0 m1 m2 m3 c cs y ys

  last-size :
      (last.data_size ≡ 6 + length msg) × (last.read_size ≡ 6 + length msg) × (last.sent ≡ sent)
  unfolding parsed_state
  last-size =
      let (ds, rs, ws, st) = first_sizes in
      (omega (arith, ds, sizes, length-behind_cut), omega (arith, rs, sizes), st)

  last-head : length msg < 126 → cal_frame_head_size last.ws ≡ 6
  unfolding parsed_state
  last-head few = head_size-short last.ws (omega (arith, few))

  last_complete : b0 / 128 ≡ 1 → is_complete last.ws ≡ true
  unfolding parsed_state
  last_complete h = is_complete-whole last.ws h (omega arith) (omega arith)

  last-opcod : opcod last.ws ≡ b0 % 16
  unfolding parsed_state
  last-opcod = refl

  module _ (e : s.op ≡ init_head) (few : length msg < 126) (room : length block ≡ data_cap)
      (a : Accepted masks 0 msg) where
    accepted : Accepted masks 0 (c ∷ cs) × Accepted masks part (y ∷ ys)
    accepted = Accepted-append masks 0 part (c ∷ cs) (y ∷ ys) (omega arith) a

    fit : 6 + part ≤ length block
    fit = omega (arith, room, few, sizes)

    rest_fits : first_read.data_size + length behind_cut ≤ length first_read.p_data
    rest_fits =
        let (ds, rs, ws, st) = first_sizes in
        let l : length first_read.p_data ≡ length block =
          length-part_read s known block pack sent b0 m0 m1 m2 m3 c cs y ys fit in
        omega (arith, ds, l, room, few, sizes, length-behind_cut)

    last-known : last.known ≡ true
    unfolding parsed_state
    last-known =
        ap (λ k. k || false)
          (part_read-known s known block pack sent b0 m0 m1 m2 m3 c cs y ys fit send e few
            accepted.0)

    -- Behind the head stands all the data, unmasked.
    last-data : take (last.data_size - 6) (drop 6 last.p_data) ≡ msg
    unfolding parsed_state
    last-data =
        let (ds, rs, ws, st) = first_sizes in
        let (ds', rs', st') = last-size in
        let (h, six, before) =
          part_read-data s known block pack sent b0 m0 m1 m2 m3 c cs y ys fit in
        let here = received first_read behind_cut in
        let size : last.data_size ≡ here.read_size + length (y ∷ ys) =
          omega (arith, ds', rs, sizes) in
        let room : last.data_size ≤ length here.p_data =
          omega
            (arith, length-store first_read.p_data first_read.data_size behind_cut, rest_fits) in
        sym (drop-take 6 last.data_size last.p_data (omega (arith, ds')))
        ∙ ap (drop 6) (
            take-parsed_state here parsed_rest (length (y ∷ ys)) last.data_size size room
            ∙ ap (λ bs. bs ++ (y ∷ ys))
                (ap (λ k. take k here.p_data) (rs ∙ sym ds)
                  ∙ take-received_before first_read behind_cut rest_fits
                  ∙ ap (λ k. take k first_read.p_data) ds
                  ∙ before)
            ∙ append_assoc h (c ∷ cs) (y ∷ ys))
        ∙ drop-append_past 6 0 h msg (omega (arith, six))

    -- The round of the second call.
    round :
        (fuel : ℕ)
        → parse_loop send (suc fuel) (received first_read behind_cut)
          ≡ loop_test send (parse_loop send fuel) (after_parse send fuel last)
    round fuel =
        let (ds, rs, ws, st) = first_sizes in
        parse_loop-last send fuel (length (y ∷ ys)) (received first_read behind_cut) _ (y ∷ ys) (
          ap (parse_ws_head first_read.ws)
            (unread-received first_read behind_cut rest_fits (omega (arith, ds, rs)))
          ∙ ap (λ w. parse_ws_head w behind_cut) ws
          ∙ second_part s b0 m0 m1 m2 m3 c cs y ys few accepted.1)

    second_call :
        (fuel type : ℕ)
        → (type ≡ 8) ⊎ (type ≡ 9)
        → b0 ≡ 128 + type
        → send (reply msg type) ≡ true
        → ws_read_data send (suc fuel) first_read behind_cut
          ≡ returns (some (record last { sent = last.sent ++ (reply msg type ∷ []) }))
    second_call fuel type t b ok =
        let (ds, rs, ws, st) = first_sizes in
        let (ds', rs', st') = last-size in
        let d = record last { sent = last.sent ++ (reply msg type ∷ []) } in
        ws_read_data-received send (suc fuel) first_read _ _
          (omega (arith, ds, few, sizes, length-behind_cut))
        ∙ round fuel
        ∙ ap (loop_test send (parse_loop send fuel)) (
            after_parse_complete send fuel last last-known (last_complete (omega (arith, b, t)))
            ∙ complete_frame-control send fuel last type t (last-opcod ∙ omega (arith, b, t))
            ∙ answer_lem send last msg type (last-head few) (omega (arith, ds')) last-data ok)
        ∙ loop_test-end send (parse_loop send fuel) d (omega (arith, ds', rs'))

    -- Take a connection that waits for a frame and whose memory of 8192 bytes is empty, and a close or
    -- ping frame of a client with 2 to 125 bytes of data under a mask, where no masked byte is 255,
    -- which is cut anywhere between the first and the last byte of its data; and let the sending
    -- succeed. Then readData on the piece before the cut, on fuel for at least four rounds, returns
    -- and has sent nothing, and readData on the piece behind it, on fuel for at least one round,
    -- returns and has given send one frame: of the opcode of the one received, with all of the
    -- unmasked data and a zero byte behind it.
    pub ws_read_data-pieces :
        (fuel type : ℕ)
        → (type ≡ 8) ⊎ (type ≡ 9)
        → b0 ≡ 128 + type
        → send (reply msg type) ≡ true
        → (whole_frame (idle s known block pack sent) b0 m0 m1 m2 m3 c (cs ++ (y ∷ ys))
            ≡ before_cut ++ behind_cut)
          × (d1 d2 : WsDealWith) × (ws_read_data send
                (suc (suc (suc (suc fuel))))
                (idle s known block pack sent)
                before_cut
              ≡ returns (some d1))
          × (d1.sent ≡ sent)
          × (ws_read_data send (suc fuel) d1 behind_cut ≡ returns (some d2))
          × (d2.sent ≡ sent ++ (reply msg type ∷ []))
          × (d2.data_size ≡ 6 + length msg)
          × (d2.read_size ≡ 6 + length msg)
    ws_read_data-pieces fuel type t b ok =
        let (ds, rs, ws, st) = first_sizes in
        let (ds', rs', st') = last-size in
        (
          pieces-frame,
          first_read,
          record last { sent = last.sent ++ (reply msg type ∷ []) },
          ws_read_data-first s known block pack sent b0 m0 m1 m2 m3 c cs y ys fit send e few
              accepted.0 fuel (omega (arith, few, sizes)),
          st,
          second_call fuel type t b ok,
          ap (λ l. l ++ (reply msg type ∷ [])) st',
          ds',
          rs',
        )
