-- ===== src/WsRead/Whole.antt =====
-- WsStickyWrap.cpp, `readData`: the frame of a client that arrives in one piece, up to its last round.
use multithread_libevent_exa.Prelude.{
  append_assoc, length-store, ℕ, suc, ◌+◌, ◌<◌, ◌≤◌, ◌≡◌, refl, ap, ◌∙◌, arith, Bool, true, false,
  List, [], ◌∷◌, ◌++◌, some, length, take, ◌||◌, length-append, append-nil,
}
use multithread_libevent_exa.Frames.{init_head, Parsed, parse_ws_head}
use multithread_libevent_exa.Frames.Mask.{
  mask_from, Accepted, frame_masks, masked, at_op, fourth_call,
}
use multithread_libevent_exa.WsRead.{
  WsDealWith, data_cap, unread, parsed_state, after_parse, loop_test, parse_loop, ws_read_data,
}
use multithread_libevent_exa.WsRead.Rounds.{parse_loop-last}
use multithread_libevent_exa.WsRead.Heads.{
  head_and, mask_read, unread-mask_read, mask_read-known, ws_read_data-head, heading, length-old,
  take-mask_read, length-mask_read,
}
use multithread_libevent_exa.WsRead.Received.{take-store_over}

pub length-mask_from :
    (masks : List ℕ) (i : ℕ) (bs : List ℕ) → length (mask_from masks i bs) ≡ length bs
length-mask_from masks i [] = refl
length-mask_from masks i (b ∷ bs) = ap suc (length-mask_from masks (suc i) bs)

module _ (d : WsDealWith) (b0 m0 m1 m2 m3 : ℕ) (c : ℕ) (cs : List ℕ) where
  abbrev masks : List ℕ
  masks = frame_masks d.ws b0 m0 m1 m2 m3 c cs []

  abbrev payload : List ℕ
  payload = masked d.ws b0 m0 m1 m2 m3 c cs []

  -- The frame: its head, the mask, and the masked data.
  abbrev pub whole_frame : List ℕ
  whole_frame = head_and d b0 m0 m1 m2 m3 c cs payload

  -- The same with the data unmasked.
  abbrev pub plain_frame : List ℕ
  plain_frame = head_and d b0 m0 m1 m2 m3 c cs (c ∷ cs)

  abbrev size : ℕ
  size = length (c ∷ cs)

  length-payload : length payload ≡ size
  length-payload =
      omega
        (arith, length-append (mask_from masks 0 (c ∷ cs)) [], length-mask_from masks 0 (c ∷ cs))

  pub length-whole_frame : length whole_frame ≡ 6 + size
  length-whole_frame = omega (arith, length-payload)

  abbrev before_data : WsDealWith
  before_data = mask_read d b0 m0 m1 m2 m3 c cs payload

  abbrev parsed_data : Parsed
  parsed_data = record {
    ws = at_op d.ws b0 m0 m1 m2 m3 c cs [] init_head size masks size;
    bytes = (c ∷ cs) ++ [];
    result = some size;
  }

  -- The state that the rounds leave.
  abbrev pub frame_read : WsDealWith
  frame_read = parsed_state before_data parsed_data size

  module _ (rest : d.read_size ≡ d.data_size)
      (fit : d.data_size + (6 + size) ≤ length d.p_data) where
    fits : d.data_size + (6 + length payload) ≤ length d.p_data
    fits = omega (arith, fit, length-payload)

    unread-before_data : unread before_data ≡ payload
    unread-before_data = unread-mask_read d b0 m0 m1 m2 m3 c cs payload rest fits

    length-before_data : length before_data.p_data ≡ length d.p_data
    length-before_data = length-mask_read d b0 m0 m1 m2 m3 c cs payload rest fits

    pub length-frame_read : length frame_read.p_data ≡ length d.p_data
    unfolding parsed_state
    length-frame_read =
        length-store before_data.p_data (d.read_size + 2 + 0 + 4) ((c ∷ cs) ++ [])
        ∙ length-before_data

    -- Behind what was there stands the frame, its data unmasked.
    pub take-frame_read :
        take (d.data_size + (6 + size)) frame_read.p_data ≡ take d.data_size d.p_data ++ plain_frame
    unfolding parsed_state
    take-frame_read =
        let old = take d.data_size d.p_data in
        let before = old ++ heading d b0 m0 m1 m2 m3 c cs payload in
        let plain : (c ∷ cs) ++ [] ≡ c ∷ cs = append-nil (c ∷ cs) in
        let l = length-old d b0 m0 m1 m2 m3 c cs payload rest fits in
        let k : d.data_size + (6 + size) ≡ d.data_size + (6 + length payload) =
          omega (arith, length-payload) in
        take-store_over before_data.p_data (d.read_size + 2 + 0 + 4) (d.data_size + (6 + size))
          before payload ((c ∷ cs) ++ [])
          (ap (λ n. take n before_data.p_data) k
            ∙ take-mask_read d b0 m0 m1 m2 m3 c cs payload rest fits)
          (omega (arith, rest, l, length-append old (heading d b0 m0 m1 m2 m3 c cs payload)))
          (omega (arith, ap length plain, length-payload)) (omega (arith, rest, ap length plain))
          (omega (arith, fit, length-before_data))
        ∙ append_assoc old (heading d b0 m0 m1 m2 m3 c cs payload) ((c ∷ cs) ++ [])
        ∙ ap (λ x. old ++ (heading d b0 m0 m1 m2 m3 c cs payload ++ x)) plain

    -- The four rounds that read the frame.
    module _ (send : List ℕ → Bool) (e : d.ws.op ≡ init_head) (few : size < 126)
        (a : Accepted masks 0 (c ∷ cs)) where
      pub frame_read-known : frame_read.known ≡ true
      unfolding parsed_state
      frame_read-known =
          ap (λ k. k || false)
            (mask_read-known d b0 m0 m1 m2 m3 c cs payload rest fits send e few
              (omega (arith, length-payload)))

      round_4 :
          (fuel : ℕ)
          → parse_loop send (suc fuel) before_data
            ≡ loop_test send (parse_loop send fuel) (after_parse send fuel frame_read)
      unfolding parsed_state
      round_4 fuel = parse_loop-last send fuel size before_data _ ((c ∷ cs) ++ []) (
          ap (parse_ws_head before_data.ws) unread-before_data
          ∙ fourth_call d.ws b0 m0 m1 m2 m3 c cs [] few a)

      -- A call that receives the frame comes to its last round with the state `frame_read`.
      pub ws_read_data-frame :
          (fuel : ℕ)
          → d.data_size + (6 + size) < data_cap
          → ws_read_data send (suc (suc (suc (suc fuel)))) d whole_frame
            ≡ loop_test send (parse_loop send fuel) (after_parse send fuel frame_read)
      ws_read_data-frame fuel h =
          ws_read_data-head d b0 m0 m1 m2 m3 c cs payload rest fits send e few
            (omega (arith, length-payload)) (suc fuel) (omega (arith, h, length-payload))
          ∙ round_4 fuel
