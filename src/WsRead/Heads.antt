-- ===== src/WsRead/Heads.antt =====
-- WsStickyWrap.cpp, `readData`: the rounds that read the head, the length and the mask of a frame, with
-- what has come of its data behind them.
use multithread_libevent_exa.Prelude.{
  take, append_assoc, length-append, length-take, ℕ, suc, ◌+◌, ◌<◌, ◌≤◌, ◌≡◌, refl, sym, ap, ◌∙◌,
  arith, Bool, true, false, List, [], ◌∷◌, ◌++◌, some, length, replicate, ◌||◌, length-store,
}
use multithread_libevent_exa.Frames.{
  Ws, Op, init_head, read_payload, read_mask_key, read_data, Parsed, parse_ws_head,
}
use multithread_libevent_exa.Frames.Mask.{
  frame_masks, head_of, at_op, first_call, second_call, third_call,
}
use multithread_libevent_exa.Packets.{PackDealWith}
use multithread_libevent_exa.WsRead.{
  WsDealWith, data_cap, unread, sets_head, parsed_state, is_complete, parse_loop, ws_read_data,
}
use multithread_libevent_exa.WsRead.Rounds.{
  Fits, Fits-parsed_state, unread-parsed_state, parse_loop-round,
}
use multithread_libevent_exa.WsRead.Received.{
  received, ws_read_data-received, Fits-received, unread-received, take-received, take-store_over,
}

-- A connection with nothing in its memory.
abbrev pub idle : Ws → Bool → List ℕ → PackDealWith → List (List ℕ) → WsDealWith
idle s known block pack sent = record {
  ws = s;
  known = known;
  p_data = block;
  data_size = 0;
  read_size = 0;
  pack = pack;
  sent = sent;
}

pub no_index : (s : Ws) → s.parse_index ≡ 0 → is_complete s ≡ false
unfolding is_complete
no_index s e = ground arith

or_false : (b : Bool) → b ≡ true → (b || false) ≡ true
or_false b e = rw e refl

pub or_true : (b : Bool) → (b || true) ≡ true
or_true true = refl
or_true false = refl

-- In `d` everything is read. The frame has the data `c ∷ cs`, and `payload` is what has come of it.
module _ (d : WsDealWith) (b0 m0 m1 m2 m3 c : ℕ) (cs payload : List ℕ) where
  abbrev masks : List ℕ
  masks = frame_masks d.ws b0 m0 m1 m2 m3 c cs []

  abbrev size : ℕ
  size = length (c ∷ cs)

  abbrev pub head_and : List ℕ
  head_and = head_of d.ws b0 m0 m1 m2 m3 c cs [] ++ (masks ++ payload)

  abbrev ws_at : Op → ℕ → List ℕ → ℕ → Ws
  ws_at = at_op d.ws b0 m0 m1 m2 m3 c cs []

  -- The states that the rounds leave.
  abbrev arrived : WsDealWith
  arrived = received d head_and

  abbrev parsed : Op → ℕ → List ℕ → ℕ → List ℕ → ℕ → Parsed
  parsed op n ms i bs r = record { ws = ws_at op n ms i; bytes = bs; result = some r }

  abbrev parsed_head : Parsed
  parsed_head = parsed read_payload 0 (replicate 4 0) 0 head_and 2

  abbrev head_read : WsDealWith
  head_read = parsed_state arrived parsed_head 2

  abbrev parsed_length : Parsed
  parsed_length = parsed read_mask_key size (replicate 4 0) 0 (masks ++ payload) 0

  abbrev length_read : WsDealWith
  length_read = parsed_state head_read parsed_length 0

  abbrev parsed_mask : Parsed
  parsed_mask = parsed read_data size masks 0 (masks ++ payload) 4

  abbrev pub mask_read : WsDealWith
  mask_read = parsed_state length_read parsed_mask 4

  -- What was in the memory; the head and the mask.
  abbrev pub old : List ℕ
  old = take d.data_size d.p_data

  abbrev pub heading : List ℕ
  heading = head_of d.ws b0 m0 m1 m2 m3 c cs [] ++ masks

  module _ (rest : d.read_size ≡ d.data_size)
      (fit : d.data_size + (6 + length payload) ≤ length d.p_data) where
    unread-arrived : unread arrived ≡ head_and
    unread-arrived = unread-received d head_and (omega (arith, fit)) rest

    Fits-arrived : Fits arrived
    Fits-arrived = Fits-received d head_and (omega (arith, fit)) (omega (arith, rest))

    Fits-head_read : Fits head_read
    Fits-head_read = Fits-parsed_state arrived parsed_head 2 Fits-arrived (omega arith)

    unread-head_read : unread head_read ≡ masks ++ payload
    unread-head_read =
        unread-parsed_state arrived parsed_head 2 Fits-arrived (omega arith)
          (ap length (sym unread-arrived))

    Fits-length_read : Fits length_read
    unfolding parsed_state
    Fits-length_read = Fits-parsed_state head_read parsed_length 0 Fits-head_read (omega arith)

    unread-length_read : unread length_read ≡ masks ++ payload
    unfolding parsed_state
    unread-length_read =
        unread-parsed_state head_read parsed_length 0 Fits-head_read (omega arith)
          (ap length (sym unread-head_read))

    pub Fits-mask_read : Fits mask_read
    unfolding parsed_state
    Fits-mask_read = Fits-parsed_state length_read parsed_mask 4 Fits-length_read (omega arith)

    pub unread-mask_read : unread mask_read ≡ payload
    unfolding parsed_state
    unread-mask_read =
        unread-parsed_state length_read parsed_mask 4 Fits-length_read (omega arith)
          (ap length (sym unread-length_read))

    pub length-old : length old ≡ d.data_size
    length-old = omega (arith, length-take d.data_size d.p_data, fit)

    abbrev end : ℕ
    end = d.data_size + (6 + length payload)

    take-arrived : take end arrived.p_data ≡ old ++ head_and
    take-arrived =
        let e : end ≡ d.data_size + length head_and = omega arith in
        ap (λ n. take n arrived.p_data) e ∙ take-received d head_and (omega (arith, fit))

    length-arrived : length arrived.p_data ≡ length d.p_data
    length-arrived = length-store d.p_data d.data_size head_and

    take-head_read : take end head_read.p_data ≡ old ++ head_and
    unfolding parsed_state
    take-head_read =
        take-store_over arrived.p_data d.read_size end old head_and head_and take-arrived
          (omega (arith, length-old, rest)) refl (omega (arith, rest))
          (omega (arith, length-arrived, fit))

    length-head_read : length head_read.p_data ≡ length d.p_data
    unfolding parsed_state
    length-head_read = length-store arrived.p_data d.read_size head_and ∙ length-arrived

    abbrev before_mask : List ℕ
    before_mask = old ++ head_of d.ws b0 m0 m1 m2 m3 c cs []

    length-before_mask : length before_mask ≡ d.data_size + 2
    length-before_mask =
        omega (arith, length-append old (head_of d.ws b0 m0 m1 m2 m3 c cs []), length-old)

    take-length_read : take end length_read.p_data ≡ before_mask ++ (masks ++ payload)
    unfolding parsed_state
    take-length_read =
        take-store_over head_read.p_data (d.read_size + 2) end before_mask (masks ++ payload)
          (masks ++ payload)
          (take-head_read
            ∙ sym (append_assoc old (head_of d.ws b0 m0 m1 m2 m3 c cs []) (masks ++ payload)))
          (omega (arith, length-before_mask, rest)) refl (omega (arith, rest))
          (omega (arith, length-head_read, fit))

    length-length_read : length length_read.p_data ≡ length d.p_data
    unfolding parsed_state
    length-length_read =
        length-store head_read.p_data (d.read_size + 2) (masks ++ payload) ∙ length-head_read

    pub take-mask_read : take end mask_read.p_data ≡ (old ++ heading) ++ payload
    unfolding parsed_state
    take-mask_read =
        take-store_over length_read.p_data (d.read_size + 2 + 0) end before_mask (masks ++ payload)
          (masks ++ payload) take-length_read (omega (arith, length-before_mask, rest)) refl
          (omega (arith, rest)) (omega (arith, length-length_read, fit))
        ∙ append_assoc old (head_of d.ws b0 m0 m1 m2 m3 c cs []) (masks ++ payload)
        ∙ sym (append_assoc old heading payload)

    pub length-mask_read : length mask_read.p_data ≡ length d.p_data
    unfolding parsed_state
    length-mask_read =
        length-store length_read.p_data (d.read_size + 2 + 0) (masks ++ payload)
        ∙ length-length_read

    -- The three rounds.
    module _ (send : List ℕ → Bool) (e : d.ws.op ≡ init_head) (few : size < 126)
        (some_data : 0 < length payload) where
      head_known : (d.known || sets_head d.ws.op (some 2)) ≡ true
      head_known = ap (λ o. d.known || sets_head o (some 2)) e ∙ or_true d.known

      pub mask_read-known : mask_read.known ≡ true
      unfolding parsed_state
      mask_read-known = or_false _ (or_false _ head_known)

      round_1 : (fuel : ℕ) → parse_loop send (suc fuel) arrived ≡ parse_loop send fuel head_read
      round_1 fuel =
          parse_loop-round send fuel 2 arrived _ head_and
            (ap (parse_ws_head d.ws) unread-arrived
              ∙ first_call d.ws b0 m0 m1 m2 m3 c cs [] (masks ++ payload) e)
            head_known (no_index _ refl) (omega arith)

      round_2 : (fuel : ℕ) → parse_loop send (suc fuel) head_read ≡ parse_loop send fuel length_read
      unfolding parsed_state
      round_2 fuel =
          parse_loop-round send fuel 0 head_read _ (masks ++ payload)
            (ap (parse_ws_head head_read.ws) unread-head_read
              ∙ second_call d.ws b0 m0 m1 m2 m3 c cs [] m0 _ few)
            (or_false _ head_known) (no_index _ refl) (omega arith)

      round_3 : (fuel : ℕ) → parse_loop send (suc fuel) length_read ≡ parse_loop send fuel mask_read
      unfolding parsed_state
      round_3 fuel =
          parse_loop-round send fuel 4 length_read _ (masks ++ payload)
            (ap (parse_ws_head length_read.ws) unread-length_read
              ∙ third_call d.ws b0 m0 m1 m2 m3 c cs [] payload)
            (or_false _ (or_false _ head_known)) (no_index _ refl) (omega (arith, some_data))

      -- A call that receives them comes to the state in which the data is read.
      pub ws_read_data-head :
          (fuel : ℕ)
          → d.data_size + (6 + length payload) < data_cap
          → ws_read_data send (suc (suc (suc fuel))) d head_and ≡ parse_loop send fuel mask_read
      ws_read_data-head fuel h =
          ws_read_data-received send (suc (suc (suc fuel))) d b0 _ (omega (arith, h))
          ∙ round_1 (suc (suc fuel))
          ∙ round_2 (suc fuel)
          ∙ round_3 fuel
