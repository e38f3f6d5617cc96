-- ===== src/WsRead/Rest.antt =====
-- WsStickyWrap.cpp, `readData`: a frame that arrives in one piece, behind what earlier ones have left in the
-- memory.
use multithread_libevent_exa.Prelude.{
  none, sym, drop-take, ℕ, suc, ◌+◌, ◌-◌, ◌/◌, ◌%◌, ◌<◌, ◌≤◌, ◌≡◌, ◌⊎◌, refl, ap, ◌∙◌, arith, Bool,
  true, false, List, [], ◌∷◌, ◌++◌, Option, some, length, take, drop,
}
use multithread_libevent_exa.Frames.{init_head, opcod, cal_frame_head_size}
use multithread_libevent_exa.Frames.Mask.{Accepted}
use multithread_libevent_exa.FdBridge.{Run, returns, fault}
use multithread_libevent_exa.WsRead.{
  WsDealWith, data_cap, is_complete, complete_frame, loop_test, parsed_state, parse_loop,
  ws_read_data,
}
use multithread_libevent_exa.WsRead.Whole.{
  whole_frame, plain_frame, frame_read, take-frame_read, length-frame_read, frame_read-known,
  length-whole_frame, ws_read_data-frame,
}
use multithread_libevent_exa.WsRead.Complete.{
  reply, head_size-short, is_complete-whole, answer_lem, complete_frame-control,
  complete_frame-data, take_data_fault, take_data_refused, after_parse_complete, loop_test-end,
}

-- A connection that waits for a frame, with all of its memory read.
pub record AtRest (d : WsDealWith) : Type 0 where
  pub waits : d.ws.op ≡ init_head
  pub rest : d.read_size ≡ d.data_size
  pub room : length d.p_data ≡ data_cap

module _ (send : List ℕ → Bool) (d : WsDealWith) (b0 m0 m1 m2 m3 c : ℕ) (cs : List ℕ) where
  abbrev size : ℕ
  size = length (c ∷ cs)

  abbrev last : WsDealWith
  last = frame_read d b0 m0 m1 m2 m3 c cs

  -- The memory behind the frame: what was there, and the frame with its data unmasked.
  abbrev pub memory : List ℕ
  memory = take d.data_size d.p_data ++ plain_frame d b0 m0 m1 m2 m3 c cs

  abbrev arrives : ℕ → Run (Option WsDealWith)
  arrives fuel =
      ws_read_data send (suc (suc (suc (suc fuel)))) d (whole_frame d b0 m0 m1 m2 m3 c cs)

  last-head : size < 126 → cal_frame_head_size last.ws ≡ 6
  unfolding parsed_state
  last-head few = head_size-short last.ws (omega (arith, few))

  last_complete : b0 / 128 ≡ 1 → is_complete last.ws ≡ true
  unfolding parsed_state
  last_complete h = is_complete-whole last.ws h (omega arith) (omega arith)

  last-opcod : opcod last.ws ≡ b0 % 16
  unfolding parsed_state
  last-opcod = refl

  last-fields :
      (last.ws.op ≡ init_head) × (last.ws.len ≡ size) × (last.pack ≡ d.pack) × (last.sent ≡ d.sent)
  unfolding parsed_state
  last-fields = (refl, refl, refl, refl)

  module _ (h : AtRest d) (few : size < 126) (small : d.data_size + (6 + size) < data_cap)
      (a : Accepted (m0 ∷ (m1 ∷ (m2 ∷ (m3 ∷ [])))) 0 (c ∷ cs)) where
    fits : d.data_size + (6 + size) ≤ length d.p_data
    fits = omega (arith, small, h.room)

    last-size :
        (last.data_size ≡ d.data_size + (6 + size)) × (last.read_size ≡ d.data_size + (6 + size))
    unfolding parsed_state
    last-size = (omega (arith, length-whole_frame d b0 m0 m1 m2 m3 c cs), omega (arith, h.rest))

    last-AtRest : AtRest last
    last-AtRest =
        let (ds, rs) = last-size in
        record {
          waits = last-fields.0;
          rest = rs ∙ sym ds;
          room = length-frame_read d b0 m0 m1 m2 m3 c cs h.rest fits ∙ h.room;
        }

    last-memory : take last.data_size last.p_data ≡ memory
    last-memory =
        ap (λ n. take n last.p_data) last-size.0 ∙ take-frame_read d b0 m0 m1 m2 m3 c cs h.rest fits

    rounds :
        (fuel : ℕ)
        → b0 / 128 ≡ 1
        → arrives fuel ≡ loop_test send (parse_loop send fuel) (complete_frame send fuel last)
    rounds fuel b =
        ws_read_data-frame d b0 m0 m1 m2 m3 c cs h.rest fits send h.waits few a fuel small
        ∙ ap (loop_test send (parse_loop send fuel)) (
            after_parse_complete send fuel last
              (frame_read-known d b0 m0 m1 m2 m3 c cs h.rest fits send h.waits few a)
              (last_complete b))

    -- What is answered: the memory behind its first six bytes.
    last-answered : take (last.data_size - 6) (drop 6 last.p_data) ≡ drop 6 memory
    last-answered =
        sym (drop-take 6 last.data_size last.p_data (omega (arith, last-size.0)))
        ∙ ap (drop 6) last-memory

    -- A close or a ping is answered, and the connection is at rest again.
    pub arrives-control :
        (fuel type : ℕ)
        → (type ≡ 8) ⊎ (type ≡ 9)
        → b0 ≡ 128 + type
        → send (reply (drop 6 memory) type) ≡ true
        → (d' : WsDealWith) × (arrives fuel ≡ returns (some d'))
          × AtRest d'
          × (d'.sent ≡ d.sent ++ (reply (drop 6 memory) type ∷ []))
          × (d'.data_size ≡ d.data_size + (6 + size))
          × (take d'.data_size d'.p_data ≡ memory)
    arrives-control fuel type t b ok =
        let (ds, rs) = last-size in
        let (op, ln, pk, st) = last-fields in
        let d' = record last { sent = last.sent ++ (reply (drop 6 memory) type ∷ []) } in
        (
          d',
          rounds fuel (omega (arith, b, t))
              ∙ ap (loop_test send (parse_loop send fuel)) (
                  complete_frame-control send fuel last type t (last-opcod ∙ omega (arith, b, t))
                  ∙ answer_lem send last (drop 6 memory) type (last-head few) (omega (arith, ds))
                      last-answered ok)
              ∙ loop_test-end send (parse_loop send fuel) d' (omega (arith, ds, rs)),
          record { waits = last-AtRest.waits; rest = last-AtRest.rest; room = last-AtRest.room },
          ap (λ l. l ++ (reply (drop 6 memory) type ∷ [])) st,
          ds,
          last-memory,
        )

    data-opcod : 128 ≤ b0 → b0 < 136 → opcod last.ws < 8
    data-opcod ge lt = omega (arith, last-opcod)

    -- A frame with data on an empty memory goes to `finishParse`, which reads through the head of its pack.
    pub arrives-data :
        (fuel : ℕ)
        → d.data_size ≡ 0
        → 128 ≤ b0
        → b0 < 136
        → d.pack.head ≡ false
        → arrives (suc fuel) ≡ fault
    unfolding loop_test
    arrives-data fuel z ge lt k =
        let (ds, rs) = last-size in
        let (op, ln, pk, st) = last-fields in
        rounds (suc fuel) (omega arith)
        ∙ ap (loop_test send (parse_loop send (suc fuel))) (
            complete_frame-data send (suc fuel) last (data-opcod ge lt)
            ∙ take_data_fault send fuel last (last-head few) (omega (arith, ds, ln, z))
                (ap (λ p. p.head) pk ∙ k))

    -- Take a connection that waits for a frame, with all that its memory of 8192 bytes holds read,
    -- this being at least one byte, as any control frame leaves it; and a frame of a client that
    -- arrives in one piece, its first byte being at least 128 and below 136, with 1 to 125 bytes of
    -- data under a mask, where no masked byte is 255, and with which the memory stays below 8192
    -- bytes. Then readData, on fuel for at least four rounds, returns -1, which closes the connection.
    pub arrives-refused :
        (fuel : ℕ) → 0 < d.data_size → 128 ≤ b0 → b0 < 136 → arrives fuel ≡ returns none
    unfolding loop_test
    arrives-refused fuel pos ge lt =
        let (ds, rs) = last-size in
        let (op, ln, pk, st) = last-fields in
        rounds fuel (omega arith)
        ∙ ap (loop_test send (parse_loop send fuel)) (
            complete_frame-data send fuel last (data-opcod ge lt)
            ∙ take_data_refused send fuel last (last-head few) (omega (arith, ds))
                (omega (arith, ds, ln, pos)))
