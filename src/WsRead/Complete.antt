-- ===== src/WsRead/Complete.antt =====
-- WsStickyWrap.cpp, `readData`: what becomes of a frame that is complete.
use multithread_libevent_exa.Prelude.{
  none, lt→ltb, ℕ, suc, ◌+◌, ◌-◌, ◌%◌, ◌<◌, ◌≤◌, ◌≡◌, ◌⊎◌, inl, inr, refl, ap, arith, Bool, true,
  false, List, [], ◌∷◌, ◌++◌, Option, some, length, take, drop, ◌==◌, le→ltb,
}
use multithread_libevent_exa.Frames.{Ws, opcod, fin, cal_frame_head_size, send_frame, frame_head}
use multithread_libevent_exa.FdBridge.{Run, returns, fault}
use multithread_libevent_exa.Packets.Head.{finish_parse_fault}
use multithread_libevent_exa.WsRead.{
  WsDealWith, is_complete, answer, move_rest, take_data, complete_frame, after_parse, loop_test,
}

-- What `sendFrame` writes for a close or a ping with the data `msg`.
abbrev pub reply : List ℕ → ℕ → List ℕ
reply msg type = frame_head (length msg) type ++ (msg ++ (0 ∷ []))

pub head_size-short : (s : Ws) → s.wbs.1 % 128 < 126 → cal_frame_head_size s ≡ 6
unfolding cal_frame_head_size
head_size-short s h = ground arith

pub is_complete-whole :
    (s : Ws) → fin s ≡ 1 → 0 < s.parse_index → s.len ≤ s.parse_index → is_complete s ≡ true
unfolding is_complete
is_complete-whole s f p l = ground arith

below : (a b : ℕ) → a < b → (a == b) ≡ false
below a b h = ground arith

module _ (send : List ℕ → Bool) where
  pub answer_lem :
      (d : WsDealWith) (msg : List ℕ) (type : ℕ)
      → cal_frame_head_size d.ws ≡ 6
      → 6 ≤ d.data_size
      → take (d.data_size - 6) (drop 6 d.p_data) ≡ msg
      → send (reply msg type) ≡ true
      → answer send d type ≡ returns (some (record d { sent = d.sent ++ (reply msg type ∷ []) }))
  unfolding answer send_frame
  answer_lem d msg type h le m ok = rw (h, le→ltb d.data_size 6 le, m, ok) refl

  pub complete_frame-control :
      (fuel : ℕ) (d : WsDealWith) (type : ℕ)
      → (type ≡ 8) ⊎ (type ≡ 9)
      → opcod d.ws ≡ type
      → complete_frame send fuel d ≡ answer send d type
  unfolding complete_frame
  complete_frame-control fuel d type (inl e) o = rw (o, e) refl
  complete_frame-control fuel d type (inr e) o = rw (o, e) refl

  pub complete_frame-data :
      (fuel : ℕ) (d : WsDealWith)
      → opcod d.ws < 8
      → complete_frame send fuel d ≡ take_data send fuel d
  unfolding complete_frame
  complete_frame-data fuel d h =
      rw (below (opcod d.ws) 8 h, complete_frame)
        (rw (below (opcod d.ws) 9 (omega arith), complete_frame)
          (rw (below (opcod d.ws) 10 (omega arith), below (opcod d.ws) 15 (omega arith)) refl))

  pub take_data_fault :
      (fuel : ℕ) (d : WsDealWith)
      → cal_frame_head_size d.ws ≡ 6
      → d.data_size ≡ 6 + d.ws.len
      → d.pack.head ≡ false
      → take_data send (suc fuel) d ≡ fault
  unfolding take_data move_rest
  take_data_fault fuel d h e k =
      rw
        (
          h,
          le→ltb d.data_size 6 (omega (arith, e)),
          le→ltb d.ws.len (d.data_size - 6) (omega (arith, e)),
        )
        (ap (move_rest send d 6)
          (finish_parse_fault fuel d.pack (drop 6 d.p_data) d.ws.len d.data_size k))

  pub take_data_refused :
      (fuel : ℕ) (d : WsDealWith)
      → cal_frame_head_size d.ws ≡ 6
      → 6 ≤ d.data_size
      → 6 + d.ws.len < d.data_size
      → take_data send fuel d ≡ returns none
  unfolding take_data
  take_data_refused fuel d h le lt =
      rw (h, le→ltb d.data_size 6 le, lt→ltb d.ws.len (d.data_size - 6) (omega arith)) refl

  pub after_parse_complete :
      (fuel : ℕ) (d : WsDealWith)
      → d.known ≡ true
      → is_complete d.ws ≡ true
      → after_parse send fuel d ≡ complete_frame send fuel d
  unfolding after_parse
  after_parse_complete fuel d k c = rw (k, c) refl

  -- The last round ends the loop.
  pub loop_test-end :
      (go : WsDealWith → Run (Option WsDealWith)) (d : WsDealWith)
      → d.data_size ≤ d.read_size
      → loop_test send go (returns (some d)) ≡ returns (some d)
  unfolding loop_test
  loop_test-end go d h = rw (le→ltb d.read_size d.data_size h, loop_test) refl
