-- ===== src/WsRead/Rounds.antt =====
-- WsStickyWrap.cpp, `readData`: what a round of the loop leaves for the next.
use multithread_libevent_exa.Prelude.{
  ℕ, suc, ◌+◌, ◌-◌, ◌<◌, ◌≤◌, ◌≡◌, refl, sym, ap, ◌∙◌, arith, Bool, true, false, List, Option, some,
  length, take, drop, store, length-store, take-store, length-take, length-drop, drop-take,
  drop-append_past, lt→ltb, ◌||◌,
}
use multithread_libevent_exa.Frames.{Ws, Parsed, parse_ws_head}
use multithread_libevent_exa.FdBridge.{Run, returns}
use multithread_libevent_exa.WsRead.{
  WsDealWith, unread, sets_head, parsed_state, is_complete, after_parse, loop_test, parse_round,
  parse_loop,
}

-- The cursors stand in the memory.
pub record Fits (d : WsDealWith) : Type 0 where
  pub behind : d.read_size ≤ d.data_size
  pub inside : d.data_size ≤ length d.p_data

pub unread-length : (d : WsDealWith) → Fits d → length (unread d) ≡ d.data_size - d.read_size
unread-length d f = omega (
  arith,
  length-take (d.data_size - d.read_size) (drop d.read_size d.p_data),
  length-drop d.read_size d.p_data,
  f.inside,
)

pub Fits-parsed_state :
    (d : WsDealWith) (p : Parsed) (n : ℕ)
    → Fits d
    → d.read_size + n ≤ d.data_size
    → Fits (parsed_state d p n)
unfolding parsed_state
Fits-parsed_state d p n f h = record {
  behind = h;
  inside = omega (arith, length-store d.p_data d.read_size p.bytes, f.inside);
}

-- What is unread after a round are the bytes that the call left, behind those it read.
pub unread-parsed_state :
    (d : WsDealWith) (p : Parsed) (n : ℕ)
    → Fits d
    → d.read_size + n ≤ d.data_size
    → length p.bytes ≡ length (unread d)
    → unread (parsed_state d p n) ≡ drop n p.bytes
unfolding parsed_state
unread-parsed_state d p n f h l =
    let len : length p.bytes ≡ d.data_size - d.read_size = l ∙ unread-length d f in
    let pre : length (take d.read_size d.p_data) ≡ d.read_size =
      omega (arith, length-take d.read_size d.p_data, f.inside, f.behind) in
    sym (drop-take (d.read_size + n) d.data_size (store d.p_data d.read_size p.bytes) h)
    ∙ ap (drop (d.read_size + n)) (
        take-store d.p_data d.read_size d.data_size p.bytes (omega (arith, len, f.behind)) f.inside)
    ∙ drop-append_past (d.read_size + n) n (take d.read_size d.p_data) p.bytes (omega (arith, pre))

module _ (send : List ℕ → Bool) where
  pub after_parse-known :
      (fuel : ℕ) (d : WsDealWith)
      → d.known ≡ true
      → is_complete d.ws ≡ false
      → after_parse send fuel d ≡ returns (some d)
  unfolding after_parse
  after_parse-known fuel d k c = rw (k, c)

  going_on :
      (fuel : ℕ) (go : WsDealWith → Run (Option WsDealWith)) (d : WsDealWith)
      → d.known ≡ true
      → is_complete d.ws ≡ false
      → d.read_size < d.data_size
      → loop_test send go (after_parse send fuel d) ≡ go d
  unfolding loop_test
  going_on fuel go d k c h =
      ap (loop_test send go) (after_parse-known fuel d k c)
      ∙ rw (lt→ltb d.read_size d.data_size h, loop_test) refl

  going_on-parsed_state :
      (fuel n : ℕ) (go : WsDealWith → Run (Option WsDealWith)) (d : WsDealWith) (p : Parsed)
      → (d.known || sets_head d.ws.op p.result) ≡ true
      → is_complete p.ws ≡ false
      → d.read_size + n < d.data_size
      → loop_test send go (after_parse send fuel (parsed_state d p n)) ≡ go (parsed_state d p n)
  unfolding parsed_state
  going_on-parsed_state fuel n go d p k c h = going_on fuel go (parsed_state d p n) k c h

  -- A round that does not end a frame, and after which bytes are left.
  pub parse_loop-round :
      (fuel n : ℕ) (d : WsDealWith) (s : Ws) (bs : List ℕ)
      → parse_ws_head d.ws (unread d) ≡ record { ws = s; bytes = bs; result = some n }
      → (d.known || sets_head d.ws.op (some n)) ≡ true
      → is_complete s ≡ false
      → d.read_size + n < d.data_size
      → parse_loop send (suc fuel) d
        ≡ parse_loop send fuel (parsed_state d (record { ws = s; bytes = bs; result = some n }) n)
  unfolding parse_loop parse_round
  parse_loop-round fuel n d s bs e k c h =
      ap (parse_round send fuel (parse_loop send fuel) d) e
      ∙ going_on-parsed_state fuel n (parse_loop send fuel) d
          (record { ws = s; bytes = bs; result = some n }) k c h

  -- A round that may end a frame.
  pub parse_loop-last :
      (fuel n : ℕ) (d : WsDealWith) (s : Ws) (bs : List ℕ)
      → parse_ws_head d.ws (unread d) ≡ record { ws = s; bytes = bs; result = some n }
      → parse_loop send (suc fuel) d
        ≡ loop_test send (parse_loop send fuel) (
            after_parse send fuel
              (parsed_state d (record { ws = s; bytes = bs; result = some n }) n))
  unfolding parse_loop parse_round
  parse_loop-last fuel n d s bs e = ap (parse_round send fuel (parse_loop send fuel) d) e
