-- ===== src/WsRead/Partial.antt =====
-- WsStickyWrap.cpp, `readData`: the head of a frame that arrives in pieces.
use multithread_libevent_exa.Prelude.{
  ℕ, zero, suc, ◌+◌, ◌<◌, ◌≡◌, refl, ◌∙◌, arith, Bool, true, false, List, [], ◌∷◌, some, length,
  ltb, lt→leb, ◌==◌, if◌then◌else◌,
}
use multithread_libevent_exa.Frames.{
  Ws, Op, init_head, read_payload, read_mask_key, read_data, Parsed, pay_load, parse_ws_head,
  parse_op, parse_init_head, parse_payload, parse_mask_key,
}
use multithread_libevent_exa.FdBridge.{out_of_fuel}
use multithread_libevent_exa.WsRead.{WsDealWith, unread, parsed_state, is_complete, parse_loop}
use multithread_libevent_exa.WsRead.Rounds.{
  Fits, unread-length, Fits-parsed_state, parse_loop-round,
}

-- How many bytes the next part of a head has, as far as its length was read.
unfoldable pub part_size : Ws → Op → ℕ
part_size s init_head = 2
part_size s read_payload = if ltb (pay_load s) 126 then 0 else (if pay_load s == 126 then 2 else 8)
part_size s read_mask_key = 4
part_size s read_data = 0

parse_op-short :
    (o : Op) (s : Ws) (bs : List ℕ)
    → 0 < length bs
    → length bs < part_size s o
    → parse_op o s bs ≡ record { ws = s; bytes = bs; result = some 0 }
unfolding parse_op parse_init_head parse_payload parse_mask_key part_size
parse_op-short init_head s [] pos h = absurd (omega arith)
parse_op-short init_head s (x ∷ []) pos h = refl
parse_op-short init_head s (x ∷ (y ∷ bs)) pos h = absurd (omega arith)
parse_op-short read_payload s bs pos h = ground arith
parse_op-short read_mask_key s bs pos h = rw (lt→leb 4 (length bs) h) refl
parse_op-short read_data s bs pos h = absurd (omega arith)

-- A call of `parseWsHead` on less than that reads nothing.
pub parse_ws_head-short :
    (s : Ws) (bs : List ℕ)
    → 0 < length bs
    → length bs < part_size s s.op
    → parse_ws_head s bs ≡ record { ws = s; bytes = bs; result = some 0 }
unfolding parse_ws_head
parse_ws_head-short s [] pos h = absurd (omega arith)
parse_ws_head-short s (x ∷ bs) pos h = parse_op-short s.op s (x ∷ bs) pos h

-- Some bytes are unread, and fewer than the next part of the head has.
pub record IsPartial (d : WsDealWith) : Type 0 where
  pub fits : Fits d
  pub head_known : d.known ≡ true
  pub incomplete : is_complete d.ws ≡ false
  pub some_left : d.read_size < d.data_size
  pub few : d.data_size < d.read_size + part_size d.ws d.ws.op

abbrev nothing_read : WsDealWith → Parsed
nothing_read d = record { ws = d.ws; bytes = unread d; result = some 0 }

IsPartial-next : (d : WsDealWith) → IsPartial d → IsPartial (parsed_state d (nothing_read d) 0)
unfolding parsed_state
IsPartial-next d h = record {
  fits = Fits-parsed_state d (nothing_read d) 0 h.fits (omega (arith, h.some_left));
  head_known = rw h.head_known refl;
  incomplete = h.incomplete;
  some_left = omega (arith, h.some_left);
  few = omega (arith, h.few);
}

-- partial
pub parse_loop-IsPartial :
    (send : List ℕ → Bool) (fuel : ℕ) (d : WsDealWith)
    → IsPartial d
    → parse_loop send fuel d ≡ out_of_fuel
unfolding parse_loop
parse_loop-IsPartial send zero d h = refl
parse_loop-IsPartial send (suc fuel) d h =
    let l = unread-length d h.fits in
    let short =
      parse_ws_head-short d.ws (unread d) (omega (arith, l, h.some_left))
        (omega (arith, l, h.few, h.some_left)) in
    parse_loop-round send fuel 0 d d.ws (unread d) short (rw h.head_known refl) h.incomplete
      (omega (arith, h.some_left))
    ∙ parse_loop-IsPartial send fuel (parsed_state d (nothing_read d) 0) (IsPartial-next d h)
