-- ===== src/Frames.antt =====
-- ExtNet/ws/WsStickyWrap.cpp and WsDealWith of ExtNet/common/BaseType.h: the frames of a WebSocket.
-- `parseWsHead` is a state machine over the bytes at `pbuff`: it reads from them, and writes the unmasked
-- ones back. `_head.wbs` points to the two first bytes of the frame, which nothing changes while the frame
-- is parsed; here it is the two bytes. `char` is signed, as on x86.
pub mod Bits
pub mod Mask
pub mod Length
pub mod Parts
mod Tests
use multithread_libevent_exa.Prelude.{
  ℕ, zero, suc, ◌+◌, ◌-◌, ◌%◌, ◌^◌, Bool, true, false, List, [], ◌∷◌, ◌++◌, Option, none, some,
  length, get_or, take, drop, replicate, ltb, leb, ◌==◌, if◌then◌else◌,
}
use Prim.Native.Nat.{◌/◌, ◌*◌}
use Bits.{bits_or, bits_xor}

-- `OP_State`.
pub data Op : Type 0 where
  init_head read_payload read_mask_key read_data : Op

-- The part of `WsDealWith` that `parseWsHead` uses.
pub record Ws : Type 0 where
  pub op : Op
  pub wbs : ℕ × ℕ
  pub len : ℕ
  pub masks : List ℕ
  pub parse_index : ℕ

-- `opcod`, `fin` and `payLoad` of `ws_base`.
abbrev pub opcod : Ws → ℕ
opcod s = s.wbs.0 % 16

abbrev pub fin : Ws → ℕ
fin s = s.wbs.0 / 128

abbrev pub pay_load : Ws → ℕ
pay_load s = s.wbs.1 % 128

-- A call's result: the state, the bytes at `pbuff`, and the value returned, with -1 as `none`.
pub record Parsed : Type 0 where
  pub ws : Ws
  pub bytes : List ℕ
  pub result : Option ℕ

-- `(uint64_t)pbuff[i]` for a signed `char`, and a shift of it.
unfoldable pub extend : ℕ → ℕ
extend b = if ltb b 128 then b else 2 ^ 64 - 256 + b

unfoldable pub shifted : ℕ → ℕ → ℕ
shifted b k = (extend b * 2 ^ k) % 2 ^ 64

unfoldable pub parse_init_head : Ws → List ℕ → Parsed
parse_init_head s (b0 ∷ (b1 ∷ bs)) = record {
  ws = record {
    op = read_payload;
    wbs = (b0, b1);
    len = 0;
    masks = replicate 4 0;
    parse_index = 0;
  };
  bytes = b0 ∷ (b1 ∷ bs);
  result = some 2;
}
parse_init_head s bs = record { ws = s; bytes = bs; result = some 0 }

-- `pbuff[0]` up to `pbuff[n - 1]`, shifted into one number.
unfoldable pub joined_bytes : ℕ → List ℕ → ℕ
joined_bytes zero bs = 0
joined_bytes (suc n) [] = 0
joined_bytes (suc n) (b ∷ bs) = bits_or 64 (shifted b (8 * n)) (joined_bytes n bs)

unfoldable pub parse_payload : Ws → List ℕ → Parsed
parse_payload s bs =
    if ltb (pay_load s) 126
    then record {
      ws = record s { op = read_mask_key; len = pay_load s };
      bytes = bs;
      result = some 0;
    }
    else (if pay_load s == 126
        then (if leb 2 (length bs)
            then record {
              ws = record s { op = read_mask_key; len = joined_bytes 2 bs };
              bytes = bs;
              result = some 2;
            }
            else record { ws = s; bytes = bs; result = some 0 })
        else (if leb 8 (length bs)
            then record {
              ws = record s { op = read_mask_key; len = joined_bytes 8 bs };
              bytes = bs;
              result = some 8;
            }
            else record { ws = s; bytes = bs; result = some 0 }))

unfoldable pub parse_mask_key : Ws → List ℕ → Parsed
parse_mask_key s bs =
    if leb 4 (length bs)
    then record { ws = record s { op = read_data; masks = take 4 bs }; bytes = bs; result = some 4 }
    else record { ws = s; bytes = bs; result = some 0 }

-- The loop of READ_DATA: whether it ended by its test and not by `return -1`, `_parse_Index`, the bytes
-- from `pbuff` on, and how many were read. The index has 16 bits.
pub unmask_loop : List ℕ → ℕ → ℕ → List ℕ → Bool × ℕ × List ℕ × ℕ
unmask_loop masks n i [] = (true, i, [], 0)
unmask_loop masks n i (b ∷ bs) =
    let (ended, j, out, r) = unmask_loop masks n ((i + 1) % 2 ^ 16) bs in
    if ltb i n
    then (if b == 255
        then (false, i, b ∷ bs, 0)
        else (ended, j, bits_xor 8 b (get_or masks (i % 4) 0) ∷ out, suc r))
    else (true, i, b ∷ bs, 0)

unfoldable pub after_unmask : Ws → Bool × ℕ × List ℕ × ℕ → Parsed
after_unmask s (false, i, bs, r) = record {
  ws = record s { parse_index = i };
  bytes = bs;
  result = none;
}
after_unmask s (true, i, bs, r) = record {
  ws = record s { parse_index = i; op = if leb s.len i then init_head else s.op };
  bytes = bs;
  result = some r;
}

unfoldable pub parse_data : Ws → List ℕ → Parsed
parse_data s bs = after_unmask s (unmask_loop s.masks s.len s.parse_index bs)

unfoldable pub parse_op : Op → Ws → List ℕ → Parsed
parse_op init_head s bs = parse_init_head s bs
parse_op read_payload s bs = parse_payload s bs
parse_op read_mask_key s bs = parse_mask_key s bs
parse_op read_data s bs = parse_data s bs

-- `parseWsHead`.
unfoldable pub parse_ws_head : Ws → List ℕ → Parsed
parse_ws_head s [] = record { ws = s; bytes = []; result = some 0 }
parse_ws_head s (b ∷ bs) = parse_op s.op s (b ∷ bs)

-- `CalFrameHeadSize`.
unfoldable pub cal_frame_head_size : Ws → ℕ
cal_frame_head_size s = if pay_load s == 126 then 8 else (if pay_load s == 127 then 14 else 6)

-- `(size >> k) & 0xFF`.
abbrev pub byte_of : ℕ → ℕ → ℕ
byte_of size k = size / 2 ^ k % 256

-- The head that `sendFrame` writes, for an opcode below 128.
unfoldable pub frame_head : ℕ → ℕ → List ℕ
frame_head size type =
    if leb size 125
    then (128 + type) ∷ ((size % 128) ∷ [])
    else (if ltb size 65535
        then (128 + type) ∷ (126 ∷ (byte_of size 8 ∷ (byte_of size 0 ∷ [])))
        else (128 + type)
          ∷ (127
              ∷ (byte_of size 56
                  ∷ (byte_of size 48
                      ∷ (byte_of size 40
                          ∷ (byte_of size 32
                              ∷ (byte_of size 24
                                  ∷ (byte_of size 16
                                      ∷ (byte_of size 8 ∷ (byte_of size 0 ∷ []))))))))))

-- What `sendFrame` gives to `write`, if `malloc` has found memory: the head, the data, and a zero.
unfoldable pub send_frame : Bool → List ℕ → ℕ → Option (List ℕ)
send_frame false pdata type = none
send_frame true pdata type = some (frame_head (length pdata) type ++ (pdata ++ (0 ∷ [])))

-- Calls of `parseWsHead` as `readData` makes them, each behind what the one before has read: the state,
-- and all the bytes as they are then.
pub after_call : (Ws → List ℕ → Option (Ws × List ℕ)) → Parsed → Option (Ws × List ℕ)
after_call go p = elim p.result [
  | none ↦ none
  | some r ↦ elim (go p.ws (drop r p.bytes)) [
    | none ↦ none
    | some (s', out) ↦ some (s', take r p.bytes ++ out)
  ]
]

pub parse_calls : ℕ → Ws → List ℕ → Option (Ws × List ℕ)
parse_calls zero s bs = some (s, bs)
parse_calls (suc n) s bs = after_call (parse_calls n) (parse_ws_head s bs)
