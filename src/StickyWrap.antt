-- ===== src/StickyWrap.antt =====
-- ExtNet/memoryBuff/stickyWrap.cpp: an older reader, of packets inside of frames, that no program uses.
-- `get_handshake_response` and `send` are parameters, as in `WsConnect`. `printf` is left out.
pub mod Accept
mod Tests
use multithread_libevent_exa.Prelude.{
  ℕ, zero, suc, ◌+◌, ◌-◌, ◌%◌, ◌^◌, Bool, true, false, List, [], ◌∷◌, ◌++◌, Option, none, some,
  length, get_or, take, drop, replicate, store, ltb, leb, ◌==◌, ◌&&◌, if◌then◌else◌,
}
use multithread_libevent_exa.Frames.{joined_bytes}
use multithread_libevent_exa.Frames.Bits.{bits_xor}
use multithread_libevent_exa.MemoryBuff.{MemoryBuff, load, put, get_read_buff, adjust_read_size}
use multithread_libevent_exa.FdBridge.{Run, returns, fault, out_of_fuel}
use multithread_libevent_exa.Packets.{
  PackDealWith, head_size, pack_cap, head_part, head_len, append_pack,
}
use multithread_libevent_exa.WsConnect.{do_handshake}

-- `ws_head`, and the fields of `StickyWrap`, of which those of a packet are a `PackDealWith`.
pub record WsHead : Type 0 where
  pub wbs : ℕ × ℕ
  pub len : ℕ
  pub masks : List ℕ

pub record StickyWrap : Type 0 where
  pub pack : PackDealWith
  pub is_handshake : Bool
  pub wshead : WsHead

-- The constructor. `_wshead` has no value before a frame is read.
unfoldable pub new_sticky_wrap : WsHead → StickyWrap
new_sticky_wrap h = record {
  pack = record { head = true; p_data = replicate pack_cap 0; data_size = 0 };
  is_handshake = false;
  wshead = h;
}

-- The loop over the bytes of a frame, with `n` rounds left: whether it ended by its test and not by
-- `return -1`, and the bytes. It does not ask how many there are; `none` is a byte past the memory.
pub unmask_all : List ℕ → ℕ → ℕ → List ℕ → Option (Bool × List ℕ)
unmask_all masks zero i bs = some (true, bs)
unmask_all masks (suc n) i [] = none
unmask_all masks (suc n) i (b ∷ bs) =
    let rest = unmask_all masks n (suc i) bs in
    if b == 255 then some (false, b ∷ bs) else elim rest [
      | none ↦ none
      | some (ended, out) ↦ some (ended, bits_xor 8 b (get_or masks (i % 4) 0) ∷ out)
    ]

-- What `parseWsHead` leaves: the head, the bytes at the pointer, and its value, with -1 as `none`.
pub record Framed : Type 0 where
  pub wshead : WsHead
  pub bytes : List ℕ
  pub result : Option ℕ

-- Behind the mask, with `front` the bytes before it.
unfoldable pub after_masks : WsHead → List ℕ → List ℕ → List ℕ → Option Framed
after_masks h front masks bs = elim (unmask_all masks h.len 0 bs) [
  | none ↦ none
  | some (ended, out) ↦ some (record {
    wshead = record h { masks = masks };
    bytes = front ++ (masks ++ out);
    result = if ended then some (length front + 4) else none;
  })
]

-- Behind the length, which is `n`.
unfoldable pub after_len : WsHead → List ℕ → ℕ → List ℕ → Option Framed
after_len h front n bs =
    if ltb 65536 n
    then some (record { wshead = record h { len = n }; bytes = front ++ bs; result = none })
    else (if leb 4 (length bs)
        then after_masks (record h { len = n }) front (take 4 bs) (drop 4 bs)
        else none)

-- Behind the first two bytes, of which the second has the length or its size.
unfoldable pub after_base : ℕ → ℕ → List ℕ → Option Framed
after_base b0 b1 bs =
    let h : WsHead = record { wbs = (b0, b1); len = 0; masks = replicate 4 0 } in
    let front = b0 ∷ (b1 ∷ []) in
    if ltb (b1 % 128) 126
    then after_len h front (b1 % 128) bs
    else (let k = if b1 % 128 == 126 then 2 else 8 in
        if leb k (length bs)
        then after_len h (front ++ take k bs) (joined_bytes k bs) (drop k bs)
        else none)

unfoldable pub frame_of : List ℕ → Option Framed
frame_of [] = none
frame_of (b0 ∷ []) = none
frame_of (b0 ∷ (b1 ∷ bs)) = after_base b0 b1 bs

-- `parseWsHead` on `len` bytes of the memory `m`.
unfoldable pub parse_frame : WsHead → List ℕ → ℕ → Option Framed
parse_frame h m len =
    if ltb 2 len then frame_of m else some (record { wshead = h; bytes = m; result = some 0 })

-- The memory of the node at the read cursor, as `parseWsHead` has left it.
unfoldable pub rewrite_read : MemoryBuff → List ℕ → Option MemoryBuff
rewrite_read b m = elim b.read [
  | none ↦ none
  | some r ↦ elim (load b r) [
    | none ↦ none
    | some n ↦ some (put b r (record n { p_data = store n.p_data n.read_size m }))
  ]
]

-- What `readData` returns: -1, no value at the end behind a `break`, or a length.
pub data Value : Type 0 where
  minus_one no_value : Value
  count : ℕ → Value

-- A call's result: the fields, the buffer, the value, what `send` was given, and the packets handed on.
pub record Sticky : Type 0 where
  pub wrap : StickyWrap
  pub buff : MemoryBuff
  pub value : Value
  pub sent : List (List ℕ)
  pub messages : List (List ℕ)

-- `n` bytes to copy; `none` is a byte past the memory.
unfoldable pub bytes_at : List ℕ → ℕ → Option (List ℕ)
bytes_at src n = if leb n (length src) then some (take n src) else none

unfoldable pub copy_bytes : PackDealWith → List ℕ → ℕ → Option PackDealWith
copy_bytes k src n = elim (bytes_at src n) [ none ↦ none | some bs ↦ append_pack k bs ]

-- The packet's part of a round, on `len` bytes at `src`: the pack and `readlen`; `none` is `return -1`.
-- Where the packet ends within the bytes, `readlen` leaves out what went to its head.
unfoldable pub copy_body : PackDealWith → List ℕ → ℕ → ℕ → ℕ → Run (Option (PackDealWith × ℕ × ℕ))
copy_body k src len readlen hlen =
    if leb head_size k.data_size && ltb pack_cap hlen
    then returns none
    else (if leb (k.data_size + (len - readlen)) hlen
        then elim (copy_bytes k src (len - readlen)) [
          | none ↦ fault
          | some k' ↦ returns (some (k', len, hlen))
        ]
        else (if ltb hlen k.data_size then fault else elim (copy_bytes k src (hlen - k.data_size)) [
          | none ↦ fault
          | some k' ↦ returns (some (k', hlen - k.data_size, hlen))
        ]))

unfoldable pub copy_packet : PackDealWith → List ℕ → ℕ → Run (Option (PackDealWith × ℕ × ℕ))
copy_packet k src len = elim (copy_bytes k src (head_part k len)) [
  | none ↦ fault
  | some k' ↦ elim (head_len k') [
    | none ↦ fault
    | some hlen ↦ copy_body k' src len (head_part k len) hlen
  ]
]

-- The end of a round behind `AdjustReadSize(readlen)`.
unfoldable pub hand_on : StickyWrap → MemoryBuff → ℕ → PackDealWith → ℕ → ℕ → Sticky
hand_on w b len k readlen hlen =
    let full = ltb head_size k.data_size && (hlen == k.data_size) in
    record {
      wrap = record w { pack = if full then record k { data_size = 0 } else k };
      buff = b;
      value = if leb len readlen then no_value else count readlen;
      sent = [];
      messages = if full then take hlen k.p_data ∷ [] else [];
    }

unfoldable pub after_copy :
    StickyWrap → MemoryBuff → ℕ → Run (Option (PackDealWith × ℕ × ℕ)) → Run Sticky
after_copy w b len fault = fault
after_copy w b len out_of_fuel = out_of_fuel
after_copy w b len (returns none) =
    returns (record { wrap = w; buff = b; value = minus_one; sent = []; messages = [] })
after_copy w b len (returns (some (k, readlen, hlen))) = elim (adjust_read_size b readlen) [
  | none ↦ fault
  | some b' ↦ returns (hand_on w b' len k readlen hlen)
]

-- Behind `parseWsHead`, which has left `f` of `len` bytes. What is left of them is a number of 16 bits.
unfoldable pub after_frame : StickyWrap → MemoryBuff → ℕ → Framed → Run Sticky
after_frame w b len f = elim f.result [
  | none ↦ returns (record {
    wrap = record w { wshead = f.wshead };
    buff = b;
    value = minus_one;
    sent = [];
    messages = [];
  })
  | some r ↦ elim (adjust_read_size b r) [
    | none ↦ fault
    | some b' ↦
        let left = (len + 2 ^ 16 - r) % 2 ^ 16 in
        if ltb 0 left
        then after_copy (record w { wshead = f.wshead }) b' left
            (copy_packet w.pack (drop r f.bytes) left)
        else returns (record {
          wrap = record w { wshead = f.wshead };
          buff = b';
          value = no_value;
          sent = [];
          messages = [];
        })
  ]
]

-- A frame at the read cursor.
unfoldable pub read_frame : StickyWrap → MemoryBuff → List ℕ → ℕ → Run Sticky
read_frame w b m len = elim (parse_frame w.wshead m len) [
  | none ↦ fault
  | some f ↦ elim (rewrite_read b f.bytes) [ none ↦ fault | some b' ↦ after_frame w b' len f ]
]

-- The handshake, whose value is not looked at.
unfoldable pub after_shake : StickyWrap → MemoryBuff → ℕ → Run (Option (List ℕ)) → Run Sticky
after_shake w b len fault = fault
after_shake w b len out_of_fuel = out_of_fuel
after_shake w b len (returns r) = elim (adjust_read_size b len) [
  | none ↦ fault
  | some b' ↦ returns (record {
    wrap = record w { is_handshake = true };
    buff = b';
    value = count len;
    sent = elim r [ none ↦ [] | some bytes ↦ bytes ∷ [] ];
    messages = [];
  })
]

module _ (send : List ℕ → Bool) (response : List ℕ → Option (List ℕ))
    (respond : List ℕ → Bool) where
  -- The body of the loop, on what `GetReadBuff` returned; a null pointer comes with the length 0. It
  -- returns or breaks, so that there is one round.
  unfoldable pub sticky_round : StickyWrap → MemoryBuff → Option (Option (List ℕ × ℕ)) → Run Sticky
  sticky_round w b none = fault
  sticky_round w b (some none) = if w.is_handshake then read_frame w b [] 0 else fault
  sticky_round w b (some (some (m, len))) =
      if w.is_handshake
      then read_frame w b m len
      else after_shake w b len (do_handshake send response respond m)

  unfoldable pub sticky_read_data : StickyWrap → MemoryBuff → Run Sticky
  sticky_read_data w b = sticky_round w b (get_read_buff b)
