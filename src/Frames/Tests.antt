-- ===== src/Frames/Tests.antt =====
-- Frames on concrete bytes.
use multithread_libevent_exa.Prelude.{◌≡◌, refl, arith, false, [], ◌∷◌, ◌++◌, some, replicate}
use multithread_libevent_exa.Frames.{
  Ws, init_head, unmask_loop, parse_calls, joined_bytes, extend, shifted,
}
use multithread_libevent_exa.Prelude.{get_or, drop, inr}
use multithread_libevent_exa.Frames.{frame_head, parse_ws_head}
use multithread_libevent_exa.Frames.Length.{frame_head-length, behind_head, second}
use multithread_libevent_exa.Frames.Bits.{bits_xor, bits_or}
use multithread_libevent_exa.Frames.Mask.{parse_calls_lem, mask_from, Accepted}

abbrev new_ws : Ws
new_ws = record { op = init_head; wbs = (0, 0); len = 0; masks = replicate 4 0; parse_index = 0 }

-- "Hi" in a text frame under the mask 1 2 3 4, followed by the head of another frame.
hi-Accepted : Accepted (1 ∷ 2 ∷ 3 ∷ 4 ∷ []) 0 (72 ∷ 105 ∷ [])
unfolding bits_xor
hi-Accepted = (omega arith, refl, (omega arith, refl, tt))

parse_calls_lem_example :
    parse_calls 4 new_ws
      (129 ∷ 130 ∷ 1 ∷ 2 ∷ 3 ∷ 4 ∷ (mask_from (1 ∷ 2 ∷ 3 ∷ 4 ∷ []) 0 (72 ∷ 105 ∷ []) ++ (129 ∷ [])))
    ≡ some (
      record {
        op = init_head;
        wbs = (129, 130);
        len = 2;
        masks = 1 ∷ 2 ∷ 3 ∷ 4 ∷ [];
        parse_index = 2;
      },
      129 ∷ 130 ∷ 1 ∷ 2 ∷ 3 ∷ 4 ∷ 72 ∷ 105 ∷ 129 ∷ [],
    )
parse_calls_lem_example =
    parse_calls_lem new_ws 129 1 2 3 4 72 (105 ∷ []) (129 ∷ []) refl (omega arith) hi-Accepted

-- A masked byte that is 255 ends the parser.
byte_255 : unmask_loop (0 ∷ 0 ∷ 0 ∷ 0 ∷ []) 1 0 (255 ∷ []) ≡ (false, 0, 255 ∷ [], 0)
unfolding unmask_loop
byte_255 = refl

-- The length 200 in two bytes is read as a number of 64 bits, since the byte 200 is a negative `char`.
length_200 : joined_bytes 2 (0 ∷ 200 ∷ []) ≡ 18446744073709551560
unfolding joined_bytes shifted extend bits_or
length_200 = refl

frame_head-length_example :
    let head = frame_head 300 1 in
    (parse_ws_head (behind_head (get_or head 0 0) (second head)) (drop 2 head ++ (7 ∷ []))).ws.len
    ≡ 300
frame_head-length_example = frame_head-length 300 1 7 [] (omega arith) (inr (omega arith))
