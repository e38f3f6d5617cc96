-- ===== src/WsRead.antt =====
-- ExtNet/ws/WsStickyWrap.cpp, `readData`: received bytes are put behind those in `_pData`, and the frames
-- in them are parsed (`Frames`) and answered or handed to `finishParse` (`Packets`).
-- What `send` does with the bytes of a frame is a parameter, by whether it succeeds.
pub mod Rounds
pub mod Partial
pub mod Whole
pub mod Cut
pub mod Received
pub mod Heads
pub mod Pieces
pub mod Resume
pub mod Complete
pub mod Rest
pub mod Reply
pub mod Repeat
mod Tests
use multithread_libevent_exa.Prelude.{
  ℕ, zero, suc, ◌+◌, ◌-◌, ◌%◌, ◌^◌, Bool, true, false, List, [], ◌∷◌, ◌++◌, Option, none, some,
  length, take, drop, store, ltb, leb, ◌==◌, ◌&&◌, ◌||◌, not, if◌then◌else◌,
}
use multithread_libevent_exa.Frames.{
  Ws, Op, init_head, read_payload, read_mask_key, read_data, Parsed, opcod, fin, parse_ws_head,
  cal_frame_head_size, send_frame,
}
use multithread_libevent_exa.FdBridge.{Run, returns, fault, out_of_fuel}
use multithread_libevent_exa.Packets.{PackDealWith, finish_parse}

-- `WsDealWith` and `_pack`. `known` says whether `_head.wbs` has a value, and `sent` records what was given
-- to `send`; the program has no such variables.
pub record WsDealWith : Type 0 where
  pub ws : Ws
  pub known : Bool
  pub p_data : List ℕ
  pub data_size : ℕ
  pub read_size : ℕ
  pub pack : PackDealWith
  pub sent : List (List ℕ)

abbrev pub data_cap : ℕ
data_cap = 8192

-- INIT_HEAD sets `_head.wbs` when it reads.
abbrev pub sets_head : Op → Option ℕ → Bool
sets_head init_head (some n) = not (n == 0)
sets_head init_head none = false
sets_head read_payload r = false
sets_head read_mask_key r = false
sets_head read_data r = false

-- The bytes that `parseWsHead` is called on, and the state after the call.
abbrev pub unread : WsDealWith → List ℕ
unread d = take (d.data_size - d.read_size) (drop d.read_size d.p_data)

unfoldable pub parsed_state : WsDealWith → Parsed → ℕ → WsDealWith
parsed_state d p n = record d {
  ws = p.ws;
  known = d.known || sets_head d.ws.op p.result;
  p_data = store d.p_data d.read_size p.bytes;
  read_size = d.read_size + n;
}

-- `fin && _parse_Index && _parse_Index >= _head.len`.
unfoldable pub is_complete : Ws → Bool
is_complete s = (fin s == 1) && (not (s.parse_index == 0) && leb s.len s.parse_index)

module _ (send : List ℕ → Bool) where
  -- `sendFrame` on what stands behind the head of the frame; `none` is -1, which ends `readData`.
  unfoldable pub answer : WsDealWith → ℕ → Run (Option WsDealWith)
  answer d type =
      let hs = cal_frame_head_size d.ws in
      if ltb d.data_size hs
      then fault
      else elim (send_frame true (take (d.data_size - hs) (drop hs d.p_data)) type) [
        | none ↦ returns none
        | some bytes ↦
            returns (if send bytes then some (record d { sent = d.sent ++ (bytes ∷ []) }) else none)
      ]

  -- A frame with data: `finishParse`, whose value is not looked at, and what follows is moved to the front.
  unfoldable pub move_rest :
      WsDealWith → ℕ → Run (Option ℕ × PackDealWith × ℕ) → Run (Option WsDealWith)
  move_rest d hs fault = fault
  move_rest d hs out_of_fuel = out_of_fuel
  move_rest d hs (returns (r, k, n)) =
      if ltb n (hs + d.ws.len)
      then fault
      else returns (
          some (record d {
            pack = k;
            p_data = store d.p_data 0 (take (n - (hs + d.ws.len)) (drop (hs + d.ws.len) d.p_data));
            data_size = n - (hs + d.ws.len);
            read_size = 0;
          }))

  unfoldable pub take_data : ℕ → WsDealWith → Run (Option WsDealWith)
  take_data fuel d =
      let hs = cal_frame_head_size d.ws in
      if ltb d.data_size hs || ltb d.ws.len (d.data_size - hs)
      then returns none
      else move_rest d hs (finish_parse fuel d.pack (drop hs d.p_data) d.ws.len d.data_size)

  -- The switch over the opcode of a complete frame: close 8, ping 9, pong 10, unsupported 15.
  unfoldable pub complete_frame : ℕ → WsDealWith → Run (Option WsDealWith)
  complete_frame fuel d =
      if opcod d.ws == 8
      then answer d 8
      else (if opcod d.ws == 9
          then answer d 9
          else (if (opcod d.ws == 10) || (opcod d.ws == 15)
              then returns (some d)
              else take_data fuel d))

  -- A round behind `parseWsHead`.
  unfoldable pub after_parse : ℕ → WsDealWith → Run (Option WsDealWith)
  after_parse fuel d =
      if not d.known
      then fault
      else (if is_complete d.ws then complete_frame fuel d else returns (some d))

  -- The test at the end of the loop, with `go` the rounds that follow. The second part of a result is the
  -- state at the end; -1 is `none`.
  unfoldable pub loop_test :
      (WsDealWith → Run (Option WsDealWith)) → Run (Option WsDealWith) → Run (Option WsDealWith)
  loop_test go fault = fault
  loop_test go out_of_fuel = out_of_fuel
  loop_test go (returns none) = returns none
  loop_test go (returns (some d)) = elim (ltb d.read_size d.data_size) [
    | true ↦ go d
    | false ↦ returns (some d)
  ]

  unfoldable pub parse_round :
      ℕ → (WsDealWith → Run (Option WsDealWith)) → WsDealWith → Parsed → Run (Option WsDealWith)
  parse_round fuel go d p = elim p.result [
    | none ↦ returns (some (record d { ws = p.ws; p_data = store d.p_data d.read_size p.bytes }))
    | some n ↦ loop_test go (after_parse fuel (parsed_state d p n))
  ]

  -- The loop, on fuel, which `finishParse` has too.
  pub parse_loop : ℕ → WsDealWith → Run (Option WsDealWith)
  parse_loop zero d = out_of_fuel
  parse_loop (suc fuel) d = parse_round fuel (parse_loop fuel) d (parse_ws_head d.ws (unread d))

  -- `readData`: the state, if the value is not -1; the value is then the length of what was given.
  unfoldable pub ws_read_data : ℕ → WsDealWith → List ℕ → Run (Option WsDealWith)
  ws_read_data fuel d [] = returns (some d)
  ws_read_data fuel d (b ∷ pbuff) =
      if ltb (d.data_size + length (b ∷ pbuff)) data_cap
      then parse_loop fuel (record d {
        p_data = store d.p_data d.data_size (b ∷ pbuff);
        data_size = d.data_size + length (b ∷ pbuff);
      })
      else returns none
