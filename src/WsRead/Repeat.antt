-- ===== src/WsRead/Repeat.antt =====
-- WsStickyWrap.cpp, `readData`: control frames that come one after the other, each in one piece.
use multithread_libevent_exa.Prelude.{
  ℕ, suc, ◌+◌, ◌<◌, ◌≡◌, ◌⊎◌, refl, sym, ap, ◌∙◌, arith, Bool, true, List, [], ◌∷◌, ◌++◌, Option,
  none, some, length, take, drop, append-nil, append_assoc, length-append, All,
}
use multithread_libevent_exa.Frames.Mask.{mask_from, Accepted}
use multithread_libevent_exa.FdBridge.{Run, returns, fault, out_of_fuel}
use multithread_libevent_exa.WsRead.{WsDealWith, data_cap, ws_read_data}
use multithread_libevent_exa.WsRead.Complete.{reply}
use multithread_libevent_exa.WsRead.Whole.{whole_frame}
use multithread_libevent_exa.WsRead.Rest.{AtRest, arrives-control}

-- A close or a ping of a client, with its mask and its data.
pub record Control : Type 0 where
  pub type : ℕ
  pub m0 : ℕ
  pub m1 : ℕ
  pub m2 : ℕ
  pub m3 : ℕ
  pub c : ℕ
  pub cs : List ℕ

abbrev pub masks_of : Control → List ℕ
masks_of f = f.m0 ∷ (f.m1 ∷ (f.m2 ∷ (f.m3 ∷ [])))

abbrev pub data_of_control : Control → List ℕ
data_of_control f = f.c ∷ f.cs

abbrev pub IsControl : Control → Type 0
IsControl f =
    ((f.type ≡ 8) ⊎ (f.type ≡ 9))
    × (length (data_of_control f) < 126)
    × Accepted (masks_of f) 0 (data_of_control f)

-- The frame as it comes, and with its data unmasked.
abbrev pub heading_of : Control → List ℕ
heading_of f = (128 + f.type) ∷ ((128 + length (data_of_control f)) ∷ masks_of f)

abbrev pub wire_of : Control → List ℕ
wire_of f = heading_of f ++ mask_from (masks_of f) 0 (data_of_control f)

abbrev pub plain_of : Control → List ℕ
plain_of f = heading_of f ++ data_of_control f

whole-wire_of :
    (d : WsDealWith) (f : Control)
    → whole_frame d (128 + f.type) f.m0 f.m1 f.m2 f.m3 f.c f.cs ≡ wire_of f
whole-wire_of d f =
    ap (λ bs. heading_of f ++ bs) (append-nil (mask_from (masks_of f) 0 (data_of_control f)))

-- The frames' answers on a memory: of each, all that stands behind the first six bytes of the memory by then.
abbrev pub answers : List ℕ → List Control → List (List ℕ)
answers memory [] = []
answers memory (f ∷ fs) =
    reply (drop 6 (memory ++ plain_of f)) f.type ∷ answers (memory ++ plain_of f) fs

abbrev pub plains : List Control → List ℕ
plains [] = []
plains (f ∷ fs) = plain_of f ++ plains fs

-- Calls of `readData`, one on each piece.
unfoldable pub after_piece :
    (WsDealWith → Run (Option WsDealWith)) → Run (Option WsDealWith) → Run (Option WsDealWith)
after_piece go fault = fault
after_piece go out_of_fuel = out_of_fuel
after_piece go (returns none) = returns none
after_piece go (returns (some d)) = go d

pub calls : (List ℕ → Bool) → ℕ → WsDealWith → List Control → Run (Option WsDealWith)
calls send fuel d [] = returns (some d)
calls send fuel d (f ∷ fs) =
    after_piece (λ d'. calls send fuel d' fs) (ws_read_data send fuel d (wire_of f))

-- The state behind the calls.
record Answered (send : List ℕ → Bool) (d : WsDealWith) (memory : List ℕ) (fs : List Control)
    (r : Run (Option WsDealWith)) : Type 0 where
  state : WsDealWith
  result : r ≡ returns (some state)
  at_rest : AtRest state
  sent : state.sent ≡ d.sent ++ answers memory fs
  size : state.data_size ≡ d.data_size + length (plains fs)
  held : take state.data_size state.p_data ≡ memory ++ plains fs

module _ (send : List ℕ → Bool) (fuel : ℕ) (sends : (bs : List ℕ) → send bs ≡ true) where
  abbrev four_more : ℕ
  four_more = suc (suc (suc (suc fuel)))

  calls-Answered :
      (d : WsDealWith) (memory : List ℕ) (fs : List Control)
      → AtRest d
      → take d.data_size d.p_data ≡ memory
      → All IsControl fs
      → d.data_size + length (plains fs) < data_cap
      → Answered send d memory fs (calls send four_more d fs)
  unfolding calls after_piece
  calls-Answered d memory [] h e a small = record {
    state = d;
    result = refl;
    at_rest = h;
    sent = sym (append-nil d.sent);
    size = omega arith;
    held = e ∙ sym (append-nil memory);
  }
  calls-Answered d memory (f ∷ fs) h e a small =
      let parts = length-append (plain_of f) (plains fs) in
      let now = memory ++ plain_of f in
      let (d', run, h', st, ds, m) =
        arrives-control send d (128 + f.type) f.m0 f.m1 f.m2 f.m3 f.c f.cs h a.0.1
          (omega (arith, small, parts)) a.0.2 fuel f.type a.0.0 refl (sends _) in
      let rest =
        calls-Answered d' now fs h' (m ∙ ap (λ bs. bs ++ plain_of f) e) a.1
          (omega (arith, small, parts, ds)) in
      let first : reply (drop 6 (take d.data_size d.p_data ++ plain_of f)) f.type
          ≡ reply (drop 6 now) f.type =
        ap (λ bs. reply (drop 6 (bs ++ plain_of f)) f.type) e in
      record {
        state = rest.state;
        result =
            ap
              (λ bs.
                after_piece (λ d2. calls send four_more d2 fs) (ws_read_data send four_more d bs))
              (sym (whole-wire_of d f))
            ∙ ap (after_piece (λ d2. calls send four_more d2 fs)) run
            ∙ rest.result;
        at_rest = rest.at_rest;
        sent =
            rest.sent
            ∙ ap (λ l. l ++ answers now fs) (st ∙ ap (λ x. d.sent ++ (x ∷ [])) first)
            ∙ append_assoc d.sent (reply (drop 6 now) f.type ∷ []) (answers now fs);
        size = omega (arith, rest.size, ds, parts);
        held = rest.held ∙ append_assoc memory (plain_of f) (plains fs);
      }

  -- Take a connection that waits for a frame, with all that its memory of 8192 bytes holds read, and
  -- control frames (close or ping) of a client, each with 1 to 125 bytes of data under a mask, where
  -- no masked byte is 255, and each arriving in one piece; let all of them and what the memory holds
  -- be together below 8192 bytes, and let the sending succeed. Then readData, called on each in turn,
  -- on fuel for at least four rounds, always returns, and has given send one frame for each: of the
  -- opcode of the one received, with a zero byte at the end, and with all that the memory then holds
  -- behind its first six bytes as its data. This is the unmasked data of the frame only if the memory
  -- was empty, since the bytes of the frames stay there; at the end it holds them all, and the
  -- connection waits for a frame.
  pub calls-answers :
      (d : WsDealWith) (fs : List Control)
      → AtRest d
      → All IsControl fs
      → d.data_size + length (plains fs) < data_cap
      → (d' : WsDealWith) × (calls send four_more d fs ≡ returns (some d'))
        × AtRest d'
        × (d'.sent ≡ d.sent ++ answers (take d.data_size d.p_data) fs)
        × (d'.data_size ≡ d.data_size + length (plains fs))
  calls-answers d fs h a small =
      let x = calls-Answered d (take d.data_size d.p_data) fs h refl a small in
      (x.state, x.result, x.at_rest, x.sent, x.size)
