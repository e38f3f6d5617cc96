-- ===== src/StickyWrap/Accept.antt =====
-- stickyWrap.cpp, `readData`: the first piece of a connection is taken for a handshake, whatever it is.
use multithread_libevent_exa.Prelude.{
  ℕ, ◌≡◌, ◌≢◌, refl, arith, Bool, true, false, List, [], Option, none, some, drop, if◌then◌else◌,
}
use multithread_libevent_exa.MemoryBuff.{MemoryBuff, get_read_buff, adjust_read_size}
use multithread_libevent_exa.MemoryBuff.Phases.{Holds}
use multithread_libevent_exa.MemoryBuff.Read.{Readable, nothing, some_bytes, get_read_buff-Readable}
use multithread_libevent_exa.FdBridge.{Run, returns, fault}
use multithread_libevent_exa.Packets.{PackDealWith}
use multithread_libevent_exa.WsConnect.{has_blank, do_handshake}
use multithread_libevent_exa.WsConnect.Handshake.{IsPiece}
use multithread_libevent_exa.StickyWrap.{
  StickyWrap, WsHead, Sticky, count, after_shake, sticky_round, sticky_read_data,
}

module _ (send : List ℕ → Bool) (response : List ℕ → Option (List ℕ)) (respond : List ℕ → Bool)
    (a c : ℕ) (k : PackDealWith) (h : WsHead) where
  -- The fields, before and after a handshake.
  abbrev pub shaken : Bool → StickyWrap
  shaken done = record { pack = k; is_handshake = done; wshead = h }

  abbrev pub done_with : MemoryBuff → ℕ → List (List ℕ) → Sticky
  done_with b len sent = record {
    wrap = shaken true;
    buff = b;
    value = count len;
    sent = sent;
    messages = [];
  }

  -- The ways in which a call on a buffer with the bytes `q` can end.
  pub data Accepts (b : MemoryBuff) (q : List ℕ) (n : ℕ) : Run Sticky → Type 0 where
    crashes : get_read_buff b ≡ some none → q ≡ [] → Accepts b q n fault
    overruns : (m : List ℕ) (len : ℕ) → IsPiece b q m len → has_blank m ≡ none → Accepts b q n fault
    takes_request :
        (m : List ℕ) (len : ℕ) (b' : MemoryBuff) (sent : List (List ℕ))
        → IsPiece b q m len
        → has_blank m ≡ some true
        → Holds a c b' (drop len q) n
        → Accepts b q n (returns (done_with b' len sent))
    takes_anything :
        (m : List ℕ) (len : ℕ) (b' : MemoryBuff)
        → IsPiece b q m len
        → has_blank m ≡ some false
        → Holds a c b' (drop len q) n
        → Accepts b q n (returns (done_with b' len []))

  module _ (q : List ℕ) (n : ℕ) (b : MemoryBuff) (m : List ℕ) (len : ℕ) (piece : IsPiece b q m len)
      (adjust : (b' : MemoryBuff) × (adjust_read_size b len ≡ some b')
        × Holds a c b' (drop len q) n) where
    value_lem :
        (x : Option (List ℕ))
        → has_blank m ≡ some true
        → Accepts b q n (after_shake (shaken false) b len (returns x))
    unfolding after_shake
    value_lem x e =
        let (b', adj, held) = adjust in
        rw (adj, after_shake) (takes_request m len b' _ piece e held)

    response_lem :
        (r : Option (List ℕ))
        → has_blank m ≡ some true
        → response m ≡ r
        → Accepts b q n (after_shake (shaken false) b len (do_handshake send response respond m))
    unfolding do_handshake
    response_lem none e f = rw (e, do_handshake) (rw (f, do_handshake) (value_lem none e))
    response_lem (some r) e f =
        rw (e, do_handshake)
          (rw (f, do_handshake) (value_lem (if respond r then some r else none) e))

    shake_lem :
        (found : Option Bool)
        → has_blank m ≡ found
        → Accepts b q n (after_shake (shaken false) b len (do_handshake send response respond m))
    unfolding after_shake do_handshake
    shake_lem none e = rw (e, do_handshake) (overruns m len piece e)
    shake_lem (some false) e =
        let (b', x, held) = adjust in
        rw (e, do_handshake) (rw (x, after_shake) (takes_anything m len b' piece e held))
    shake_lem (some true) e = response_lem (response m) e refl

  round_lem :
      (b : MemoryBuff) (q : List ℕ) (n : ℕ)
      → Readable a c b q n
      → Accepts b q n (sticky_round send response respond (shaken false) b (get_read_buff b))
  unfolding sticky_round
  round_lem b q n (nothing r empty) = rw (r, sticky_round) (crashes r empty)
  round_lem b q n (some_bytes m len r pos le same adjust) =
      rw (r, sticky_round)
        (shake_lem q n b m len (record { offered = r; some_byte = pos; within = le; begins = same })
          (adjust len (omega arith)) (has_blank m) refl)

  -- On a connection of the older reader without a handshake, whose buffer of two nodes is in one of
  -- the states Holds, readData ends in one of three ways. The buffer is empty, GetReadBuff gives a
  -- null pointer, and it reads through it. Or GetReadBuff gives the oldest bytes, a piece of at least
  -- one, and the search for a blank line in the memory that begins with this piece leaves the memory.
  -- Or the bytes of the piece are removed from the buffer, which is again in such a state, and the
  -- handshake counts as done, with or without a blank line in that memory: without one nothing was
  -- sent, and with one it does not matter whether there was a response or it could be sent.
  pub sticky_read_data-Accepts :
      (ne : a ≢ c) (b : MemoryBuff) (q : List ℕ) (n : ℕ)
      → Holds a c b q n
      → Accepts b q n (sticky_read_data send response respond (shaken false) b)
  unfolding sticky_read_data
  sticky_read_data-Accepts ne b q n h = round_lem b q n (get_read_buff-Readable a c ne b q n h)
