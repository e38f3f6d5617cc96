-- ===== src/WsConnect/Handshake.antt =====
-- WsConnect.cpp, `readData`: what the first piece of a connection leads to.
use multithread_libevent_exa.Prelude.{
  ℕ, suc, ◌<◌, ◌≤◌, ◌≡◌, ◌≢◌, refl, arith, Bool, true, false, List, [], ◌∷◌, ◌++◌, Option, none,
  some, length, take, drop, if◌then◌else◌,
}
use multithread_libevent_exa.MemoryBuff.{MemoryBuff, get_read_buff, adjust_read_size}
use multithread_libevent_exa.MemoryBuff.Phases.{Holds}
use multithread_libevent_exa.MemoryBuff.Read.{Readable, nothing, some_bytes, get_read_buff-Readable}
use multithread_libevent_exa.FdBridge.{Run, returns, fault}
use multithread_libevent_exa.WsRead.{WsDealWith}
use multithread_libevent_exa.WsConnect.{
  WsConnect, has_blank, do_handshake, ConnectResult, after_handshake, connect_round, connect_loop,
  connect_read_data,
}

-- The piece of `len` bytes, of a buffer with the bytes `q`, that `GetReadBuff` gives, in the memory `m`
-- behind its pointer: at least one byte, and the oldest ones.
pub record IsPiece (b : MemoryBuff) (q m : List ℕ) (len : ℕ) : Type 0 where
  pub offered : get_read_buff b ≡ some (some (m, len))
  pub some_byte : 0 < len
  pub within : len ≤ length q
  pub begins : take len m ≡ take len q

module _ (send : List ℕ → Bool) (response : List ℕ → Option (List ℕ)) (respond : List ℕ → Bool)
    (a c : ℕ) (d : WsDealWith) where
  -- A connection without a handshake.
  abbrev pub new_connection : WsConnect
  new_connection = record { is_handshark = false; deal = d }

  -- The ways in which a call on a buffer with the bytes `q` can end.
  pub data Shakes (b : MemoryBuff) (q : List ℕ) (k : ℕ)
      : ConnectResult send response respond → Type 0 where
    waits :
        get_read_buff b ≡ some none → q ≡ [] → Shakes b q k (returns (some (new_connection, b, 0)))
    overruns : (m : List ℕ) (len : ℕ) → IsPiece b q m len → has_blank m ≡ none → Shakes b q k fault
    no_blank :
        (m : List ℕ) (len : ℕ)
        → IsPiece b q m len
        → has_blank m ≡ some false
        → Shakes b q k (returns none)
    no_response :
        (m : List ℕ) (len : ℕ)
        → IsPiece b q m len
        → has_blank m ≡ some true
        → response m ≡ none
        → Shakes b q k (returns none)
    not_sent :
        (m r : List ℕ) (len : ℕ)
        → IsPiece b q m len
        → has_blank m ≡ some true
        → response m ≡ some r
        → respond r ≡ false
        → Shakes b q k (returns none)
    accepts :
        (m r : List ℕ) (len : ℕ) (b' : MemoryBuff)
        → IsPiece b q m len
        → has_blank m ≡ some true
        → response m ≡ some r
        → respond r ≡ true
        → Holds a c b' (drop len q) k
        → Shakes b q k (
            returns (
              some (
                record { is_handshark = true; deal = record d { sent = d.sent ++ (r ∷ []) } },
                b',
                len,
              )))

  module _ (b : MemoryBuff) (q : List ℕ) (k : ℕ) (m : List ℕ) (len : ℕ) (piece : IsPiece b q m len)
      (adjust : (b' : MemoryBuff) × (adjust_read_size b len ≡ some b')
        × Holds a c b' (drop len q) k) where
    abbrev ResultOf : Run (Option (List ℕ)) → Type 0
    ResultOf x = Shakes b q k (after_handshake send response respond new_connection b len x)

    sent_lem :
        (r : List ℕ) (sent : Bool)
        → has_blank m ≡ some true
        → response m ≡ some r
        → respond r ≡ sent
        → ResultOf (returns (if sent then some r else none))
    unfolding after_handshake
    sent_lem r false h e f = not_sent m r len piece h e f
    sent_lem r true h e f =
        let (b', adj, held) = adjust in
        rw (adj, after_handshake) (accepts m r len b' piece h e f held)

    response_lem :
        (r : Option (List ℕ))
        → has_blank m ≡ some true
        → response m ≡ r
        → ResultOf (do_handshake send response respond m)
    unfolding do_handshake after_handshake
    response_lem none h e =
        rw (h, do_handshake) (rw (e, do_handshake) (no_response m len piece h e))
    response_lem (some r) h e =
        rw (h, do_handshake) (rw (e, do_handshake) (sent_lem r (respond r) h e refl))

    handshake_lem :
        (found : Option Bool)
        → has_blank m ≡ found
        → ResultOf (do_handshake send response respond m)
    unfolding do_handshake after_handshake
    handshake_lem none h = rw (h, do_handshake) (overruns m len piece h)
    handshake_lem (some false) h = rw (h, do_handshake) (no_blank m len piece h)
    handshake_lem (some true) h = response_lem (response m) h refl

  round_lem :
      (fuel : ℕ) (go : WsConnect → MemoryBuff → ℕ → ConnectResult send response respond)
      (b : MemoryBuff) (q : List ℕ) (k : ℕ)
      → Readable a c b q k
      → Shakes b q k
          (connect_round send response respond fuel go new_connection b 0 (get_read_buff b))
  unfolding connect_round
  round_lem fuel go b q k (nothing r empty) = rw (r, connect_round) (waits r empty)
  round_lem fuel go b q k (some_bytes m len r pos le same adjust) =
      rw (r, connect_round)
        (handshake_lem b q k m len
          (record { offered = r; some_byte = pos; within = le; begins = same })
          (adjust len (omega arith)) (has_blank m) refl)

  -- On a connection without a handshake, whose buffer of two nodes is in one of the states Holds, and
  -- on fuel for at least one round, readData ends in one of these ways. The buffer is empty, and it
  -- returns 0 with nothing changed. The search for a blank line leaves the memory at the oldest bytes.
  -- There is no blank line, or no response to what stands there, or the response cannot be sent, and
  -- it returns -1. Or the response is sent once, the handshake is done, and the bytes of the piece, at
  -- least one, are removed from the buffer, which is again in such a state.
  pub connect_read_data-Shakes :
      (ne : a ≢ c) (fuel : ℕ) (b : MemoryBuff) (q : List ℕ) (k : ℕ)
      → Holds a c b q k
      → Shakes b q k (connect_read_data send response respond (suc fuel) new_connection b)
  unfolding connect_read_data connect_loop
  connect_read_data-Shakes ne fuel b q k h =
      round_lem fuel (connect_loop send response respond fuel) b q k
        (get_read_buff-Readable a c ne b q k h)
