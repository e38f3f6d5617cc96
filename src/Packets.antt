-- ===== src/Packets.antt =====
-- ExtNet/tcp/TcpStickyWrap.cpp, `finishParse` of ExtNet/ws/WsStickyWrap.cpp, and `PackDealWith` and
-- `ServerPack` of ExtNet/common/BaseType.h: packets put together from pieces. A packet begins with its
-- length and its number, of two bytes each, the lower byte first.
pub mod Encode
pub mod Head
pub mod Connect
mod Tests
use multithread_libevent_exa.Prelude.{
  ℕ, zero, suc, ◌*◌, ◌+◌, ◌-◌, ◌/◌, ◌%◌, ◌^◌, min, Bool, true, false, List, [], ◌∷◌, ◌++◌, Option,
  none, some, length, get_or, take, drop, replicate, store, ltb, leb, ◌==◌, ◌&&◌, if◌then◌else◌,
}
use multithread_libevent_exa.MemoryBuff.{MemoryBuff, get_read_buff, adjust_read_size}
use multithread_libevent_exa.FdBridge.{Run, returns, fault, out_of_fuel}

abbrev pub pack_cap : ℕ
pack_cap = 4096

-- `sizeof(msgHead)`.
abbrev pub head_size : ℕ
head_size = 4

-- `PackDealWith`. `head` says whether `_head` leads to `_pData`; otherwise it has no value.
pub record PackDealWith : Type 0 where
  pub head : Bool
  pub p_data : List ℕ
  pub data_size : ℕ

-- The constructor, on the memory that `malloc` returns. It does not set `_head`.
unfoldable pub new_pack : List ℕ → PackDealWith
new_pack block = record { head = false; p_data = block; data_size = 0 }

-- `_head->_len` and `_head->_msgId`.
unfoldable pub head_len : PackDealWith → Option ℕ
head_len k = if k.head then some (get_or k.p_data 0 0 + 256 * get_or k.p_data 1 0) else none

unfoldable pub head_msg_id : PackDealWith → Option ℕ
head_msg_id k = if k.head then some (get_or k.p_data 2 0 + 256 * get_or k.p_data 3 0) else none

-- `memcpy(_pData + _Data_size, src, n); _Data_size += n`, which must stay in the block.
unfoldable pub append_pack : PackDealWith → List ℕ → Option PackDealWith
append_pack k src =
    if leb (k.data_size + length src) pack_cap
    then some
        (record k { p_data = store k.p_data k.data_size src; data_size = k.data_size + length src })
    else none

-- How much of a piece of length `len` belongs to the head of the packet.
abbrev pub head_part : PackDealWith → ℕ → ℕ
head_part k len = if ltb k.data_size head_size then min len (head_size - k.data_size) else 0

infixl 5 ◌>>=◌
abbrev pub ◌>>=◌ {ℓ κ} : {A : Type ℓ} {B : Type κ} → Option A → (A → Run B) → Run B
none >>= f = fault
some a >>= f = f a

-- What a round of `readData` leaves: `_pData` and `_Data_size`, how much was read, and the packets that
-- were handed on, each with its number. `none` is `return -1`.
pub record Round : Type 0 where
  pub pack : PackDealWith
  pub readlen : ℕ
  pub messages : List (ℕ × List ℕ)

-- The end of a round: a packet that is complete is handed on.
unfoldable pub complete : PackDealWith → ℕ → ℕ → Run (Option Round)
complete k hlen readlen =
    if ltb head_size k.data_size && (hlen == k.data_size)
    then (do
      id ← head_msg_id k
      returns (
          some (record {
            pack = record k { data_size = 0 };
            readlen = readlen;
            messages = (id, take hlen k.p_data) ∷ [];
          })))
    else returns (some (record { pack = k; readlen = readlen; messages = [] }))

-- A round of `readData` of TcpStickyWrap on `len` bytes at `pReadBuff`, up to its calls of the buffer. The
-- body is copied from `pReadBuff` too. A length below what is there already makes `memcpy` run away.
unfoldable pub tcp_body : PackDealWith → List ℕ → ℕ → ℕ → ℕ → Run (Option Round)
tcp_body k src len readlen hlen =
    if leb (k.data_size + (len - readlen)) hlen
    then (do k' ← append_pack k (take (len - readlen) src); complete k' hlen len)
    else (if ltb hlen k.data_size then fault else (do
      k' ← append_pack k (take (hlen - k.data_size) src)
      complete k' hlen (readlen + (hlen - k.data_size))))

unfoldable pub tcp_round : PackDealWith → List ℕ → ℕ → Run (Option Round)
tcp_round k src len = do
  let readlen = head_part k len
  k' ← append_pack k (take readlen src)
  hlen ← head_len k'
  if leb head_size k'.data_size && ltb pack_cap hlen
      then returns none
      else tcp_body k' src len readlen hlen

-- What `readData` of TcpStickyWrap returns: -1 as `none`, or the buffer, the pack, the length of what
-- was read, and the packets that were handed on.
abbrev pub TcpResult : Type 0
TcpResult = Run (Option (MemoryBuff × PackDealWith × ℕ × List (ℕ × List ℕ)))

-- The result with a round before it.
unfoldable pub add_round : Round → TcpResult → TcpResult
add_round r fault = fault
add_round r out_of_fuel = out_of_fuel
add_round r (returns none) = returns none
add_round r (returns (some (b, k, n, ms))) = returns (some (b, k, r.readlen + n, r.messages ++ ms))

-- What follows a round on `len` bytes: the buffer is told how much was read.
unfoldable pub after_tcp_round :
    (MemoryBuff → PackDealWith → TcpResult) → MemoryBuff → ℕ → Run (Option Round) → TcpResult
after_tcp_round go b len fault = fault
after_tcp_round go b len out_of_fuel = out_of_fuel
after_tcp_round go b len (returns none) = returns none
after_tcp_round go b len (returns (some r)) = do
  b' ← adjust_read_size b r.readlen
  elim (leb len r.readlen) [
    | true ↦ returns (some (b', r.pack, r.readlen, r.messages))
    | false ↦ add_round r (go b' r.pack)
  ]

-- A round on what `GetReadBuff` returned; a null pointer comes with the length 0.
unfoldable pub tcp_buff_round :
    (MemoryBuff → PackDealWith → TcpResult)
    → MemoryBuff
    → PackDealWith
    → Option (Option (List ℕ × ℕ))
    → TcpResult
tcp_buff_round go b k none = fault
tcp_buff_round go b k (some none) = after_tcp_round go b 0 (tcp_round k [] 0)
tcp_buff_round go b k (some (some (m, len))) = after_tcp_round go b len (tcp_round k m len)

-- `readData`, on fuel.
pub tcp_read_data : ℕ → MemoryBuff → PackDealWith → TcpResult
tcp_read_data zero b k = out_of_fuel
tcp_read_data (suc fuel) b k = tcp_buff_round (tcp_read_data fuel) b k (get_read_buff b)

-- A round of `finishParse` of WsStickyWrap, on `size` bytes at `pData`: whether it goes on or is at
-- `return -1`, the pack, and `_Data_size`, which is a field of the connection and no longer of the pack.
unfoldable pub finish_body : PackDealWith → List ℕ → ℕ → ℕ → ℕ → ℕ → Run (Bool × PackDealWith × ℕ)
finish_body k src size readlen hlen data_size =
    if leb (k.data_size + (size - readlen)) hlen
    then (do
      k' ← append_pack k (take (size - readlen) (drop readlen src))
      returns (true, k', data_size))
    else (if ltb hlen k.data_size then fault else (do
      k' ← append_pack k (take (hlen - k.data_size) (drop readlen src))
      returns (true, record k' { data_size = k.data_size }, hlen)))

unfoldable pub finish_round : PackDealWith → List ℕ → ℕ → ℕ → Run (Bool × PackDealWith × ℕ)
finish_round k src size data_size = do
  let readlen = head_part k size
  k' ← append_pack k (take readlen src)
  hlen ← head_len k'
  if leb head_size k'.data_size && ltb pack_cap hlen
      then returns (false, k', data_size)
      else finish_body k' src size readlen hlen data_size

-- `finishParse`: the loop, on fuel: the value returned, with -1 as `none`, the pack, and `_Data_size`, which
-- a complete packet sets to 0.
pub after_finish :
    (PackDealWith → List ℕ → ℕ → ℕ → Run (Option ℕ × PackDealWith × ℕ))
    → List ℕ
    → ℕ
    → Run (Bool × PackDealWith × ℕ)
    → Run (Option ℕ × PackDealWith × ℕ)
after_finish go src size fault = fault
after_finish go src size out_of_fuel = out_of_fuel
after_finish go src size (returns (false, k, n)) = returns (none, k, n)
after_finish go src size (returns (true, k, n)) = do
  hlen ← head_len k
  go k src size (if ltb head_size k.data_size && (hlen == n) then 0 else n)

pub finish_parse : ℕ → PackDealWith → List ℕ → ℕ → ℕ → Run (Option ℕ × PackDealWith × ℕ)
finish_parse zero k src size data_size = out_of_fuel
finish_parse (suc fuel) k src size data_size =
    after_finish (finish_parse fuel) src size (finish_round k src size data_size)
