-- ===== src/Packets/Encode.antt =====
-- ExtNet/common/BaseType.h, `ServerPack`: a message with its length, its number and its connection.
use multithread_libevent_exa.Prelude.{
  ℕ, zero, suc, ◌*◌, ◌+◌, ◌/◌, ◌%◌, ◌^◌, ◌≤◌, ◌<◌, ◌≡◌, refl, ◌∙◌, arith, List, [], ◌∷◌, ◌++◌,
  Option, none, some, length, take, drop, leb, le→leb, lt→leb, if◌then◌else◌,
}

-- An unsigned number in memory, the lowest byte first.
unfoldable pub le_bytes : ℕ → ℕ → List ℕ
le_bytes zero v = []
le_bytes (suc n) v = (v % 256) ∷ le_bytes n (v / 256)

-- `_pData`, `_size` and `_msgId`.
pub record ServerPack : Type 0 where
  pub p_data : List ℕ
  pub size : ℕ
  pub msg_id : ℕ

-- The constructor. `_size` has 16 bits, and what does not fit the block of that size is written past it.
unfoldable pub server_pack : ℕ → List ℕ → ℕ → Option ServerPack
server_pack conn_id buff msg_id =
    let size = (length buff + 8) % 65536 in
    if leb (length buff + 8) size
    then some (record {
      p_data = le_bytes 2 size ++ (le_bytes 2 msg_id ++ (le_bytes 4 conn_id ++ buff));
      size = size;
      msg_id = msg_id;
    })
    else none

-- `MakeServerMsg` of TcpConnect and WsConnect. The pack is not kept.
unfoldable pub make_server_msg : ℕ → List ℕ → ℕ → Option ServerPack
make_server_msg conn_id buff msg_id = server_pack conn_id buff msg_id

-- The number that a reader of the same byte order finds.
unfoldable pub le_value : List ℕ → ℕ
le_value [] = 0
le_value (b ∷ bs) = b + 256 * le_value bs

pub two_bytes : (v : ℕ) → v < 65536 → le_value (le_bytes 2 v) ≡ v
unfolding le_value le_bytes
two_bytes v h = omega arith

four_bytes : (v : ℕ) → v < 2 ^ 32 → le_value (le_bytes 4 v) ≡ v
unfolding le_value le_bytes
four_bytes v h = omega arith

-- For a connection number below 2^32, a message number below 2^16, and a message of fewer than 2^16 -
-- 8 bytes, MakeServerMsg makes a ServerPack, whose constructor fills exactly the block that it
-- allocates. A reader that takes the lower bytes of a number first finds there the length of the block
-- in two bytes, the message number in two and the connection number in four, and the message is what
-- follows.
pub server_pack_lem :
    (conn_id msg_id : ℕ) (buff : List ℕ)
    → conn_id < 2 ^ 32
    → msg_id < 2 ^ 16
    → length buff + 8 < 2 ^ 16
    → (p : ServerPack) × (make_server_msg conn_id buff msg_id ≡ some p)
      × (le_value (take 2 p.p_data) ≡ 8 + length buff)
      × (le_value (take 2 (drop 2 p.p_data)) ≡ msg_id)
      × (le_value (take 4 (drop 4 p.p_data)) ≡ conn_id)
      × (drop 8 p.p_data ≡ buff)
      × (length p.p_data ≡ p.size)
unfolding make_server_msg server_pack le_bytes
server_pack_lem conn_id msg_id buff hc hm hl =
    let size = (length buff + 8) % 65536 in
    let e : size ≡ length buff + 8 = omega arith in
    (
      record {
        p_data = le_bytes 2 size ++ (le_bytes 2 msg_id ++ (le_bytes 4 conn_id ++ buff));
        size = size;
        msg_id = msg_id;
      },
      rw (le→leb (length buff + 8) size (omega arith)) refl,
      two_bytes size (omega arith) ∙ omega (arith, e),
      two_bytes msg_id hm,
      four_bytes conn_id hc,
      refl,
      omega (arith, e),
    )

-- For a message of fewer than 2^16 and at least 2^16 - 8 bytes, the constructor of ServerPack writes
-- past the end of the block that it allocates.
pub server_pack_overflow :
    (conn_id msg_id : ℕ) (buff : List ℕ)
    → length buff < 2 ^ 16
    → 2 ^ 16 ≤ length buff + 8
    → server_pack conn_id buff msg_id ≡ none
unfolding server_pack
server_pack_overflow conn_id msg_id buff h ge =
    rw (lt→leb (length buff + 8) ((length buff + 8) % 65536) (omega arith)) refl
